-- ===== src/World/Yields.antt =====
-- What is known of an action's outcome, from any world.
use smart_dialer.Errors.{Error, Outcome}
use smart_dialer.World.State.{World, Action, pure, continue_with, ◌>>=◌, attempt}

pub record Yields {A : Type 0} (Q : Outcome A → Type 0) (m : Action A) : Type 0 where
  pub at : (w : World) → Q (m w).0

module _ {A : Type 0} where
  -- an outcome of which nothing is known
  abbrev pub Any : Outcome A → Type 0
  Any r = Unit

  pub Yields-Any : (m : Action A) → Yields Any m
  Yields-Any m = record { at = λ w. tt }

  pub Yields-pure : (Q : Outcome A → Type 0) (a : A) → Q (Outcome.ok a) → Yields Q (pure a)
  unfolding pure
  Yields-pure Q a q = record { at = λ w. q }

module _ {A B : Type 0} (P : Outcome A → Type 0) (Q : Outcome B → Type 0) where
  Yields-continue_with :
      (r : Outcome A) (f : A → Action B)
      → P r
      → ((a : A) → P (Outcome.ok a) → Yields Q (f a))
      → ((x : Error) → P (Outcome.raised x) → Q (Outcome.raised x))
      → Yields Q (continue_with r f)
  Yields-continue_with (Outcome.ok a) f p h k = h a p
  Yields-continue_with (Outcome.raised x) f p h k = record { at = λ w. k x p }

  pub Yields-bind :
      (m : Action A) (f : A → Action B)
      → Yields P m
      → ((a : A) → P (Outcome.ok a) → Yields Q (f a))
      → ((x : Error) → P (Outcome.raised x) → Q (Outcome.raised x))
      → Yields Q (m >>= f)
  unfolding ◌>>=◌
  Yields-bind m f p h k = record {
    at = λ w. (Yields-continue_with (m w).0 f (p.at w) h k).at (m w).1;
  }

  continue_at :
      (r : Outcome A) (f : A → Action B) (w : World)
      → P r
      → ((a : A) → P (Outcome.ok a) → Q (f a w).0)
      → ((x : Error) → P (Outcome.raised x) → Q (Outcome.raised x))
      → Q (continue_with r f w).0
  continue_at (Outcome.ok a) f w p h k = h a p
  continue_at (Outcome.raised x) f w p h k = k x p

  -- a block run from one world
  pub bind_at :
      (m : Action A) (f : A → Action B) (w : World)
      → P (m w).0
      → ((a : A) → P (Outcome.ok a) → Q (f a (m w).1).0)
      → ((x : Error) → P (Outcome.raised x) → Q (Outcome.raised x))
      → Q ((m >>= f) w).0
  unfolding ◌>>=◌
  bind_at m f w p h k = continue_at (m w).0 f (m w).1 p h k

  pub Yields-attempt :
      (m : Action A) (f : Outcome A → Action B)
      → Yields P m
      → ((r : Outcome A) → P r → Yields Q (f r))
      → Yields Q (attempt m f)
  unfolding attempt
  Yields-attempt m f p h = record { at = λ w. (h (m w).0 (p.at w)).at (m w).1 }
