-- ===== src/Base/Documents.antt =====
-- Documents found by their key, and how a document found before a change is found after it.
use smart_dialer.Base.Tests.{◌==◌, if◌then◌else◌}
use smart_dialer.Base.Lists.{All}
use Prim.Native.Nat.{ℕ}
use mathlib.Core.Path.{◌≡◌, sym, subst}
use mathlib.Core.Logic.{◌⊎◌, inl, inr}
use mathlib.Core.Bool.{false}
use mathlib.Core.Option.{Option, none, some}
use mathlib.Core.List.{List, [], ◌∷◌, ◌++◌}
use native.Mathlib.Omega.{arith}

-- Any number of steps, one after the other.
pub data Star {ℓ} {A : Type ℓ} (R : A → A → Type ℓ) (a : A) : A → Type ℓ where
  here : Star R a a
  next : {b c : A} → Star R a b → R b c → Star R a c

pub Star-trans {ℓ} :
    {A : Type ℓ} {R : A → A → Type ℓ} {a b c : A} → Star R a b → Star R b c → Star R a c
Star-trans r here = r
Star-trans r (next s x) = next (Star-trans r s) x

module _ {A : Type 0} (id : A → ℕ) where
  -- the first document with this key
  unfoldable pub get : ℕ → List A → Option A
  get k [] = none
  get k (x ∷ xs) = if id x == k then some x else get k xs

  -- A document is replaced by one with its key: each lookup finds what it found, or the new one.
  pub get-replace :
      (k : ℕ) (x : A) (left : List A) (d d' : A) (right : List A)
      → id d' ≡ id d
      → get k (left ++ d ∷ right) ≡ some x
      → (get k (left ++ d' ∷ right) ≡ some x) ⊎ ((x ≡ d) × (get k (left ++ d' ∷ right) ≡ some d'))
  unfolding get
  get-replace k x [] d d' right e h = ground arith
  get-replace k x (y ∷ left) d d' right e h = ground (arith, get-replace k x left d d' right e)

  get-ne :
      (k : ℕ) (x d : A) (right : List A)
      → All (λ y. (id d == id y) ≡ false) right
      → get k right ≡ some x
      → (id d == k) ≡ false
  unfolding get
  get-ne k x d [] h e = ground arith
  get-ne k x d (y ∷ right) h e = ground (arith, get-ne k x d right h.1)

  -- A document with a new key is put in: each lookup finds what it found.
  pub get-insert :
      (k : ℕ) (x : A) (left : List A) (d : A) (right : List A)
      → All (λ y. (id d == id y) ≡ false) (left ++ right)
      → get k (left ++ right) ≡ some x
      → get k (left ++ d ∷ right) ≡ some x
  unfolding get
  get-insert k x [] d right h e = ground (arith, get-ne k x d right h e)
  get-insert k x (y ∷ left) d right h e = ground (arith, get-insert k x left d right h.1)

  -- The document that is found has made the step that was made, if any.
  pub get-replace_steps :
      (R : A → A → Type 0) (k : ℕ) (x : A) (left : List A) (d d' : A) (right : List A)
      → id d' ≡ id d
      → R d d'
      → get k (left ++ d ∷ right) ≡ some x
      → (y : A) × (get k (left ++ d' ∷ right) ≡ some y) × Star R x y
  get-replace_steps R k x left d d' right e r h = elim (get-replace k x left d d' right e h) [
    | inl same ↦ (x, same, here)
    | inr (p, q) ↦ (d', q, next here (subst (λ z. R z d') (sym p) r))
  ]
