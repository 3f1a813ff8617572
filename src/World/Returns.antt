-- ===== src/World/Returns.antt =====
-- What is known of a block that returned.
use smart_dialer.Base.{◌≡◌, refl, arith}
use smart_dialer.Errors.{Outcome}
use smart_dialer.World.State.{World, Action, continue_with}

-- Its first action returned, and the rest was run after it.
pub record Returned {A B : Type 0} (r : Outcome A) (w : World) (f : A → Action B)
    (out : Outcome B × World) : Type 0 where
  pub value : A
  pub first : r ≡ Outcome.ok value
  pub rest : out ≡ f value w

pub continue-Returned :
    {A B : Type 0} (r : Outcome A) (w : World) (f : A → Action B) (b : B)
    → (continue_with r f w).0 ≡ Outcome.ok b
    → Returned r w f (continue_with r f w)
continue-Returned (Outcome.ok a) w f b h = record { value = a; first = refl; rest = refl }
continue-Returned (Outcome.raised x) w f b h = ground (arith, h)
