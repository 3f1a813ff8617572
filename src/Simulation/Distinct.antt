-- ===== src/Simulation/Distinct.antt =====
-- The checker finds a double booking exactly if there is one.
use smart_dialer.Base.{
  IsDistinct, ℕ, ◌≡◌, ◌↔◌, refl, false, List, [], ◌∷◌, ◌++◌, Option, none, some, All, lookup, put,
  ◌==◌, arith,
}
use smart_dialer.Model.{Call}
use smart_dialer.Simulation.Invariants.{
  InvariantName, agent_double_booked, borrower_double_booked, with_offender, Offender, violation_if,
  offenders, check_duplicate_bindings,
}

-- the keys of the calls are not in the dictionary
abbrev IsUnseen : (Call → ℕ) → List (ℕ × ℕ) → List Call → Type 0
IsUnseen key seen calls = All (λ (d : Call). lookup (key d) seen ≡ none) calls

lookup-put :
    (j k v : ℕ) (d : List (ℕ × ℕ))
    → (lookup j (put k v d) ≡ none) ↔ (((k == j) ≡ false) × (lookup j d ≡ none))
lookup-put j k v [] = (λ h. ground (arith, h), λ h. ground (arith, h))
lookup-put j k v ((i, u) ∷ d) =
    let rest = lookup-put j k v d in (λ h. ground (arith, rest, h), λ h. ground (arith, rest, h))

put-IsUnseen :
    (key : Call → ℕ) (c : Call) (seen : List (ℕ × ℕ)) (calls : List Call)
    → IsUnseen key (put (key c) c.id seen) calls
      ↔ (All (λ (d : Call). (key c == key d) ≡ false) calls × IsUnseen key seen calls)
put-IsUnseen key c seen [] = (λ h. (tt, tt), λ h. tt)
put-IsUnseen key c seen (d ∷ calls) =
    let one = lookup-put (key d) (key c) c.id seen in
    let rest = put-IsUnseen key c seen calls in
    (
      λ h. let (a, b) = one.0 h.0 in let (p, q) = rest.0 h.1 in ((a, p), (b, q)),
      λ h. (one.1 (h.0.0, h.1.0), rest.1 (h.0.1, h.1.1)),
    )

with_offender-none :
    (identifier id : ℕ) (o : Option ℕ) (rest : List Offender)
    → (with_offender identifier id o rest ≡ []) ↔ ((o ≡ none) × (rest ≡ []))
with_offender-none identifier id none rest = (λ h. (refl, h), λ h. h.1)
with_offender-none identifier id (some first) rest =
    (λ h. ground (arith, h), λ h. ground (arith, h.0))

offenders-none :
    (key : Call → ℕ) (seen : List (ℕ × ℕ)) (calls : List Call)
    → (offenders key seen calls ≡ []) ↔ (IsUnseen key seen calls × IsDistinct key calls)
unfolding offenders
offenders-none key seen [] = (λ h. (tt, tt), λ h. refl)
offenders-none key seen (c ∷ calls) =
    let first = with_offender-none (key c) c.id (lookup (key c) seen) _ in
    let split = put-IsUnseen key c seen calls in
    let rest = offenders-none key (put (key c) c.id seen) calls in
    (
      λ h.
          let (unseen, none_left) = first.0 h in
          let (p, q) = rest.0 none_left in let (a, b) = split.0 p in ((unseen, b), (a, q)),
      λ h. first.1 (h.0.0, rest.1 (split.1 (h.1.0, h.0.1), h.1.1)),
    )

all-IsUnseen : (key : Call → ℕ) (calls : List Call) → IsUnseen key [] calls
all-IsUnseen key [] = tt
all-IsUnseen key (c ∷ calls) = (refl, all-IsUnseen key calls)

violations-none :
    (a b : InvariantName) (xs ys : List Offender)
    → (violation_if a xs ++ violation_if b ys ≡ []) ↔ ((xs ≡ []) × (ys ≡ []))
violations-none a b [] [] = (λ h. (refl, refl), λ h. refl)
violations-none a b [] (y ∷ ys) = (λ h. ground (arith, h), λ h. ground (arith, h.1))
violations-none a b (x ∷ xs) ys = (λ h. ground (arith, h), λ h. ground (arith, h.0))

-- The checker reports no double booking exactly if no two of the active calls have the same agent
-- and no two have the same borrower.
pub check_duplicate_bindings-exact :
    (active_calls : List Call)
    → (check_duplicate_bindings active_calls ≡ []) ↔ (
        IsDistinct (λ (c : Call). c.agent_id) active_calls
        × IsDistinct (λ (c : Call). c.borrower_id) active_calls)
unfolding check_duplicate_bindings
check_duplicate_bindings-exact active_calls =
    let agents = offenders-none (λ (c : Call). c.agent_id) [] active_calls in
    let borrowers = offenders-none (λ (c : Call). c.borrower_id) [] active_calls in
    let both =
      violations-none agent_double_booked borrower_double_booked
        (offenders (λ (c : Call). c.agent_id) [] active_calls)
        (offenders (λ (c : Call). c.borrower_id) [] active_calls) in
    (
      λ h. let (p, q) = both.0 h in ((agents.0 p).1, (borrowers.0 q).1),
      λ h. both.1 (
        agents.1 (all-IsUnseen (λ (c : Call). c.agent_id) active_calls, h.0),
        borrowers.1 (all-IsUnseen (λ (c : Call). c.borrower_id) active_calls, h.1),
      ),
    )
