-- ===== src/Base/Distinct.antt =====
-- Documents of which no two have the same key.
use smart_dialer.Base.Tests.{◌==◌, if◌then◌else◌}
use smart_dialer.Base.Lists.{All, All-replace, All-insert, All-middle}
use smart_dialer.Base.Documents.{get}
use Prim.Native.Nat.{ℕ}
use mathlib.Core.Path.{◌≡◌, subst}
use mathlib.Core.Bool.{Bool, true, false}
use mathlib.Core.Option.{some}
use mathlib.Core.List.{List, [], ◌∷◌, ◌++◌}
use native.Mathlib.Omega.{arith}

==_flip : (a b : ℕ) → (a == b) ≡ false → (b == a) ≡ false
==_flip a b h = ground (arith, h)

some-inj : {A : Type 0} {x y : A} → some y ≡ some x → y ≡ x
some-inj e = ground (arith, e)

module _ {A : Type 0} (id : A → ℕ) where
  -- no two documents have the same key
  abbrev pub IsDistinct : List A → Type 0
  IsDistinct [] = Unit
  IsDistinct (x ∷ xs) = All (λ y. (id x == id y) ≡ false) xs × IsDistinct xs

  pub replace-IsDistinct :
      (left : List A) (d d' : A) (right : List A)
      → id d' ≡ id d
      → IsDistinct (left ++ d ∷ right)
      → IsDistinct (left ++ d' ∷ right)
  replace-IsDistinct [] d d' right e h = (rw e h.0, h.1)
  replace-IsDistinct (x ∷ left) d d' right e h = (
    All-replace (λ y. (id x == id y) ≡ false) left d d' right (λ p. rw e p) h.0,
    replace-IsDistinct left d d' right e h.1,
  )

  pub insert-IsDistinct :
      (left : List A) (d : A) (right : List A)
      → All (λ y. (id d == id y) ≡ false) (left ++ right)
      → IsDistinct (left ++ right)
      → IsDistinct (left ++ d ∷ right)
  insert-IsDistinct [] d right free h = (free, h)
  insert-IsDistinct (x ∷ left) d right free h = (
    All-insert (λ y. (id x == id y) ≡ false) left d right (==_flip (id d) (id x) free.0) h.0,
    insert-IsDistinct left d right free.1 h.1,
  )

  -- The document that is replaced is the one that is found.
  pub get-replaced :
      (k : ℕ) (left : List A) (d d' : A) (right : List A)
      → id d' ≡ id d
      → id d ≡ k
      → IsDistinct (left ++ d ∷ right)
      → get id k (left ++ d' ∷ right) ≡ some d'
  unfolding get
  get-replaced k [] d d' right e f h = ground arith
  get-replaced k (x ∷ left) d d' right e f h =
      let apart : (id x == id d) ≡ false =
        All-middle (λ y. (id x == id y) ≡ false) left d right h.0 in
      let later = get-replaced k left d d' right e f h.1 in ground (arith, apart, later)

  -- What holds of every document holds of the one that is found.
  found-All :
      (P : A → Type 0) (k : ℕ) (x y : A) (xs : List A) (b : Bool)
      → P y
      → (get id k xs ≡ some x → P x)
      → (if b then some y else get id k xs) ≡ some x
      → P x
  found-All P k x y xs true p later e = subst P (some-inj e) p
  found-All P k x y xs false p later e = later e

  pub get-All :
      (P : A → Type 0) (k : ℕ) (x : A) (xs : List A) → All P xs → get id k xs ≡ some x → P x
  unfolding get
  get-All P k x [] h e = ground (arith, e)
  get-All P k x (y ∷ xs) h e = found-All P k x y xs (id y == k) h.0 (get-All P k x xs h.1) e

  pub get-key : (k : ℕ) (x : A) (xs : List A) → get id k xs ≡ some x → id x ≡ k
  unfolding get
  get-key k x [] e = ground (arith, e)
  get-key k x (y ∷ xs) e = ground (arith, e, get-key k x xs)
