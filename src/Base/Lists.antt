-- ===== src/Base/Lists.antt =====
-- Lists measured by native numbers, and a predicate on all elements.
use Prim.Native.Nat.{ℕ, suc}
use mathlib.Core.Bool.{Bool, false, ◌||◌}
use smart_dialer.Base.Tests.{if◌then◌else◌}
use mathlib.Core.Logic.{◌⊎◌}
use mathlib.Core.List.{List, [], ◌∷◌, ◌++◌}

abbrev pub length {ℓ} : {A : Type ℓ} → List A → ℕ
length [] = 0
length (x ∷ xs) = suc (length xs)

abbrev pub All {ℓ κ} : {A : Type ℓ} → (A → Type κ) → List A → Type κ
All P [] = Unit
All P (x ∷ xs) = P x × All P xs

abbrev pub Any {ℓ} : {A : Type ℓ} → (A → Type 0) → List A → Type 0
Any P [] = ⊥
Any P (x ∷ xs) = P x ⊎ Any P xs

-- `sum(1 for x in xs if test)`
abbrev pub count_if {ℓ} : {A : Type ℓ} → (A → Bool) → List A → ℕ
count_if test [] = 0
count_if test (x ∷ xs) = let rest = count_if test xs in if test x then suc rest else rest

-- `value in values`, by a test of equality
abbrev pub contains {ℓ} : {A : Type ℓ} → (A → A → Bool) → A → List A → Bool
contains same a [] = false
contains same a (x ∷ xs) = same a x || contains same a xs

module _ {ℓ κ} {A : Type ℓ} (P : A → Type κ) where
  pub All-append : (xs ys : List A) → All P xs → All P ys → All P (xs ++ ys)
  All-append [] ys h k = k
  All-append (x ∷ xs) ys h k = (h.0, All-append xs ys h.1 k)

  pub All-prefix : (xs ys : List A) → All P (xs ++ ys) → All P xs
  All-prefix [] ys h = tt
  All-prefix (x ∷ xs) ys h = (h.0, All-prefix xs ys h.1)

  pub All-suffix : (xs ys : List A) → All P (xs ++ ys) → All P ys
  All-suffix [] ys h = h
  All-suffix (x ∷ xs) ys h = All-suffix xs ys h.1

  pub All-middle : (xs : List A) (y : A) (zs : List A) → All P (xs ++ y ∷ zs) → P y
  All-middle [] y zs h = h.0
  All-middle (x ∷ xs) y zs h = All-middle xs y zs h.1

  -- One element is replaced by another.
  pub All-replace :
      (xs : List A) (y y' : A) (zs : List A)
      → (P y → P y')
      → All P (xs ++ y ∷ zs)
      → All P (xs ++ y' ∷ zs)
  All-replace [] y y' zs f h = (f h.0, h.1)
  All-replace (x ∷ xs) y y' zs f h = (h.0, All-replace xs y y' zs f h.1)

  -- One element is put in.
  pub All-insert :
      (xs : List A) (y : A) (zs : List A) → P y → All P (xs ++ zs) → All P (xs ++ y ∷ zs)
  All-insert [] y zs p h = (p, h)
  All-insert (x ∷ xs) y zs p h = (h.0, All-insert xs y zs p h.1)

-- The predicate is weakened.
pub All-map {ℓ κ μ} :
    {A : Type ℓ} (P : A → Type κ) (Q : A → Type μ)
    → ((a : A) → P a → Q a)
    → (xs : List A) → All P xs
    → All Q xs
All-map P Q f [] h = tt
All-map P Q f (x ∷ xs) h = (f x h.0, All-map P Q f xs h.1)
