-- ===== src/Base/Dict.antt =====
-- A Python dictionary with numbers for keys.
use smart_dialer.Base.Tests.{◌==◌, if◌then◌else◌}
use Prim.Native.Nat.{ℕ}
use mathlib.Core.Option.{Option, none, some}
use mathlib.Core.List.{List, [], ◌∷◌}
use mathlib.Core.Path.{◌≡◌, refl}
use mathlib.Core.Bool.{false}
use native.Mathlib.Omega.{arith}

module _ {ℓ} {V : Type ℓ} where
  -- `d.get(k)`
  abbrev pub lookup : ℕ → List (ℕ × V) → Option V
  lookup k [] = none
  lookup k ((j, v) ∷ d) = if j == k then some v else lookup k d

  -- `d.get(k, default)`
  abbrev pub lookup_or : ℕ → V → List (ℕ × V) → V
  lookup_or k default [] = default
  lookup_or k default ((j, v) ∷ d) = if j == k then v else lookup_or k default d

  -- `d[k] = v`
  abbrev pub put : ℕ → V → List (ℕ × V) → List (ℕ × V)
  put k v [] = (k, v) ∷ []
  put k v ((j, u) ∷ d) = if j == k then (k, v) ∷ d else (j, u) ∷ put k v d

  -- `d.pop(k, None)`, without the value
  abbrev pub without : ℕ → List (ℕ × V) → List (ℕ × V)
  without k [] = []
  without k ((j, v) ∷ d) = let rest = without k d in if j == k then rest else (j, v) ∷ rest

  pub lookup-put_same : (k : ℕ) (v : V) (d : List (ℕ × V)) → lookup k (put k v d) ≡ some v
  lookup-put_same k v [] = ground arith
  lookup-put_same k v ((j, u) ∷ d) = ground (arith, lookup-put_same k v d)

  pub lookup-put_other :
      (j k : ℕ) (v : V) (d : List (ℕ × V)) → (j == k) ≡ false → lookup k (put j v d) ≡ lookup k d
  lookup-put_other j k v [] h = ground arith
  lookup-put_other j k v ((i, u) ∷ d) h = ground (arith, lookup-put_other j k v d h)

  pub lookup-without_same : (k : ℕ) (d : List (ℕ × V)) → lookup k (without k d) ≡ none
  lookup-without_same k [] = refl
  lookup-without_same k ((j, u) ∷ d) = ground (arith, lookup-without_same k d)

  pub lookup-without_other :
      (j k : ℕ) (d : List (ℕ × V)) → (j == k) ≡ false → lookup k (without j d) ≡ lookup k d
  lookup-without_other j k [] h = refl
  lookup-without_other j k ((i, u) ∷ d) h = ground (arith, lookup-without_other j k d h)
