-- ===== src/Contracts/Health.antt =====
-- The provider's health, from its last requests.
use smart_dialer.Base.{ℕ, ◌+◌, ◌≤◌, ◌≡◌, false, List, [], ◌∷◌, ◌++◌, All, length, arith}
use mathlib.Core.List.{reverse_aux}
use smart_dialer.Model.Enums.{ProviderHealthStatus}
use smart_dialer.Settings.{Settings, Floats}
use smart_dialer.Services.ProviderHealth.{
  leading_failures, count_trailing_failures, derive_status, health_of,
}
use smart_dialer.World.{OriginateSample}

abbrev pub HasFailed : OriginateSample → Type 0
HasFailed s = s.success ≡ false

leading-reverse :
    (failed rest : List OriginateSample)
    → All HasFailed failed
    → leading_failures (reverse_aux failed rest) ≡ length failed + leading_failures rest
unfolding leading_failures
leading-reverse [] rest h = omega arith
leading-reverse (x ∷ failed) rest h =
    let later : leading_failures (reverse_aux failed (x ∷ rest))
        ≡ length failed + leading_failures (x ∷ rest) =
      leading-reverse failed (x ∷ rest) h.1 in
    ground (arith, later, h.0)

leading-append :
    (before failed rest : List OriginateSample)
    → All HasFailed failed
    → length failed ≤ leading_failures (reverse_aux (before ++ failed) rest)
leading-append [] failed rest h = omega (arith, leading-reverse failed rest h)
leading-append (x ∷ before) failed rest h = leading-append before failed (x ∷ rest) h

-- When at least as many of the last requests failed as the settings allow, the provider is
-- unhealthy, whatever came before.
pub health_of-unhealthy :
    {F : Type 0} (fl : Floats F) (s : Settings F) (provider received t : ℕ)
    (before failed : List OriginateSample)
    → All HasFailed failed
    → s.unhealthy_consecutive_failures ≤ length failed
    → (health_of fl s provider received t (before ++ failed)).status
      ≡ ProviderHealthStatus.unhealthy
unfolding health_of derive_status count_trailing_failures
health_of-unhealthy fl s provider received t before failed h le =
    ground (arith, leading-append before failed [] h, le)
