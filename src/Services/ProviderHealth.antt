-- ===== src/Services/ProviderHealth.antt =====
-- app/services/provider_health.py. `get_health` catches what `_compute_health` raises, which is
-- nothing: the division is guarded, and the index of a percentile is in range.
use smart_dialer.Base.{
  ℕ, zero, suc, ◌-◌, ◌+◌, min, Bool, true, false, List, [], ◌∷◌, ◌++◌, not, ltb, leb, ◌&&◌, length,
  lookup_or, put, count_if, if◌then◌else◌, map,
}
use mathlib.Core.List.{reverse}
use smart_dialer.Model.Enums.{ProviderHealthStatus}
use smart_dialer.Settings.{Floats, Settings}
use smart_dialer.World.{
  OriginateSample, Action, Env, ◌>>=◌, ◌>>◌, pure, gets, set_samples, set_events_received,
  monotonic_now, now,
}

pub record ProviderHealth (F : Type 0) : Type 0 where
  pub provider_name : ℕ
  pub status : ProviderHealthStatus
  pub request_count : ℕ
  pub success_rate : F
  pub failure_rate : F
  pub timeout_rate : F
  pub p50_latency_ms : F
  pub p95_latency_ms : F
  pub consecutive_failures : ℕ
  pub events_received : ℕ
  pub low_confidence : Bool
  pub computed_at : ℕ

-- the loop of `_trim`: samples older than the cutoff leave at the front
unfoldable pub drop_older : ℕ → List OriginateSample → List OriginateSample
drop_older cutoff [] = []
drop_older cutoff (x ∷ window) =
    let rest = drop_older cutoff window in if ltb x.recorded_at cutoff then rest else x ∷ window

-- the loop of `_count_trailing_failures`, over the samples from the last to the first
unfoldable pub leading_failures : List OriginateSample → ℕ
leading_failures [] = 0
leading_failures (x ∷ rest) =
    let failures = leading_failures rest in if x.success then 0 else suc failures

unfoldable pub count_trailing_failures : List OriginateSample → ℕ
unfolding leading_failures
count_trailing_failures samples = leading_failures (reverse samples)

-- Python's `sorted`, and the element at an index that is in range
abbrev insert_sorted : ℕ → List ℕ → List ℕ
insert_sorted x [] = x ∷ []
insert_sorted x (y ∷ ys) = if leb x y then x ∷ y ∷ ys else y ∷ insert_sorted x ys

abbrev sorted : List ℕ → List ℕ
sorted [] = []
sorted (x ∷ xs) = insert_sorted x (sorted xs)

abbrev element_at : ℕ → List ℕ → ℕ
element_at i [] = 0
element_at zero (x ∷ xs) = x
element_at (suc i) (x ∷ xs) = element_at i xs

module _ {F : Type 0} (fl : Floats F) where
  -- the latencies are whole numbers, and are sorted as such
  unfoldable pub percentile : List ℕ → F → F
  percentile [] fraction = fl.of_ℕ 0
  percentile (v ∷ values) fraction =
      let last = length values in
      fl.of_ℕ
        (element_at (min last (fl.round (fl.mul fraction (fl.of_ℕ last)))) (sorted (v ∷ values)))

  unfoldable pub derive_status :
      Settings F
      → (failure_rate timeout_rate : F) (consecutive_failures : ℕ) (p95_latency_ms : F)
        (low_confidence : Bool)
      → ProviderHealthStatus
  derive_status s failure_rate timeout_rate consecutive_failures p95_latency_ms low_confidence =
      if leb s.unhealthy_consecutive_failures consecutive_failures
      then ProviderHealthStatus.unhealthy
      else if not low_confidence && fl.lt s.unhealthy_timeout_rate timeout_rate
      then ProviderHealthStatus.unhealthy
      else if low_confidence
      then ProviderHealthStatus.healthy
      else if fl.lt s.degraded_failure_rate failure_rate
      then ProviderHealthStatus.degraded
      else if fl.lt s.degraded_latency_ms p95_latency_ms
      then ProviderHealthStatus.degraded
      else ProviderHealthStatus.healthy

  -- the rates of `_compute_health`, with its values for an empty window
  abbrev pub success_rate_of : List OriginateSample → F
  success_rate_of [] = fl.of_ℕ 1
  success_rate_of (x ∷ xs) =
      fl.div (fl.of_ℕ (count_if (λ s. s.success) (x ∷ xs))) (fl.of_ℕ (length (x ∷ xs)))

  abbrev pub failure_rate_of : List OriginateSample → F
  failure_rate_of [] = fl.of_ℕ 0
  failure_rate_of (x ∷ xs) = fl.sub (fl.of_ℕ 1) (success_rate_of (x ∷ xs))

  abbrev pub timeout_rate_of : List OriginateSample → F
  timeout_rate_of [] = fl.of_ℕ 0
  timeout_rate_of (x ∷ xs) =
      fl.div (fl.of_ℕ (count_if (λ s. s.timed_out) (x ∷ xs))) (fl.of_ℕ (length (x ∷ xs)))

  -- `_compute_health`, on the trimmed window
  unfoldable pub health_of : Settings F → ℕ → ℕ → ℕ → List OriginateSample → ProviderHealth F
  unfolding derive_status percentile count_trailing_failures
  health_of s provider_name events_received computed_at samples =
      let low_confidence = ltb (length samples) s.health_min_samples in
      let latencies = map (λ (x : OriginateSample). x.latency_ms) samples in
      let p95 = percentile latencies (fl.div (fl.of_ℕ 95) (fl.of_ℕ 100)) in
      record {
        provider_name = provider_name;
        status =
            derive_status s (failure_rate_of samples) (timeout_rate_of samples)
              (count_trailing_failures samples) p95 low_confidence;
        request_count = length samples;
        success_rate = success_rate_of samples;
        failure_rate = failure_rate_of samples;
        timeout_rate = timeout_rate_of samples;
        p50_latency_ms = percentile latencies (fl.div (fl.of_ℕ 1) (fl.of_ℕ 2));
        p95_latency_ms = p95;
        consecutive_failures = count_trailing_failures samples;
        events_received = events_received;
        low_confidence = low_confidence;
        computed_at = computed_at;
      }

module _ {F : Type 0} (e : Env F) where
  -- `setdefault`, `append`, `_trim`
  unfoldable pub record_originate : ℕ → Bool → ℕ → Bool → Action (Unit {0})
  unfolding drop_older
  record_originate provider_name success latency_ms timed_out = do
    t ← monotonic_now e
    samples ← gets (λ w. w.samples)
    let sample : OriginateSample = record {
      recorded_at = t;
      success = success;
      timed_out = timed_out;
      latency_ms = latency_ms;
    }
    set_samples (
        put provider_name
          (drop_older (t - e.settings.health_window_ms)
            (lookup_or provider_name [] samples ++ sample ∷ []))
          samples)

  unfoldable pub record_event_received : ℕ → Action (Unit {0})
  record_event_received provider_name = do
    counts ← gets (λ w. w.events_received)
    set_events_received (put provider_name (lookup_or provider_name 0 counts + 1) counts)

  unfoldable pub get_health : ℕ → Action (ProviderHealth F)
  unfolding health_of drop_older
  get_health provider_name = do
    t ← monotonic_now e
    samples ← gets (λ w. w.samples)
    counts ← gets (λ w. w.events_received)
    let window = drop_older (t - e.settings.health_window_ms) (lookup_or provider_name [] samples)
    set_samples (put provider_name window samples)
    computed_at ← now e
    pure (
        health_of e.floats e.settings provider_name (lookup_or provider_name 0 counts) computed_at
          window)

  -- HEALTH_FACTORS; 0.5 is exactly 1 / 2
  abbrev pub health_factors : ProviderHealthStatus → F
  health_factors ProviderHealthStatus.healthy = e.floats.of_ℕ 1
  health_factors ProviderHealthStatus.degraded = e.floats.div (e.floats.of_ℕ 1) (e.floats.of_ℕ 2)
  health_factors ProviderHealthStatus.unhealthy = e.floats.of_ℕ 0

  unfoldable pub health_factor : ℕ → Action F
  health_factor provider_name = do
    health ← get_health provider_name
    pure (health_factors health.status)

  abbrev is_unhealthy : ProviderHealthStatus → Bool
  is_unhealthy ProviderHealthStatus.unhealthy = true
  is_unhealthy _ = false

  unfoldable pub should_allow_retry : ℕ → Action Bool
  should_allow_retry provider_name = do
    health ← get_health provider_name
    pure (not (is_unhealthy health.status))
