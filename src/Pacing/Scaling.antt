-- ===== src/Pacing/Scaling.antt =====
-- How the request of a tick follows from the agents that are free, with floats that are doubles.
use smart_dialer.Base.{
  ℕ, ◌+◌, ◌-◌, ◌*◌, ◌^◌, ◌≤◌, ◌<◌, ◌≡◌, refl, true, false, min, Bool, Bool-cases, inl, inr, Option,
  none, some, ap, ◌∙◌, arith, if◌then◌else◌, leb,
}
use smart_dialer.Dialers.Modes.{progressive_dialer, engine_config}
use smart_dialer.Pacing.AnswerRate.{max_float}
use smart_dialer.Pacing.Engine.{
  PacingEngineConfig, ◌>>=◌, divide, floor_of, raw_request, scaled, compute, requested_or_zero,
  in_flight, free_capacity, compute_request,
}
use smart_dialer.Pacing.Snapshot.{PacingSnapshot}
use smart_dialer.Settings.{Floats}
use smart_dialer.Settings.Doubles.{Within, IsDouble}
use smart_dialer.World.{Env}
use native.Mathlib.Nat.{mul-le-mul_right}
use mathlib.Core.Path.{subst, sym}

leb_le : (m n : ℕ) → leb m n ≡ true → m ≤ n
leb_le m n h = ground arith

leb_gt : (m n : ℕ) → leb m n ≡ false → n < m
leb_gt m n h = ground arith

module _ {F : Type 0} (floats : Floats F) (double : IsDouble floats) where
  -- the number that is floored is at most n, so the request is
  abbrev Below : ℕ → Option ℕ → Type 0
  Below n o = requested_or_zero o ≤ n

  floor_of-Below : (n : ℕ) (x : F) → n < 2 ^ 53 → Within floats n x → Below n (floor_of floats x)
  unfolding floor_of
  floor_of-Below n x small within = elim (Bool-cases (floats.is_finite x)) [
    | inl finite ↦ rw finite (double.floor_within n x small within finite)
    | inr infinite ↦ rw infinite (omega arith)
  ]

  min-Below : (n cap : ℕ) (o : Option ℕ) → Below n o → Below n (o >>= λ m. some (min m cap))
  min-Below n cap none h = omega arith
  min-Below n cap (some m) h = omega (arith, h)

  zero-Within : (n : ℕ) → n < 2 ^ 53 → Within floats n (floats.of_ℕ 0)
  zero-Within n small = record {
    not_greater = (double.exact n small).not_negative;
    not_negative = (double.exact 0 (omega arith)).not_negative;
  }

  max_float-Within :
      (n : ℕ) → n < 2 ^ 53 → Within floats n (max_float floats (floats.of_ℕ 0) (floats.of_ℕ n))
  max_float-Within n small = elim (Bool-cases (floats.lt (floats.of_ℕ 0) (floats.of_ℕ n))) [
    | inl positive ↦ rw positive (double.exact n small)
    | inr none_left ↦ rw none_left (zero-Within n small)
  ]

  module _ (snapshot : PacingSnapshot F) (config : PacingEngineConfig F) (health : ℕ)
      (health_small : health < 2 ^ 53) (margin_within : Within floats 1 config.safety_margin)
      (health_within : Within floats health snapshot.health_factor)
      (volatility_within : Within floats 1 config.volatility_factor) where
    either-Within :
        (b : Bool) → Within floats 1 (if b then config.volatility_factor else floats.of_ℕ 1)
    either-Within true = volatility_within
    either-Within false = double.exact 1 (omega arith)

    scaled-Within :
        (r : ℕ)
        → r < 2 ^ 53
        → r * health < 2 ^ 53
        → Within floats (r * 1 * health * 1) (scaled floats snapshot config r)
    scaled-Within r r_small small =
        double.mul_within (r * 1 * health) 1 _ _ (omega (arith, small)) (omega arith)
          (omega (arith, small))
          (double.mul_within (r * 1) health _ _ (omega (arith, r_small)) health_small
            (omega (arith, small))
            (double.mul_within r 1 _ _ r_small (omega arith) (omega (arith, r_small))
              (double.exact r r_small) margin_within)
            health_within)
          (either-Within _)

    -- The request is at most what is needed, scaled by at most the health.
    compute-Below :
        (raw : Option ℕ) (n : ℕ)
        → Below n raw
        → n < 2 ^ 53
        → n * health < 2 ^ 53
        → Below (n * health) (
            raw >>= λ r. floor_of floats (scaled floats snapshot config r) >>= λ m.
            some (min m config.max_request_per_tick))
    compute-Below none n h n_small small = omega arith
    compute-Below (some r) n h n_small small =
        let least : r * health ≤ n * health = mul-le-mul_right health h in
        let scaled_down : r * 1 * health * 1 ≡ r * health = omega arith in
        let floored : Below (r * health) (floor_of floats (scaled floats snapshot config r)) =
          floor_of-Below (r * health) (scaled floats snapshot config r)
            (omega (arith, least, small))
            (subst (λ m. Within floats m (scaled floats snapshot config r)) scaled_down
              (scaled-Within r (omega (arith, h, n_small)) (omega (arith, least, small)))) in
        min-Below (n * health) config.max_request_per_tick _ (omega (arith, floored, least))

  -- what is left of the free agents after the calls in flight
  left_over-Below :
      (n m : ℕ)
      → n < 2 ^ 53
      → m < 2 ^ 53
      → Below (n - m) (
          floor_of floats
            (max_float floats (floats.of_ℕ 0) (floats.sub (floats.of_ℕ n) (floats.of_ℕ m))))
  left_over-Below n m n_small m_small = elim (Bool-cases (leb m n)) [
    | inl enough ↦
        rw (double.sub_exact n m n_small (leb_le m n enough)) (
          floor_of-Below (n - m) _ (omega arith)
            (max_float-Within (n - m) (omega (arith, n_small))))
    | inr short ↦
        rw (double.sub_negative n m m_small (leb_gt m n short))
          (floor_of-Below (n - m) _ (omega arith) (zero-Within (n - m) (omega (arith, n_small))))
  ]

  module _ (snapshot : PacingSnapshot F) (config : PacingEngineConfig F)
      (margin_within : Within floats 1 config.safety_margin)
      (volatility_within : Within floats 1 config.volatility_factor) where
    -- When the health factor is 0, as it is for an unhealthy provider, no call is requested,
    -- whatever else the snapshot holds, when floats are doubles, the safety margin and the
    -- volatility factor are from 0 to 1, and the calls that are needed are fewer than 2^53.
    pub compute_request-unhealthy :
        snapshot.health_factor ≡ floats.of_ℕ 0
        → requested_or_zero (raw_request floats snapshot config) < 2 ^ 53
        → (compute_request floats snapshot config).requested ≡ 0
    unfolding compute_request compute
    compute_request-unhealthy unhealthy raw_small =
        let raw = raw_request floats snapshot config in
        let below =
          compute-Below snapshot config 0 (omega arith) margin_within
            (subst (Within floats 0) (sym unhealthy) (double.exact 0 (omega arith)))
            volatility_within raw (requested_or_zero raw) (omega arith) raw_small (omega arith) in
        omega (arith, below)

progressive_capacity :
    {F : Type 0} (e : Env F) (snapshot : PacingSnapshot F)
    → IsDouble e.floats
    → snapshot.available_agents < 2 ^ 53
    → snapshot.wrap_up_agents + snapshot.long_connected_agents < 2 ^ 53
    → free_capacity e.floats snapshot (engine_config e progressive_dialer)
      ≡ e.floats.of_ℕ snapshot.available_agents
unfolding engine_config
progressive_capacity e snapshot double available_small soon_small =
    ap (λ x. e.floats.add (e.floats.of_ℕ snapshot.available_agents) x)
      (double.mul_zero _ soon_small)
    ∙ double.add_zero _ available_small

-- A progressive dialer needs one call for each free agent.
raw_request-progressive :
    {F : Type 0} (e : Env F) (snapshot : PacingSnapshot F)
    → IsDouble e.floats
    → snapshot.available_agents < 2 ^ 53
    → snapshot.wrap_up_agents + snapshot.long_connected_agents < 2 ^ 53
    → raw_request e.floats snapshot (engine_config e progressive_dialer)
      ≡ floor_of e.floats (
          max_float e.floats (e.floats.of_ℕ 0) (
            e.floats.sub
              (e.floats.of_ℕ snapshot.available_agents)
              (e.floats.of_ℕ (in_flight e.floats snapshot))))
unfolding raw_request divide engine_config
raw_request-progressive e snapshot double available_small soon_small =
    rw
      (
        double.one_not_zero,
        progressive_capacity e snapshot double available_small soon_small,
        double.div_one _ available_small,
      )
      refl

-- A progressive dialer requests at most as many calls as there are free agents beyond the calls and
-- reservations in flight, when floats are doubles, the numbers of agents and of calls are below
-- 2^53, and the factors for health and volatility are from 0 to 1.
pub progressive-free_agents :
    {F : Type 0} (e : Env F) (snapshot : PacingSnapshot F)
    → IsDouble e.floats
    → snapshot.available_agents < 2 ^ 53
    → snapshot.wrap_up_agents + snapshot.long_connected_agents < 2 ^ 53
    → in_flight e.floats snapshot < 2 ^ 53
    → Within e.floats 1 snapshot.health_factor
    → Within e.floats 1 e.settings.volatility_factor
    → (compute_request e.floats snapshot (engine_config e progressive_dialer)).requested
      ≤ snapshot.available_agents - in_flight e.floats snapshot
unfolding compute_request compute engine_config
progressive-free_agents e snapshot double available_small soon_small in_flight_small health
      volatility =
    let n = snapshot.available_agents in
    let m = in_flight e.floats snapshot in
    let config = engine_config e progressive_dialer in
    let raw = raw_request e.floats snapshot config in
    let needed : requested_or_zero raw ≤ n - m =
      subst (λ o. requested_or_zero o ≤ n - m)
        (sym (raw_request-progressive e snapshot double available_small soon_small))
        (left_over-Below e.floats double n m available_small in_flight_small) in
    let below =
      compute-Below e.floats double snapshot config 1 (omega arith) (double.exact 1 (omega arith))
        health volatility raw (n - m) needed (omega (arith, available_small))
        (omega (arith, available_small)) in
    omega (arith, below)
