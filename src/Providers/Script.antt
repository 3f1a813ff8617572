-- ===== src/Providers/Script.antt =====
-- `_build_event_script` of app/providers/mock_base.py. What the provider's random generator answers
-- is a parameter, and so is the time. The delays before the events are floats, in seconds.
use smart_dialer.Base.{
  ℕ, zero, suc, ◌-◌, Bool, true, false, String, Option, none, some, List, [], ◌∷◌, length,
  if◌then◌else◌,
}
use smart_dialer.Pacing.AnswerRate.{max_float, min_float}
use smart_dialer.Repositories.Events.{ProviderEvent}
use smart_dialer.Settings.{Floats}
use smart_dialer.World.{ProviderCallStatus}

-- of the range of latencies only what is drawn from it matters
pub record MockBehaviour (F : Type 0) : Type 0 where
  pub failure_rate : F
  pub hang_rate : F
  pub answer_rate : F
  pub avg_talk_time : F
  pub ring_duration : F
  pub duplicate_rate : F
  pub out_of_order_rate : F

-- the random generator: `random()` at each of the three places, `gauss`, and `randrange`
pub record Draws (F : Type 0) : Type 0 where
  pub answer_draw : F
  pub order_draw : F
  pub duplicate_draw : F
  pub gauss : (mean deviation : F) → F
  pub order_index : ℕ → ℕ
  pub duplicate_index : ℕ → ℕ

-- one entry of `steps`: the delay, the type and the reason
pub record ScriptStep (F : Type 0) : Type 0 where
  pub delay : F
  pub event_type : String
  pub reason : Option String

-- `scheduled[i], scheduled[i + 1] = scheduled[i + 1], scheduled[i]`
abbrev pub swap_at {ℓ} : {A : Type ℓ} → ℕ → List A → List A
swap_at i [] = []
swap_at i (x ∷ []) = x ∷ []
swap_at zero (x ∷ y ∷ xs) = y ∷ x ∷ xs
swap_at (suc i) (x ∷ y ∷ xs) = x ∷ swap_at i (y ∷ xs)

-- `scheduled.insert(i + 1, again(scheduled[i]))`
abbrev pub repeat_at {ℓ} : {A : Type ℓ} → (again : A → A) → ℕ → List A → List A
repeat_at again i [] = []
repeat_at again zero (x ∷ xs) = x ∷ again x ∷ xs
repeat_at again (suc i) (x ∷ xs) = x ∷ repeat_at again i xs

-- the provider's name, the call, the name of the event at an index, and the time
pub record Naming : Type 0 where
  pub provider_name : ℕ
  pub provider_call_id : ℕ
  pub event_id : ℕ → ℕ
  pub timestamp : ℕ → ℕ

module _ {F : Type 0} (floats : Floats F) where
  -- the literals 0.2 and 0.001
  abbrev pub fifth : F
  fifth = floats.div (floats.of_ℕ 1) (floats.of_ℕ 5)

  abbrev pub thousandth : F
  thousandth = floats.div (floats.of_ℕ 1) (floats.of_ℕ 1000)

  abbrev step : F → String → Option String → ScriptStep F
  step delay event_type reason = record { delay = delay; event_type = event_type; reason = reason }

  abbrev pub talk_time : MockBehaviour F → Draws F → F
  talk_time behaviour draws =
      max_float floats (floats.of_ℕ 0)
        (draws.gauss behaviour.avg_talk_time (floats.mul behaviour.avg_talk_time fifth))

  -- the steps, and the status that the call ends in, for each answer of the first draw
  abbrev pub script_steps : (answered : Bool) → MockBehaviour F → Draws F → List (ScriptStep F)
  script_steps true behaviour draws =
      step behaviour.ring_duration "RINGING" none
      ∷ step behaviour.ring_duration "ANSWERED" none
      ∷ step (floats.of_ℕ 0) "CONNECTED" none
      ∷ step (talk_time behaviour draws) "COMPLETED" none
      ∷ []
  script_steps false behaviour draws =
      step behaviour.ring_duration "RINGING" none
      ∷ step behaviour.ring_duration "FAILED" (some "no_answer")
      ∷ []

  abbrev pub final_status : (answered : Bool) → ProviderCallStatus
  final_status true = ProviderCallStatus.completed
  final_status false = ProviderCallStatus.failed

  -- the list `scheduled`, from an index on
  abbrev pub schedule : Naming → ℕ → List (ScriptStep F) → List (F × ProviderEvent)
  schedule naming index [] = []
  schedule naming index (s ∷ steps) =
      (
        s.delay,
        record {
          provider_name = naming.provider_name;
          provider_event_id = naming.event_id index;
          provider_call_id = naming.provider_call_id;
          event_type = s.event_type;
          provider_timestamp = naming.timestamp index;
          reason = s.reason;
        },
      )
      ∷ schedule naming (suc index) steps

  -- `_apply_out_of_order`; the list has two entries at least when it is called
  unfoldable pub apply_out_of_order :
      MockBehaviour F → Draws F → List (F × ProviderEvent) → List (F × ProviderEvent)
  apply_out_of_order behaviour draws scheduled =
      if floats.lt draws.order_draw behaviour.out_of_order_rate
      then swap_at (draws.order_index (length scheduled - 1)) scheduled
      else scheduled

  abbrev sooner : F × ProviderEvent → F × ProviderEvent
  sooner entry = (min_float floats entry.0 thousandth, entry.1)

  unfoldable pub apply_duplication :
      MockBehaviour F → Draws F → List (F × ProviderEvent) → List (F × ProviderEvent)
  apply_duplication behaviour draws scheduled =
      if floats.lt draws.duplicate_draw behaviour.duplicate_rate
      then repeat_at sooner (draws.duplicate_index (length scheduled)) scheduled
      else scheduled

  abbrev pub is_answered : MockBehaviour F → Draws F → Bool
  is_answered behaviour draws = floats.lt draws.answer_draw behaviour.answer_rate

  unfoldable pub build_event_script :
      MockBehaviour F → Draws F → Naming → List (F × ProviderEvent) × ProviderCallStatus
  unfolding apply_out_of_order apply_duplication
  build_event_script behaviour draws naming =
      let answered = is_answered behaviour draws in
      let scheduled = schedule naming 0 (script_steps answered behaviour draws) in
      (
        apply_duplication behaviour draws (apply_out_of_order behaviour draws scheduled),
        final_status answered,
      )
