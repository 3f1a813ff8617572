-- ===== src/Pacing/AnswerRate.antt =====
-- app/pacing/answer_rate.py. Python's `max` and `min` of floats return the first argument unless
-- the second one is strictly better, which tells NaN apart.
use smart_dialer.Base.{ℕ, zero, suc, Bool, false, Option, none, some, if◌then◌else◌}
use smart_dialer.Settings.{Floats}

module _ {F : Type 0} (floats : Floats F) where
  abbrev pub max_float : F → F → F
  max_float a b = if floats.lt a b then b else a

  abbrev pub min_float : F → F → F
  min_float a b = if floats.lt b a then b else a

  unfoldable pub clamp : (value minimum maximum : F) → F
  clamp value minimum maximum = max_float minimum (min_float maximum value)

  unfoldable pub observed_answer_rate : (answered total : ℕ) → Option F
  observed_answer_rate answered zero = none
  observed_answer_rate answered (suc n) =
      some (floats.div (floats.of_ℕ answered) (floats.of_ℕ (suc n)))

  -- the literals 0.7 and 0.3
  abbrev pub recent_weight : F
  recent_weight = floats.div (floats.of_ℕ 7) (floats.of_ℕ 10)

  abbrev pub baseline_weight : F
  baseline_weight = floats.div (floats.of_ℕ 3) (floats.of_ℕ 10)

  abbrev pub blended : Option F → F → F
  blended none baseline_answer_rate = baseline_answer_rate
  blended (some recent_answer_rate) baseline_answer_rate =
      floats.add (floats.mul recent_weight recent_answer_rate)
        (floats.mul baseline_weight baseline_answer_rate)

  unfoldable pub blended_answer_rate : Option F → (baseline minimum maximum : F) → F
  unfolding clamp
  blended_answer_rate recent_answer_rate baseline_answer_rate min_answer_rate max_answer_rate =
      clamp (blended recent_answer_rate baseline_answer_rate) min_answer_rate max_answer_rate

  -- `abs(a - b)`, by the greater of the two
  abbrev pub distance : F → F → F
  distance a b = if floats.lt a b then floats.sub b a else floats.sub a b

  unfoldable pub is_volatile : (recent previous : Option F) → (threshold : F) → Bool
  is_volatile (some recent) (some previous) threshold =
      floats.lt threshold (distance recent previous)
  is_volatile _ _ threshold = false
