-- ===== src/Errors.antt =====
-- What a coroutine may raise, and its outcome: app/state_machines/errors.py,
-- app/providers/errors.py, the two kinds of pymongo errors, and asyncio's cancellation.

use smart_dialer.Base.{String}

pub data Error : Type 0 where
  invalid_state_transition unauthorized_transition_actor : Error
  provider_timeout provider_unavailable : Error
  provider_rejected : String → Error
  duplicate_key_error mongo_error : Error
  cancelled : Error

pub data Outcome {ℓ} (A : Type ℓ) : Type ℓ where
  ok : A → Outcome A
  raised : Error → Outcome A
