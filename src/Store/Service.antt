-- ===== src/Store/Service.antt =====
-- The contents of a collection are a list of documents; what the service does with a request is a
-- parameter. The first argument of an operation is the moment of the call, so that equal requests
-- may be answered differently.
use smart_dialer.Base.{ℕ, Bool, List, Option}

-- `duplicate_key` is pymongo's DuplicateKeyError, `unavailable` any other PyMongoError.
pub data Reply {ℓ} (A : Type ℓ) : Type ℓ where
  reply : A → Reply A
  duplicate_key : Reply A
  unavailable : Reply A

-- the order of a query's answer
pub data Sort (Doc : Type 0) : Type 0 where
  unsorted : Sort Doc
  ascending descending : (Doc → ℕ) → Sort Doc

pub record Collection (Doc : Type 0) : Type 0 where
  -- filter and update; the answer is the document after the update
  pub find_one_and_update :
      ℕ → (Doc → Bool) → (Doc → Doc) → List Doc → List Doc × Reply (Option Doc)
  pub insert_one : ℕ → Doc → List Doc → List Doc × Reply (Unit {0})
  pub find_one : ℕ → (Doc → Bool) → List Doc → Reply (Option Doc)
  -- filter, order, limit
  pub find : ℕ → (Doc → Bool) → Sort Doc → ℕ → List Doc → Reply (List Doc)
  pub count_documents : ℕ → (Doc → Bool) → List Doc → Reply ℕ
  -- `$match`: the documents that the `$group` behind it reads
  pub aggregate : ℕ → (Doc → Bool) → List Doc → Reply (List Doc)
