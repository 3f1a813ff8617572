-- ===== src/Store/Laws.antt =====
-- What MongoDB documents of its answers: the update of one document is atomic, unique indexes are
-- enforced, a query returns documents that are there and match.
use smart_dialer.Base.{
  ℕ, ◌≡◌, Bool, true, false, List, ◌∷◌, ◌++◌, Option, none, some, All, count_if, ◌&&◌,
}
use mathlib.Core.Path.{subst, sym}
use smart_dialer.Store.Service.{Reply, Sort, Collection}

-- `doc` is one of `docs`.
pub record Stored {Doc : Type 0} (docs : List Doc) (doc : Doc) : Type 0 where
  pub left : List Doc
  pub right : List Doc
  pub split : docs ≡ left ++ doc ∷ right

module _ {Doc : Type 0} (clash : Doc → Doc → Bool) where
  -- The outcomes of `find_one_and_update`. No document matches; or one that matches is replaced,
  -- and no unique index is violated; or an index refuses the update. The connection may fail
  -- before the update, or after it, when the answer is lost.
  pub data Updated (f : Doc → Bool) (u : Doc → Doc) (docs : List Doc)
      (out : List Doc × Reply (Option Doc)) : Type 0 where
    missed : All (λ d. f d ≡ false) docs → out ≡ (docs, Reply.reply none) → Updated f u docs out
    hit :
        (left : List Doc) (d : Doc) (right : List Doc)
        → docs ≡ left ++ d ∷ right
        → f d ≡ true
        → All (λ x. clash (u d) x ≡ false) (left ++ right)
        → out ≡ (left ++ u d ∷ right, Reply.reply (some (u d)))
        → Updated f u docs out
    refused : out ≡ (docs, Reply.duplicate_key) → Updated f u docs out
    failed : out ≡ (docs, Reply.unavailable) → Updated f u docs out
    lost :
        (left : List Doc) (d : Doc) (right : List Doc)
        → docs ≡ left ++ d ∷ right
        → f d ≡ true
        → All (λ x. clash (u d) x ≡ false) (left ++ right)
        → out ≡ (left ++ u d ∷ right, Reply.unavailable)
        → Updated f u docs out

  -- The outcomes of `insert_one`.
  pub data Inserted (doc : Doc) (docs : List Doc) (out : List Doc × Reply (Unit {0})) : Type 0 where
    stored :
        (left right : List Doc)
        → docs ≡ left ++ right
        → All (λ x. clash doc x ≡ false) docs
        → out ≡ (left ++ doc ∷ right, Reply.reply tt)
        → Inserted doc docs out
    refused :
        (other : Doc)
        → Stored docs other
        → clash doc other ≡ true
        → out ≡ (docs, Reply.duplicate_key)
        → Inserted doc docs out
    failed : out ≡ (docs, Reply.unavailable) → Inserted doc docs out
    lost :
        (left right : List Doc)
        → docs ≡ left ++ right
        → All (λ x. clash doc x ≡ false) docs
        → out ≡ (left ++ doc ∷ right, Reply.unavailable)
        → Inserted doc docs out

  -- What holds of the documents, and of them after one update, holds after the request.
  pub Updated-documents :
      (P : List Doc → Type 0) {f : Doc → Bool} {u : Doc → Doc} {docs : List Doc}
      {out : List Doc × Reply (Option Doc)}
      → P docs
      → ((left : List Doc) (d : Doc) (right : List Doc)
          → docs ≡ left ++ d ∷ right
          → f d ≡ true
          → P (left ++ u d ∷ right))
      → Updated f u docs out
      → P out.0
  Updated-documents P same change (missed _ eq) = subst (λ o. P o.0) (sym eq) same
  Updated-documents P same change (hit left d right at fit _ eq) =
      subst (λ o. P o.0) (sym eq) (change left d right at fit)
  Updated-documents P same change (refused eq) = subst (λ o. P o.0) (sym eq) same
  Updated-documents P same change (failed eq) = subst (λ o. P o.0) (sym eq) same
  Updated-documents P same change (lost left d right at fit _ eq) =
      subst (λ o. P o.0) (sym eq) (change left d right at fit)

  pub Inserted-documents :
      (P : List Doc → Type 0) {doc : Doc} {docs : List Doc} {out : List Doc × Reply (Unit {0})}
      → P docs
      → ((left right : List Doc)
          → docs ≡ left ++ right
          → All (λ x. clash doc x ≡ false) (left ++ right)
          → P (left ++ doc ∷ right))
      → Inserted doc docs out
      → P out.0
  Inserted-documents P {doc} same change (stored left right at free eq) =
      subst (λ o. P o.0) (sym eq)
        (change left right at (subst (All (λ x. clash doc x ≡ false)) at free))
  Inserted-documents P same change (refused other _ _ eq) = subst (λ o. P o.0) (sym eq) same
  Inserted-documents P same change (failed eq) = subst (λ o. P o.0) (sym eq) same
  Inserted-documents P {doc} same change (lost left right at free eq) =
      subst (λ o. P o.0) (sym eq)
        (change left right at (subst (All (λ x. clash doc x ≡ false)) at free))

  pub record IsCollection (c : Collection Doc) : Type 0 where
    pub update_law :
        (n : ℕ) (f : Doc → Bool) (u : Doc → Doc) (docs : List Doc)
        → Updated f u docs (c.find_one_and_update n f u docs)
    pub insert_law :
        (n : ℕ) (doc : Doc) (docs : List Doc) → Inserted doc docs (c.insert_one n doc docs)
    -- `find_one` finds a document exactly if one matches
    pub find_one_some :
        (n : ℕ) (f : Doc → Bool) (docs : List Doc) (d : Doc)
        → c.find_one n f docs ≡ Reply.reply (some d)
        → Stored docs d × (f d ≡ true)
    pub find_one_none :
        (n : ℕ) (f : Doc → Bool) (docs : List Doc)
        → c.find_one n f docs ≡ Reply.reply none
        → All (λ d. f d ≡ false) docs
    pub find_found :
        (n : ℕ) (f : Doc → Bool) (key : Sort Doc) (limit : ℕ) (docs found : List Doc)
        → c.find n f key limit docs ≡ Reply.reply found
        → All (λ d. Stored docs d × (f d ≡ true)) found
    -- `$match` passes on the documents that match, each once, in an order of its own
    pub aggregate_found :
        (n : ℕ) (f : Doc → Bool) (docs found : List Doc)
        → c.aggregate n f docs ≡ Reply.reply found
        → (p : Doc → Bool) → count_if p found ≡ count_if (λ d. f d && p d) docs
