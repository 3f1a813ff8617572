-- ===== src/Examples/Memory.antt =====
-- A collection in memory, which keeps the promises of the database service.
use smart_dialer.Base.{
  ℕ, zero, suc, ◌≡◌, refl, ap, Bool, true, false, List, [], ◌∷◌, ◌++◌, Option, none, some, All,
  All-map, count_if, ◌&&◌, if◌then◌else◌, Bool-cases, inl, inr, arith,
}
use smart_dialer.Store.{Reply, Collection, Stored, Updated, Inserted, IsCollection}

-- a document of a list, between those before and behind it
pub data Place (Doc : Type 0) : Type 0 where
  place : List Doc → Doc → List Doc → Place Doc

module _ {Doc : Type 0} where
  abbrev shift : Doc → Option (Place Doc) → Option (Place Doc)
  shift x none = none
  shift x (some (place left d right)) = some (place (x ∷ left) d right)

  -- the first document that matches, with those before and behind it
  unfoldable pub locate : (Doc → Bool) → List Doc → Option (Place Doc)
  locate f [] = none
  locate f (x ∷ docs) =
      let later = locate f docs in if f x then some (place [] x docs) else shift x later

  data Located (f : Doc → Bool) (docs : List Doc) : Option (Place Doc) → Type 0 where
    nowhere : All (λ d. f d ≡ false) docs → Located f docs none
    found :
        (left : List Doc) (d : Doc) (right : List Doc)
        → docs ≡ left ++ d ∷ right
        → f d ≡ true
        → Located f docs (some (place left d right))

  Located-shift :
      (f : Doc → Bool) (x : Doc) (docs : List Doc) (o : Option (Place Doc))
      → f x ≡ false
      → Located f docs o
      → Located f (x ∷ docs) (shift x o)
  Located-shift f x docs none misses (nowhere all) = nowhere (misses, all)
  Located-shift f x docs (some _) misses (found left d right at fit) =
      found (x ∷ left) d right (ap (λ xs. x ∷ xs) at) fit

  locate-Located : (f : Doc → Bool) (docs : List Doc) → Located f docs (locate f docs)
  unfolding locate
  locate-Located f [] = nowhere tt
  locate-Located f (x ∷ docs) = elim (Bool-cases (f x)) [
    | inl fits ↦ rw fits (found [] x docs refl fits)
    | inr misses ↦ rw misses (Located-shift f x docs (locate f docs) misses (locate-Located f docs))
  ]

  unfoldable pub answer_at : Option (Place Doc) → Option Doc
  answer_at none = none
  answer_at (some (place left d right)) = some d

  abbrev limited : (Doc → Bool) → ℕ → List Doc → List Doc
  limited f n [] = []
  limited f zero (x ∷ docs) = []
  limited f (suc n) (x ∷ docs) =
      let rest = limited f n docs in
      let all = limited f (suc n) docs in if f x then x ∷ rest else all

  abbrev selected : (Doc → Bool) → List Doc → List Doc
  selected f [] = []
  selected f (x ∷ docs) = let rest = selected f docs in if f x then x ∷ rest else rest

  abbrev count_matching : (Doc → Bool) → List Doc → ℕ
  count_matching f [] = 0
  count_matching f (x ∷ docs) = let rest = count_matching f docs in if f x then suc rest else rest

  Stored-behind : (x : Doc) (docs : List Doc) (d : Doc) → Stored docs d → Stored (x ∷ docs) d
  Stored-behind x docs d s = record {
    left = x ∷ s.left;
    right = s.right;
    split = ap (λ xs. x ∷ xs) s.split;
  }

  -- at most n documents that match, and all of them for 0
  abbrev found_by : (Doc → Bool) → ℕ → List Doc → List Doc
  found_by f zero docs = selected f docs
  found_by f (suc n) docs = limited f (suc n) docs

  behind :
      (f : Doc → Bool) (x : Doc) (docs answer : List Doc)
      → All (λ d. Stored docs d × (f d ≡ true)) answer
      → All (λ d. Stored (x ∷ docs) d × (f d ≡ true)) answer
  behind f x docs answer h = All-map _ _ (λ d s. (Stored-behind x docs d s.0, s.1)) answer h

  limited_found :
      (f : Doc → Bool) (n : ℕ) (docs : List Doc)
      → All (λ d. Stored docs d × (f d ≡ true)) (limited f n docs)
  limited_found f n [] = tt
  limited_found f zero (x ∷ docs) = tt
  limited_found f (suc n) (x ∷ docs) = elim (Bool-cases (f x)) [
    | inl fits ↦ rw fits (
      (record { left = []; right = docs; split = refl }, fits),
      behind f x docs _ (limited_found f n docs),
    )
    | inr misses ↦ rw misses (behind f x docs _ (limited_found f (suc n) docs))
  ]

  selected_found :
      (f : Doc → Bool) (docs : List Doc) → All (λ d. Stored docs d × (f d ≡ true)) (selected f docs)
  selected_found f [] = tt
  selected_found f (x ∷ docs) = elim (Bool-cases (f x)) [
    | inl fits ↦ rw fits (
      (record { left = []; right = docs; split = refl }, fits),
      behind f x docs _ (selected_found f docs),
    )
    | inr misses ↦ rw misses (behind f x docs _ (selected_found f docs))
  ]

  found_by_found :
      (f : Doc → Bool) (n : ℕ) (docs : List Doc)
      → All (λ d. Stored docs d × (f d ≡ true)) (found_by f n docs)
  found_by_found f zero docs = selected_found f docs
  found_by_found f (suc n) docs = limited_found f (suc n) docs

  selected_counts :
      (f p : Doc → Bool) (docs : List Doc)
      → count_if p (selected f docs) ≡ count_if (λ d. f d && p d) docs
  selected_counts f p [] = refl
  selected_counts f p (x ∷ docs) = ground (arith, selected_counts f p docs)

  module _ (clash : Doc → Doc → Bool) where
    -- what an update does with the place it found, and with a document its result clashes with
    abbrev replaced :
        (Doc → Doc)
        → List Doc
        → List Doc
        → Doc
        → List Doc
        → Option (Place Doc)
        → List Doc × Reply (Option Doc)
    replaced u docs left d right none = (left ++ u d ∷ right, Reply.reply (some (u d)))
    replaced u docs left d right (some other) = (docs, Reply.duplicate_key)

    abbrev updated : (Doc → Doc) → List Doc → Option (Place Doc) → List Doc × Reply (Option Doc)
    updated u docs none = (docs, Reply.reply none)
    updated u docs (some (place left d right)) =
        replaced u docs left d right (locate (clash (u d)) (left ++ right))

    abbrev inserted : Doc → List Doc → Option (Place Doc) → List Doc × Reply (Unit {0})
    inserted doc docs none = (doc ∷ docs, Reply.reply tt)
    inserted doc docs (some other) = (docs, Reply.duplicate_key)

    abbrev pub memory : Collection Doc
    memory = record {
      find_one_and_update = λ n f u docs. updated u docs (locate f docs);
      insert_one = λ n doc docs. inserted doc docs (locate (clash doc) docs);
      find_one = λ n f docs. Reply.reply (answer_at (locate f docs));
      find = λ n f key limit docs. Reply.reply (found_by f limit docs);
      count_documents = λ n f docs. Reply.reply (count_matching f docs);
      aggregate = λ n f docs. Reply.reply (selected f docs);
    }

    replaced-Updated :
        (f : Doc → Bool) (u : Doc → Doc) (docs left : List Doc) (d : Doc) (right : List Doc)
        (o : Option (Place Doc))
        → docs ≡ left ++ d ∷ right
        → f d ≡ true
        → Located (clash (u d)) (left ++ right) o
        → Updated clash f u docs (replaced u docs left d right o)
    replaced-Updated f u docs left d right none at fit (nowhere free) =
        Updated.hit left d right at fit free refl
    replaced-Updated f u docs left d right (some _) at fit (found _ _ _ _ _) = Updated.refused refl

    updated-Updated :
        (f : Doc → Bool) (u : Doc → Doc) (docs : List Doc) (o : Option (Place Doc))
        → Located f docs o
        → Updated clash f u docs (updated u docs o)
    updated-Updated f u docs none (nowhere all) = Updated.missed all refl
    updated-Updated f u docs (some _) (found left d right at fit) =
        replaced-Updated f u docs left d right _ at fit (locate-Located _ _)

    inserted-Inserted :
        (doc : Doc) (docs : List Doc) (o : Option (Place Doc))
        → Located (clash doc) docs o
        → Inserted clash doc docs (inserted doc docs o)
    inserted-Inserted doc docs none (nowhere free) = Inserted.stored [] docs refl free refl
    inserted-Inserted doc docs (some _) (found left d right at fit) =
        Inserted.refused d (record { left = left; right = right; split = at }) fit refl

    answer_some :
        (f : Doc → Bool) (docs : List Doc) (o : Option (Place Doc)) (d : Doc)
        → Located f docs o
        → Reply.reply (answer_at o) ≡ Reply.reply (some d)
        → Stored docs d × (f d ≡ true)
    unfolding answer_at
    answer_some f docs none d (nowhere all) h = ground arith
    answer_some f docs (some _) d (found left x right at fit) h =
        let same : x ≡ d = ground (arith, h) in
        (record { left = left; right = right; split = rw (← same) at }, rw (← same) fit)

    answer_none :
        (f : Doc → Bool) (docs : List Doc) (o : Option (Place Doc))
        → Located f docs o
        → Reply.reply (answer_at o) ≡ Reply.reply none
        → All (λ d. f d ≡ false) docs
    unfolding answer_at
    answer_none f docs none (nowhere all) h = all
    answer_none f docs (some _) (found left x right at fit) h = ground arith

    pub memory-IsCollection : IsCollection clash memory
    memory-IsCollection = record {
      update_law = λ n f u docs. updated-Updated f u docs _ (locate-Located f docs);
      insert_law = λ n doc docs. inserted-Inserted doc docs _ (locate-Located _ docs);
      find_one_some = λ n f docs d h. answer_some f docs _ d (locate-Located f docs) h;
      find_one_none = λ n f docs h. answer_none f docs _ (locate-Located f docs) h;
      find_found = λ n f key limit docs found h.
          let same : found_by f limit docs ≡ found = ground (arith, h) in
          rw (← same) (found_by_found f limit docs);
      aggregate_found = λ n f docs found h p.
          let same : selected f docs ≡ found = ground (arith, h) in
          rw (← same) (selected_counts f p docs);
    }
