-- ===== src/Lifecycle/History/Ends.antt =====
-- The identifiers of the calls stay distinct, and a request that ends a call ends it.
use smart_dialer.Lifecycle.Steps.{RetryPolicy}
use smart_dialer.Base.{
  ℕ, ◌≡◌, refl, sym, ◌∙◌, Bool, true, false, not, ◌&&◌, &&_left, Bool-cases, inl, inr, ==_refl,
  ==→≡, ltb, Option, none, some, String, List, here, next, IsDistinct, replace-IsDistinct,
  insert-IsDistinct, get, get-All, get-key, get-replaced, ◌==◌, arith,
}
use mathlib.Core.Path.{subst}
use smart_dialer.Errors.{Outcome}
use smart_dialer.Model.{Call, call_clash, derive_state_rank_and_terminal}
use smart_dialer.Model.Enums.{CallState}
use smart_dialer.StateMachines.Call.{rank, is_terminal}
use smart_dialer.Store.{Updated, Reply}
use smart_dialer.Repositories.Calls.{transition_call, transitioned_call, from_mongo}
use smart_dialer.World.{
  Database, World, Env, arrive, answered, continue_with, pure, now, write_calls, ◌>>=◌,
}
use smart_dialer.Lifecycle.Steps.{IsConsistent}
use smart_dialer.Lifecycle.Database.{
  agent, borrower, call, new_call, event, new_event, campaign, new_campaign, Reach,
}
use smart_dialer.Lifecycle.History.Calls.{find_call, call_moves_forward}
use smart_dialer.Lifecycle.Moves.{IsEnv}

abbrev call_id_of : Call → ℕ
call_id_of c = c.id

-- Whatever the workers do, no two calls have the same id, if none had before.
pub calls-IsDistinct :
    {k : RetryPolicy} {s t : Database}
    → Reach k s t
    → IsDistinct (λ (c : Call). c.id) s.calls
    → IsDistinct (λ (c : Call). c.id) t.calls
calls-IsDistinct here h = h
calls-IsDistinct (next r (agent left d d' right at x)) h = calls-IsDistinct r h
calls-IsDistinct (next r (borrower left d d' right at x)) h = calls-IsDistinct r h
calls-IsDistinct (next r (call left d d' right at x)) h =
    replace-IsDistinct _ left d d' right x.same_id (rw at at (calls-IsDistinct r h))
calls-IsDistinct (next r (new_call left d right at free _ _)) h =
    insert-IsDistinct _ left d right free (rw at at (calls-IsDistinct r h))
calls-IsDistinct (next r (event left d d' right at x)) h = calls-IsDistinct r h
calls-IsDistinct (next r (new_event left d right at free)) h = calls-IsDistinct r h
calls-IsDistinct (next r (campaign left d d' right at x)) h = calls-IsDistinct r h
calls-IsDistinct (next r (new_campaign left d right at free)) h = calls-IsDistinct r h

-- The call is stored, and it is over.
abbrev pub IsOver : ℕ → List Call → Type 0
IsOver id calls =
    (c : Call) × (get (λ (x : Call). x.id) id calls ≡ some c) × (is_terminal c.state ≡ true)

-- the filter of `transition_call`
abbrev is_open_call : ℕ → CallState → Call → Bool
is_open_call id target d = d.id == id && not d.terminal && ltb d.state_rank (rank target)

below_the_end :
    (s target : CallState)
    → is_terminal target ≡ true
    → is_terminal s ≡ false
    → ltb (rank s) (rank target) ≡ true
below_the_end s target over live = ground arith

missed-over :
    (id : ℕ) (target : CallState) (c : Call)
    → c.id ≡ id
    → IsConsistent c
    → is_terminal target ≡ true
    → is_open_call id target c ≡ false
    → is_terminal c.state ≡ true
missed-over id target c same consistent over closed = elim (Bool-cases (is_terminal c.state)) [
  | inl ended ↦ ended
  | inr live ↦
      let found : (c.id == id) ≡ true = rw same (==_refl id) in
      let unended : c.terminal ≡ false = consistent.1 ∙ live in
      let below : ltb c.state_rank (rank target) ≡ true =
        rw (consistent.0) (below_the_end c.state target over live) in
      ground (arith, found, unended, below, closed)
]

transitioned_over :
    (target : CallState) (reason : Option String) (t : ℕ) (d : Call)
    → ((transitioned_call target reason t d).id ≡ d.id)
      × ((transitioned_call target reason t d).state ≡ target)
unfolding transitioned_call
transitioned_over target reason t d = ground arith

module _ (id : ℕ) (target : CallState) (reason : Option String) (t : ℕ) (c : Call)
    (docs : List Call) (out : List Call × Reply (Option Call)) where
  -- An update that was answered ends the call, or it was over.
  update-IsOver :
      IsDistinct (λ (x : Call). x.id) docs
      → get (λ (x : Call). x.id) id docs ≡ some c
      → IsConsistent c
      → is_terminal target ≡ true
      → (o : Option Call) → out.1 ≡ Reply.reply o
      → Updated call_clash (is_open_call id target) (transitioned_call target reason t) docs out
      → IsOver id out.0
  update-IsOver distinct stored consistent over o reply (Updated.missed closed eq) =
      let at_c : is_open_call id target c ≡ false =
        get-All _ (λ (x : Call). is_open_call id target x ≡ false) id c docs closed stored in
      let ended = missed-over id target c (get-key _ id c docs stored) consistent over at_c in
      subst (λ x. IsOver id x.0) (sym eq) (c, stored, ended)
  update-IsOver distinct stored consistent over o reply (Updated.hit left d right at fit free eq) =
      let u = transitioned_over target reason t d in
      let d_id : d.id ≡ id = ==→≡ d.id id (&&_left _ _ (&&_left _ _ fit)) in
      let found =
        get-replaced (λ (x : Call). x.id) id left d (transitioned_call target reason t d) right u.0
          d_id (rw at at distinct) in
      subst (λ x. IsOver id x.0) (sym eq)
        (transitioned_call target reason t d, found, rw (u.1) over)
  update-IsOver distinct stored consistent over o reply (Updated.refused eq) =
      let answer : Reply.duplicate_key ≡ Reply.reply o = rw eq at reply in ground (arith, answer)
  update-IsOver distinct stored consistent over o reply (Updated.failed eq) =
      let answer : Reply.unavailable ≡ Reply.reply o = rw eq at reply in ground (arith, answer)
  update-IsOver distinct stored consistent over o reply (Updated.lost left d right at fit free eq) =
      let answer : Reply.unavailable ≡ Reply.reply o = rw eq at reply in ground (arith, answer)

-- A request that returned was answered.
was_answered :
    (r : Reply (Option Call)) (w : World) (found : Option Call)
    → (continue_with
        (answered r)
        (λ document.
          pure (elim document [ none ↦ none | some d ↦ some (derive_state_rank_and_terminal d) ]))
        w).0
      ≡ Outcome.ok found
    → (o : Option Call) × (r ≡ Reply.reply o)
was_answered (Reply.reply o) w found h = (o, refl)
was_answered Reply.duplicate_key w found h = ground (arith, h)
was_answered Reply.unavailable w found h = ground (arith, h)

module _ {F : Type 0} (e : Env F) (law : IsEnv e) where
  -- In an environment as `IsEnv` assumes, where no two calls have the same id: when the request
  -- to bring a stored call, with derived fields that agree with its state, to a final state
  -- returns, the call is over.
  pub transition_call-IsOver :
      (w : World) (id : ℕ) (target : CallState) (reason : Option String) (c : Call)
      (found : Option Call)
      → IsDistinct (λ (x : Call). x.id) w.db.calls
      → find_call id w.db ≡ some c
      → IsConsistent c
      → is_terminal target ≡ true
      → (transition_call e id target reason w).0 ≡ Outcome.ok found
      → IsOver id (transition_call e id target reason w).1.db.calls
  unfolding transition_call from_mongo now write_calls ◌>>=◌ pure
  transition_call-IsOver w id target reason c found distinct stored consistent over returned =
      let reached = law.others_law w.moment w.db in
      let later = call_moves_forward id reached stored consistent in
      let t = e.clock w.moment in
      let docs = (arrive e w).calls in
      let out =
        e.calls_db.find_one_and_update w.moment (is_open_call id target)
          (transitioned_call target reason t) docs in
      let (o, reply) = was_answered out.1 _ found returned in
      let ended : IsOver id out.0 =
        update-IsOver id target reason t later.0 docs out (calls-IsDistinct reached distinct)
          later.1 later.3 over o reply
          (law.calls_law.update_law w.moment (is_open_call id target)
            (transitioned_call target reason t) docs) in
      rw reply ended
