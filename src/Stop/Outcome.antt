-- ===== src/Stop/Outcome.antt =====
-- What a stop does to a thread.
use agentic_kit.Base.{
  ℕ, ◌≡◌, refl, sym, ap, ◌∙◌, subst, Bool, true, false, not, ◌&&◌, [], Option, some, String, any,
  if◌then◌else◌, Bool-cases, inl, inr, arith, lookup, ◌++◌, All,
}
use agentic_kit.Kv.{Kv, get}
use agentic_kit.Kv.Reads.{get-read, read-get}
use agentic_kit.Threads.{
  cancelled, waiting_for_input, Thread, moved, transition, is_state, is_other_run,
}
use agentic_kit.Threads.Transition.{transition-moved}
use agentic_kit.Publish.{run_id_key, active_states, move_thread}
use agentic_kit.Hitl.{from_input_required, answered_ids, load_open_hitls}
use agentic_kit.Stop.{
  close_parks, nothing_closed, StopStore, stop_change, close_record, close_open_parks, stop_found,
  stop,
}
use agentic_kit.Stop.Closing.{HasCallIds, close_parks_none}

-- No park is open, for the run that the key names.
abbrev pub NoneOpen : StopStore → ℕ → String → Type 0
NoneOpen s now id =
    load_open_hitls (get s.hitl.kv (run_id_key id) now).1 s.hitl.requested s.hitl.expired
      s.hitl.answered
    ≡ []

-- Every request, and every frame above it, names its tool call with an id that is not empty.
abbrev pub AreNamed : StopStore → Type 0
AreNamed s = All (λ e. HasCallIds (from_input_required e)) s.hitl.requested

get_twice :
    (kv : Kv) (key : String) (now : ℕ) → (get (get kv key now).0 key now).1 ≡ (get kv key now).1
get_twice kv key now =
    get-read (get kv key now).0 key now
    ∙ read-get kv key key now now (omega arith)
    ∙ sym (get-read kv key now)

close_open_parks-NoneOpen :
    (s : StopStore) (now : ℕ) (id : String)
    → s.hitl.answered ≡ answered_ids s.messages
    → AreNamed s
    → NoneOpen (close_open_parks s now id) now id
unfolding close_open_parks
close_open_parks-NoneOpen s now id h n =
    let current = (get s.hitl.kv (run_id_key id) now).1 in
    ap
      (λ c.
        load_open_hitls c s.hitl.requested s.hitl.expired (close_open_parks s now id).hitl.answered)
      (get_twice s.hitl.kv (run_id_key id) now)
    ∙ subst
        (λ a.
          load_open_hitls current s.hitl.requested s.hitl.expired (
            answered_ids (
              s.messages
              ++ (close_parks nothing_closed
                  (load_open_hitls current s.hitl.requested s.hitl.expired a)).added))
          ≡ [])
        (sym h) (close_parks_none current s.hitl.requested s.hitl.expired s.messages n)

close_open_parks-threads :
    (s : StopStore) (now : ℕ) (id : String)
    → (close_open_parks s now id).hitl.threads ≡ s.hitl.threads
unfolding close_open_parks
close_open_parks-threads s now id = refl

module _ (s : StopStore) (now : ℕ) (id : String) (t : Thread) where
  abbrev pub current : Option String
  current = (get s.hitl.kv (run_id_key id) now).1

  abbrev kv_read : Kv
  kv_read = (get s.hitl.kv (run_id_key id) now).0

  abbrev moves : Bool
  moves = (transition s.hitl.threads now id (stop_change current)).1

  abbrev moved_store : StopStore
  moved_store = record s {
    hitl = record s.hitl {
      threads = (transition s.hitl.threads now id (stop_change current)).0;
      kv = (move_thread s.hitl.threads kv_read now id (stop_change current)).1;
    };
    admin = close_record s.admin current now;
  }

  stop-refused :
      lookup id s.hitl.threads.threads ≡ some t
      → any (is_state t.state) active_states ≡ false
      → stop s now id ≡ (s, false)
  unfolding stop move_thread
  stop-refused e a = ap (stop_found s now id) e ∙ refuse
    where
      refuse : stop_found s now id (some t) ≡ (s, false)
      refuse = simp a refl

  stop-lost :
      lookup id s.hitl.threads.threads ≡ some t
      → any (is_state t.state) active_states ≡ true
      → moves ≡ false
      → stop s now id ≡ (record s { hitl = record s.hitl { kv = kv_read } }, false)
  unfolding stop move_thread
  stop-lost e a m = ap (stop_found s now id) e ∙ lose
    where
      lose :
          stop_found s now id (some t) ≡ (record s { hitl = record s.hitl { kv = kv_read } }, false)
      lose = simp (a, m) refl

  stop-won :
      lookup id s.hitl.threads.threads ≡ some t
      → any (is_state t.state) active_states ≡ true
      → moves ≡ true
      → stop s now id ≡ (
        if is_state t.state waiting_for_input
            then close_open_parks moved_store now id
            else moved_store,
        true,
      )
  unfolding stop move_thread
  stop-won e a m = ap (stop_found s now id) e ∙ win
    where
      win : stop_found s now id (some t) ≡ (
        if is_state t.state waiting_for_input
            then close_open_parks moved_store now id
            else moved_store,
        true,
      )
      win = simp (a, m) refl

-- Where the requests of a thread name their tool calls with ids that are not empty, a stop of the thread
-- is accepted exactly when the thread is queued, running or waiting
-- for input and no other run owns it. An accepted one leaves the thread cancelled and, where it waited
-- for input, no park open; a refused one changes no thread, message, request or run record.
pub stop_done :
    (s : StopStore) (now : ℕ) (id : String) (t : Thread)
    → lookup id s.hitl.threads.threads ≡ some t
    → s.hitl.answered ≡ answered_ids s.messages
    → AreNamed s
    → let (s', accepted) = stop s now id in
      (accepted ≡ (
        any (is_state t.state) active_states
        && not (is_other_run (current s now id t) (lookup id s.hitl.threads.runs))))
      × (accepted ≡ true → lookup id s'.hitl.threads.threads ≡ some (moved t cancelled now))
      × (accepted ≡ true → is_state t.state waiting_for_input ≡ true → NoneOpen s' now id)
      × (accepted ≡ false
          → (s'.hitl.threads ≡ s.hitl.threads)
            × (s'.messages ≡ s.messages)
            × (s'.hitl.requested ≡ s.hitl.requested)
            × (s'.admin ≡ s.admin))
stop_done s now id t e h n =
    let (lands, there, _) =
      transition-moved s.hitl.threads now id (stop_change (current s now id t)) t e in
    elim (Bool-cases (any (is_state t.state) active_states)) [
      | inr a ↦ subst Outcome (sym (stop-refused s now id t e a)) (
        sym (ap (λ b. b && free) a),
        λ r. absurd (cc r),
        λ r. absurd (cc r),
        λ r. (refl, refl, refl, refl),
      )
      | inl a ↦ elim (Bool-cases (moves s now id t)) [
        | inr m ↦
            subst Outcome (sym (stop-lost s now id t e a m))
              (sym m ∙ lands, λ r. absurd (cc r), λ r. absurd (cc r), λ r. (refl, refl, refl, refl))
        | inl m ↦ subst Outcome (sym (stop-won s now id t e a m)) (
          sym m ∙ lands,
          λ r. ended (is_state t.state waiting_for_input) (there m),
          λ r w. parks (is_state t.state waiting_for_input) w,
          λ r. absurd (cc r),
        )
      ]
    ]
  where
    free : Bool
    free = not (is_other_run (current s now id t) (lookup id s.hitl.threads.runs))

    Outcome : StopStore × Bool → Type 0
    Outcome (s', accepted) =
        (accepted ≡ (any (is_state t.state) active_states && free))
        × (accepted ≡ true → lookup id s'.hitl.threads.threads ≡ some (moved t cancelled now))
        × (accepted ≡ true → is_state t.state waiting_for_input ≡ true → NoneOpen s' now id)
        × (accepted ≡ false
            → (s'.hitl.threads ≡ s.hitl.threads)
              × (s'.messages ≡ s.messages)
              × (s'.hitl.requested ≡ s.hitl.requested)
              × (s'.admin ≡ s.admin))

    ended :
        (b : Bool)
        → lookup id (moved_store s now id t).hitl.threads.threads ≡ some (moved t cancelled now)
        → lookup id
            (if b
              then close_open_parks (moved_store s now id t) now id
              else moved_store s now id t).hitl.threads.threads
          ≡ some (moved t cancelled now)
    ended true g =
        ap (λ x. lookup id x.threads) (close_open_parks-threads (moved_store s now id t) now id) ∙ g
    ended false g = g

    parks :
        (b : Bool)
        → b ≡ true
        → NoneOpen
            (if b then close_open_parks (moved_store s now id t) now id else moved_store s now id t)
            now
            id
    parks true w = close_open_parks-NoneOpen (moved_store s now id t) now id h n
    parks false w = absurd (cc w)
