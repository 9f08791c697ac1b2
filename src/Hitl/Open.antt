-- ===== src/Hitl/Open.antt =====
-- Which parks of a thread are open.
use agentic_kit.Base.{
  ℕ, ◌≡◌, refl, Bool, false, not, ◌&&◌, List, [], ◌∷◌, Option, none, some, String, str_eq, any,
  any-append, arith,
}
use agentic_kit.History.{has}
use agentic_kit.Threads.{is_other_run}
use agentic_kit.Hitl.{
  InputRequired, PendingHitl, from_input_required, first_waiting, landed_at, run_of_park, opened,
  load_open_hitls, matches,
}

-- What makes a request answerable.
abbrev pub is_open : Option String → List String → List String → String → InputRequired → Bool
is_open current expired answered id e =
    str_eq e.tool_call_id id
    && (not (is_other_run (run_of_park (from_input_required e)) current)
        && (not (has e.tool_call_id answered) && not (has e.tool_call_id expired)))

landed-matches :
    (id : String) (p : PendingHitl) (at : Option ℕ) → any (matches id) (landed_at p at) ≡ false
landed-matches id p none = refl
landed-matches id p (some at) = ground arith

opened-matches :
    (current : Option String) (expired answered : List String) (id : String) (e : InputRequired)
    → any (matches id) (opened current expired answered (from_input_required e))
      ≡ is_open current expired answered id e
unfolding opened from_input_required
opened-matches current expired answered id e = ground (
  arith,
  landed-matches id (from_input_required e) (first_waiting answered (from_input_required e).frames),
)

-- A call can be answered exactly when the thread asked for input for it in its current run (or for
-- no run that is named), no tool message answers it, and it has not expired, whatever happened
-- above it.
pub load_open_hitls-matches :
    (current : Option String) (requested : List InputRequired) (expired answered : List String)
    (id : String)
    → any (matches id) (load_open_hitls current requested expired answered)
      ≡ any (is_open current expired answered id) requested
unfolding load_open_hitls
load_open_hitls-matches current [] expired answered id = refl
load_open_hitls-matches current (e ∷ es) expired answered id = ground (
  arith,
  any-append (matches id) (opened current expired answered (from_input_required e))
      (load_open_hitls current es expired answered),
  opened-matches current expired answered id e,
  load_open_hitls-matches current es expired answered id,
)
