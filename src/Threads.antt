-- ===== src/Threads.antt =====
-- Thread states held in memory, `MemoryStorage.threads` in packages/agentenkit/src/adapters/memory.ts,
-- with the records of packages/agentenkit/src/core/types.ts. The clock and a new thread's id are
-- arguments. An update of a thread in place is a write of the whole thread.
pub mod Transition
mod Samples
use agentic_kit.Base.{
  ℕ, Bool, true, false, not, ◌&&◌, ◌||◌, List, [], ◌∷◌, Option, none, some, String, Dict, lookup,
  insert, erase, str_eq, if◌then◌else◌, or_else, any, ◌==◌,
}

pub data ExecutionState : Type 0 where
  idle queued running waiting_for_input cancelled completed failed : ExecutionState

abbrev pub state_number : ExecutionState → ℕ
state_number idle = 0
state_number queued = 1
state_number running = 2
state_number waiting_for_input = 3
state_number cancelled = 4
state_number completed = 5
state_number failed = 6

abbrev pub is_state : ExecutionState → ExecutionState → Bool
is_state a b = state_number a == state_number b

pub record Thread : Type 0 where
  pub id : String
  pub state : ExecutionState
  pub model : String
  pub created_at : ℕ
  pub updated_at : ℕ

pub record ThreadTransition : Type 0 where
  pub from : List ExecutionState
  pub to : ExecutionState
  pub run_id : Option String
  pub new_run_id : Option String

-- The threads, and each one's current run.
pub record ThreadStore : Type 0 where
  pub threads : Dict Thread
  pub runs : Dict String

unfoldable pub create : ThreadStore → ℕ → String → Option String → ThreadStore × Thread
create s now new_id asked =
    let t = created now new_id asked in (record s { threads = insert new_id t s.threads }, t)
  where
    created : ℕ → String → Option String → Thread
    created now new_id asked = record {
      id = new_id;
      state = idle;
      model = or_else asked "gpt-4o";
      created_at = now;
      updated_at = now;
    }

abbrev pub moved : Thread → ExecutionState → ℕ → Thread
moved t to now = record t { state = to; updated_at = now }

abbrev pub put_state : ThreadStore → ℕ → String → ExecutionState → Thread → ThreadStore
put_state s now id to t = record s { threads = insert id (moved t to now) s.threads }

abbrev pub set_found :
    ThreadStore → ℕ → String → ExecutionState → Option Thread → Option ThreadStore
set_found s now id to none = none
set_found s now id to (some t) = some (put_state s now id to t)

-- `setState`, which throws for an unknown thread.
unfoldable pub set_state : ThreadStore → ℕ → String → ExecutionState → Option ThreadStore
set_state s now id to = set_found s now id to (lookup id s.threads)

abbrev pub claim_found :
    ThreadStore → ℕ → String → ExecutionState → ExecutionState → Option Thread → ThreadStore × Bool
claim_found s now id from to none = (s, false)
claim_found s now id from to (some t) =
    if is_state t.state from then (put_state s now id to t, true) else (s, false)

unfoldable pub claim_state :
    ThreadStore → ℕ → String → ExecutionState → ExecutionState → ThreadStore × Bool
claim_state s now id from to = claim_found s now id from to (lookup id s.threads)

abbrev pub text_of : Option String → String
text_of o = or_else o ""

-- Both name a run, and not the same one: an empty id names none.
abbrev pub is_other_run : Option String → Option String → Bool
is_other_run asked current =
    not (str_eq (text_of asked) "")
    && (not (str_eq (text_of current) "") && not (str_eq (text_of current) (text_of asked)))

abbrev pub put_run : ThreadStore → String → Option String → ThreadStore
put_run s id new_run =
    if str_eq (text_of new_run) ""
    then s
    else record s { runs = insert id (text_of new_run) s.runs }

abbrev pub transition_found :
    ThreadStore → ℕ → String → ThreadTransition → Option Thread → ThreadStore × Bool
transition_found s now id tr none = (s, false)
transition_found s now id tr (some t) =
    if not (any (is_state t.state) tr.from) || is_other_run tr.run_id (lookup id s.runs)
    then (s, false)
    else (put_run (put_state s now id tr.to t) id tr.new_run_id, true)

unfoldable pub transition : ThreadStore → ℕ → String → ThreadTransition → ThreadStore × Bool
transition s now id tr = transition_found s now id tr (lookup id s.threads)
