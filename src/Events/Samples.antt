-- ===== src/Events/Samples.antt =====
-- The record on concrete entries.
use agentic_kit.Base.{ℕ, ◌≡◌, List, [], ◌∷◌, ◌++◌, none, some, keep_if, leb, arith}
use agentic_kit.Events.{AgentEvent, NewThreadEvent, top_seq, append, list_since, latest}
use agentic_kit.Events.Record.{IsAscending, append-IsAscending, list_since-append}

abbrev entry : ℕ → AgentEvent
entry n = record {
  thread_id = "t";
  seq = n;
  type_name = "RUN_STARTED";
  payload = "{}";
  created_at = 5;
  run_id = some "r";
}

abbrev rows : List AgentEvent
rows = entry 1 ∷ entry 2 ∷ []

abbrev new_entry : NewThreadEvent
new_entry = record {
  new_type = "RUN_ENDED";
  new_payload = "{}";
  new_run_id = some "r";
  new_created_at = none;
}

append-IsAscending_example :
    let (rows', event) = append "t" 6 new_entry rows in
    IsAscending 0 rows'
    × (list_since rows' (top_seq rows) ≡ event ∷ [])
    × (latest rows' "RUN_ENDED" ≡ some event)
append-IsAscending_example =
    append-IsAscending "t" 6 new_entry rows (omega arith, (omega arith, tt))

list_since-append_example : keep_if (λ e. leb e.seq 1) rows ++ list_since rows 1 ≡ rows
list_since-append_example = list_since-append rows 1 (omega arith, (omega arith, tt))
