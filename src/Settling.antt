-- ===== src/Settling.antt =====
-- The settle claim on a run record, `claimSettle` and `endSettle` of `MemoryAdminStore` in
-- packages/agentenkit/src/admin/memory.ts, with `RunRecord` of packages/agentenkit/src/core/types.ts.
-- A date stands as its time, a JSON value as its text, and `null` as an absent value.
pub mod Claims
pub mod Runner
pub mod Kept
pub mod Invariant
pub mod Once
pub mod Progress
mod Samples
use agentic_kit.Base.{
  ℕ, Bool, true, false, not, ◌&&◌, ◌||◌, List, [], ◌∷◌, Option, none, some, String, Dict, lookup,
  insert, erase, leb, if◌then◌else◌, is_some, is_text,
}
use agentic_kit.Threads.{ExecutionState}

pub record RunRecord : Type 0 where
  pub id : String
  pub thread_id : String
  pub parent_run_id : Option String
  pub depth : ℕ
  pub agent : String
  pub model : String
  pub state : ExecutionState
  pub stop_reason : Option String
  pub error : Option String
  pub started_at : ℕ
  pub enqueued_at : Option ℕ
  pub ended_at : Option ℕ
  pub duration_ms : Option ℕ
  pub queued_ms : Option ℕ
  pub settled_at : Option ℕ
  pub settling_at : Option ℕ
  pub steps : ℕ
  pub input_tokens : ℕ
  pub cached_input_tokens : ℕ
  pub output_tokens : ℕ
  pub total_tokens : ℕ
  pub attempts : ℕ
  pub prompt : Option String
  pub token_budget : Option ℕ
  pub run_state : Option String
  pub provider_options : Option String
  pub result : Option String
  pub cost_budget_micros : Option ℕ
  pub max_steps : Option ℕ

-- The run records, and who holds each one's settle claim.
pub record AdminStore : Type 0 where
  pub run_rows : Dict RunRecord
  pub settle_tokens : Dict String

abbrev pub is_recent : ℕ → Option ℕ → Bool
is_recent stale_before none = false
is_recent stale_before (some at) = leb stale_before at

abbrev pub claimed : AdminStore → ℕ → String → String → RunRecord → AdminStore
claimed s now run_id token cur = record s {
  run_rows = insert run_id (record cur { settling_at = some now }) s.run_rows;
  settle_tokens = insert run_id token s.settle_tokens;
}

abbrev pub claim_on : AdminStore → ℕ → String → String → ℕ → Option RunRecord → AdminStore × Bool
claim_on s now run_id token stale_before none = (s, false)
claim_on s now run_id token stale_before (some cur) =
    if is_some cur.settled_at || is_recent stale_before cur.settling_at
    then (s, false)
    else (claimed s now run_id token cur, true)

unfoldable pub claim_settle : AdminStore → ℕ → String → String → ℕ → AdminStore × Bool
claim_settle s now run_id token stale_before =
    claim_on s now run_id token stale_before (lookup run_id s.run_rows)

abbrev pub settled_row : ℕ → Bool → RunRecord → RunRecord
settled_row now settled cur =
    let open_row = record cur { settling_at = none } in
    if settled then record open_row { settled_at = some now } else open_row

abbrev pub end_on : AdminStore → ℕ → String → String → Bool → Option RunRecord → AdminStore
end_on s now run_id token settled none = s
end_on s now run_id token settled (some cur) =
    let ended = record s {
      run_rows = insert run_id (settled_row now settled cur) s.run_rows;
      settle_tokens = erase run_id s.settle_tokens;
    } in
    if is_text (lookup run_id s.settle_tokens) token then ended else s

unfoldable pub end_settle : AdminStore → ℕ → String → String → Bool → AdminStore
end_settle s now run_id token settled = end_on s now run_id token settled (lookup run_id s.run_rows)
