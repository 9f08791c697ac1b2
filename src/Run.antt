-- ===== src/Run.antt =====
-- The start of a run, packages/agentenkit/src/core/run.ts: the checks that refuse it, the claim of the
-- thread, and its dispatch. Others may act between its steps: `Meanwhile` is what they do to the stores
-- before the claim, before the run's id and record are written, before each of the three looks at
-- whether the run was stopped meanwhile, before the message, before the job, and before a failed
-- dispatch gives the thread back. The checks are one step, as is each look. Any call after
-- the run's id was installed may throw. The billing check's answer, fresh ids and the clock are arguments; what is published is left to Publish, and payloads are not
-- recorded (`recordPayloads` is off).
pub mod Dispatched
mod Samples
use agentic_kit.Base.{
  ℕ, ◌-◌, min, Bool, true, false, not, ◌&&◌, ◌||◌, List, [], ◌∷◌, ◌++◌, Option, none, some, String,
  str_eq, ltb, leb, ◌==◌, if◌then◌else◌, or_else, is_some, is_text, any, lookup, insert,
}
use agentic_kit.Kv.{Kv, get, set}
use agentic_kit.Threads.{
  ExecutionState, queued, cancelled, failed, Thread, ThreadStore, ThreadTransition, is_state,
}
use agentic_kit.History.{Role, user}
use agentic_kit.Messages.{MessageDto, NewMessage, append_message, list_messages, delete_from}
use agentic_kit.Queue.{
  MemoryQueue, RunJob, EnqueueOptions, QueueError, queue_full, duplicate_job, QueueStats, stats,
  enqueue,
}
use agentic_kit.Settling.{RunRecord, AdminStore}
use agentic_kit.Publish.{
  run_id_key, state_key, state_name, thread_key_ttl_seconds, active_states, move_thread,
}
use agentic_kit.Stop.{record_stopped_run}

pub record RunStore : Type 0 where
  pub threads : ThreadStore
  pub kv : Kv
  pub queue : MemoryQueue
  pub messages : List MessageDto
  pub admin : AdminStore

pub record RunInput : Type 0 where
  pub thread_id : String
  pub prompt : String
  pub model : String
  pub agent : String
  pub run_id : String
  pub edit_message_id : Option String
  pub max_steps : ℕ
  pub token_budget : Option ℕ
  pub cost_budget_micros : Option ℕ
  pub state : Option String
  pub provider_options : Option String
  pub partition_key : Option String

pub record RunConfig : Type 0 where
  pub max_queue_depth : ℕ
  pub max_steps : ℕ

pub data Refusal : Type 0 where
  thread_not_found active_run billing queue_is_full run_id_used message_not_found
        not_a_user_message :
      Refusal

unfoldable pub find_message : List MessageDto → String → Option MessageDto
find_message [] id = none
find_message (m ∷ ms) id = let rest = find_message ms id in if str_eq m.id id then some m else rest

abbrev pub is_user : Role → Bool
is_user user = true
is_user _ = false

abbrev pub refuse_edit : Option MessageDto → Option Refusal
refuse_edit none = some message_not_found
refuse_edit (some m) = if is_user m.role then none else some not_a_user_message

-- An empty id edits nothing.
abbrev pub check_edit : List MessageDto → Option String → Option Refusal
check_edit messages none = none
check_edit messages (some id) =
    let edited = refuse_edit (find_message (list_messages messages (some none)) id) in
    if str_eq id "" then none else edited

abbrev pub is_active_name : Option String → Bool
is_active_name none = false
is_active_name (some name) = any (λ s. str_eq name (state_name s)) active_states

-- The checks before anything is written, in their order.
abbrev pub check_found :
    RunConfig → RunStore → RunInput → Bool → Option String → Option Thread → Option Refusal
check_found config s i billing_ok hot none = some thread_not_found
check_found config s i billing_ok hot (some t) =
    let edit = check_edit s.messages i.edit_message_id in
    if is_active_name hot || any (is_state t.state) active_states
    then some active_run
    else if not billing_ok
    then some billing
    else if ltb 0 config.max_queue_depth && leb config.max_queue_depth (stats s.queue).ready
    then some queue_is_full
    else if is_some (lookup i.run_id s.admin.run_rows)
    then some run_id_used
    else edit

abbrev pub start_change : RunInput → ExecutionState → ThreadTransition
start_change i initial = record {
  from = initial ∷ [];
  to = queued;
  run_id = none;
  new_run_id = some i.run_id;
}

abbrev pub started_row : RunConfig → RunInput → ℕ → RunRecord
started_row config i now = record {
  id = i.run_id;
  thread_id = i.thread_id;
  parent_run_id = none;
  depth = 0;
  agent = i.agent;
  model = i.model;
  state = queued;
  stop_reason = none;
  error = none;
  started_at = now;
  enqueued_at = some now;
  ended_at = none;
  duration_ms = none;
  queued_ms = none;
  settled_at = none;
  settling_at = none;
  steps = 0;
  input_tokens = 0;
  cached_input_tokens = 0;
  output_tokens = 0;
  total_tokens = 0;
  attempts = 0;
  prompt = none;
  token_budget = none;
  run_state = none;
  provider_options = none;
  result = none;
  cost_budget_micros = some (or_else i.cost_budget_micros 0);
  max_steps = some (min i.max_steps config.max_steps);
}

-- Whether the run still owns a queued thread.
abbrev pub is_ours : RunInput → Option String → Option Thread → Bool
is_ours i current none = false
is_ours i current (some t) = is_text current i.run_id && is_state t.state queued

abbrev pub is_cancelled_here : RunInput → Option String → Option Thread → Bool
is_cancelled_here i current none = false
is_cancelled_here i current (some t) = is_text current i.run_id && is_state t.state cancelled

unfoldable pub dispatch_active : RunStore → RunInput → ℕ → RunStore × Bool
dispatch_active s i now =
    let (kv, current) = get s.kv (run_id_key i.thread_id) now in
    let found = lookup i.thread_id s.threads.threads in
    let stopped = record s { kv = kv; admin = record_stopped_run s.admin i.run_id now } in
    let hot = record stopped {
      kv = (set kv (state_key i.thread_id) "CANCELLED" thread_key_ttl_seconds false now).0;
    } in
    if is_ours i current found
    then (record s { kv = kv }, true)
    else (if is_cancelled_here i current found then hot else stopped, false)

abbrev pub fail_change : RunInput → ThreadTransition
fail_change i = record {
  from = queued ∷ [];
  to = failed;
  run_id = some i.run_id;
  new_run_id = none;
}

abbrev pub failed_row : ℕ → String → RunRecord → RunRecord
failed_row now error r = record r {
  state = failed;
  stop_reason = some "failed";
  error = some error;
  ended_at = some now;
  duration_ms = some (now - r.started_at);
}

abbrev pub patch_failed : AdminStore → String → ℕ → String → Option RunRecord → AdminStore
patch_failed admin run_id now error none = admin
patch_failed admin run_id now error (some r) = record admin {
  run_rows = insert run_id (failed_row now error r) admin.run_rows;
}

-- `failDispatch` of a run whose id was installed.
unfoldable pub fail_dispatch : RunStore → RunInput → ℕ → String → RunStore
fail_dispatch s i now error =
    let (kv, current) = get s.kv (run_id_key i.thread_id) now in
    let (threads', kv', won) = move_thread s.threads kv now i.thread_id (fail_change i) in
    let closed = record s {
      threads = threads';
      kv = kv';
      admin = patch_failed s.admin i.run_id now error (lookup i.run_id s.admin.run_rows);
    } in
    if not (is_text current i.run_id)
    then record s { kv = kv }
    else (if won then closed else record s { kv = kv })

abbrev pub first_job : RunConfig → RunInput → String → ℕ → RunJob
first_job config i dispatch_id now = record {
  thread_id = i.thread_id;
  model = i.model;
  agent = some i.agent;
  run_id = some i.run_id;
  dispatch_id = some dispatch_id;
  enqueued_at = some now;
  kind = none;
  state = i.state;
  token_budget = i.token_budget;
  cost_budget_micros = i.cost_budget_micros;
  provider_options = i.provider_options;
  max_steps = steps (min i.max_steps config.max_steps);
  partition_key = i.partition_key;
  dispatched_at = some now;
}
  where
    steps : ℕ → Option ℕ
    steps n = if n == 0 then none else some n

abbrev pub no_options : EnqueueOptions
no_options = record { delay_seconds = none; key = none; priority = none }

pub data RunResult : Type 0 where
  accepted stopped_before : RunResult
  refused : Refusal → RunResult
  dispatch_failed : QueueError → RunResult
  -- Another call of the dispatch threw.
  threw : RunResult

abbrev pub error_text : QueueError → String
error_text queue_full = "queue is full"
error_text duplicate_job = "a job with this key is already queued: "

-- The calls after the run's id was installed, in their order.
pub data Place : Type 0 where
  at_open at_look at_message at_look_again at_look_last at_send : Place

-- What others do to the stores at each place where the start of a run waits for a call, and which call
-- throws; what a call that throws has done nevertheless is with `before_fail`.
pub record Meanwhile : Type 0 where
  pub before_claim : RunStore → RunStore
  pub before_open : RunStore → RunStore
  pub before_look : RunStore → RunStore
  pub before_message : RunStore → RunStore
  pub before_look_again : RunStore → RunStore
  pub before_look_last : RunStore → RunStore
  pub before_send : RunStore → RunStore
  pub before_fail : RunStore → RunStore
  pub throws : Place → Bool
  pub failure : String

-- A call, with what comes after it where it does not throw.
abbrev pub calling :
    Meanwhile → Place → RunInput → ℕ → RunStore → RunStore × RunResult → RunStore × RunResult
calling m place i now s more =
    if m.throws place then (fail_dispatch (m.before_fail s) i now m.failure, threw) else more

-- The last step: the job goes on the queue, or the claim of the thread is given back.
abbrev pub enqueue_run :
    Meanwhile → RunStore → RunInput → ℕ → MemoryQueue × Option QueueError → RunStore × RunResult
enqueue_run m s i now (q, none) = (record s { queue = q }, accepted)
enqueue_run m s i now (q, some e) =
    (fail_dispatch (m.before_fail s) i now (error_text e), dispatch_failed e)

abbrev pub when_active : RunStore × Bool → (RunStore → RunStore × RunResult) → RunStore × RunResult
when_active (s, active) more = let rest = more s in if active then rest else (s, stopped_before)

abbrev pub edited : List MessageDto → Option String → List MessageDto
edited messages none = messages
edited messages (some id) = if str_eq id "" then messages else (delete_from messages id).0

abbrev pub user_turn : RunInput → NewMessage
user_turn i = record { new_agent_id = none; new_role = user; new_content = i.prompt }

abbrev pub said : RunInput → String → ℕ → RunStore → RunStore
said i message_id now s = record s {
  messages =
      (append_message (edited s.messages i.edit_message_id) i.thread_id message_id now
        (user_turn i)).0;
}

abbrev pub send : RunConfig → RunInput → String → ℕ → Meanwhile → RunStore → RunStore × RunResult
send config i dispatch_id now m c =
    let s = m.before_send c in
    calling m at_send i now s
      (enqueue_run m s i now (enqueue s.queue (first_job config i dispatch_id now) no_options))

abbrev pub look_last :
    RunConfig → RunInput → String → ℕ → Meanwhile → RunStore → RunStore × RunResult
look_last config i dispatch_id now m s =
    calling m at_look_last i now s
      (when_active (dispatch_active (m.before_look_last s) i now) (send config i dispatch_id now m))

abbrev pub look_again :
    RunConfig → RunInput → String → String → ℕ → Meanwhile → RunStore → RunStore × RunResult
look_again config i message_id dispatch_id now m s =
    let wrote = said i message_id now (m.before_message s) in
    calling m at_message i now s (
      calling m at_look_again i now wrote (
        when_active (dispatch_active (m.before_look_again wrote) i now)
          (look_last config i dispatch_id now m)))

-- The dispatch after the claim.
unfoldable pub dispatch_run :
    RunConfig → RunInput → String → String → ℕ → Meanwhile → RunStore → RunStore × RunResult
dispatch_run config i message_id dispatch_id now m s = calling m at_open i now s (
    calling m at_look i now s (
      when_active (dispatch_active (m.before_look s) i now)
        (look_again config i message_id dispatch_id now m)))

abbrev pub opened_store : RunConfig → RunInput → ℕ → RunStore → RunStore
opened_store config i now s = record s {
  kv = (set s.kv (run_id_key i.thread_id) i.run_id thread_key_ttl_seconds false now).0;
  admin = record s.admin { run_rows = insert i.run_id (started_row config i now) s.admin.run_rows };
}

-- The claim of a thread that no check refused, from the state that the checks found it in.
abbrev pub admit :
    RunConfig
    → RunInput
    → String
    → String
    → ℕ
    → Meanwhile
    → RunStore
    → Option Thread
    → RunStore × RunResult
admit config i message_id dispatch_id now m s none = (s, refused thread_not_found)
admit config i message_id dispatch_id now m s (some t) =
    let found = m.before_claim s in
    let (threads', kv', won) =
      move_thread found.threads found.kv now i.thread_id (start_change i t.state) in
    let claimed = record found { threads = threads'; kv = kv' } in
    let dispatched =
      dispatch_run config i message_id dispatch_id now m
        (opened_store config i now (m.before_open claimed)) in
    if won then dispatched else (found, refused active_run)

unfoldable pub run :
    RunConfig → RunInput → Bool → String → String → ℕ → Meanwhile → RunStore → RunStore × RunResult
run config i billing_ok message_id dispatch_id now m s =
    let (kv, hot) = get s.kv (state_key i.thread_id) now in
    let found = lookup i.thread_id s.threads.threads in
    elim (check_found config s i billing_ok hot found) [
      | some r ↦ (record s { kv = kv }, refused r)
      | none ↦ admit config i message_id dispatch_id now m (record s { kv = kv }) found
    ]
