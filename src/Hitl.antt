-- ===== src/Hitl.antt =====
-- Approvals, packages/agentenkit/src/core/hitl.ts: a park that waits for an answer, the set of open
-- parks read from what is stored, and the answer that resumes the run. The state is the part of one
-- thread's storage, key-value store and queue that these read and write: the payloads of the stored
-- INPUT_REQUIRED events, the ids that INPUT_EXPIRED events name, and the call ids in stored tool
-- messages. Dates stand as times, JSON values as their JSON.
pub mod Open
pub mod Answering
mod Samples
use Prim.Native.String.{◌++◌ as glue}
use agentic_kit.Base.{
  keep_if, ℕ, suc, ◌+◌, ◌-◌, ◌*◌, ◌/◌, max, Bool, true, false, not, ◌&&◌, ◌||◌, List, [], ◌∷◌, ◌++◌,
  map, Option, none, some, String, str_eq, if◌then◌else◌, or_else, any, is_some, drop, ltb, ◌==◌,
  lookup,
}
use mathlib.Core.Option
use agentic_kit.Kv.{Kv, get, set, del}
use agentic_kit.History.{Message, Part, tool_call, tool_result, has, is_tool, parts_of}
use agentic_kit.Threads.{
  ExecutionState, Thread, ThreadStore, ThreadTransition, running, waiting_for_input, is_state,
  is_other_run,
}
use agentic_kit.Queue.{
  MemoryQueue, RunJob, JobKind, resume, expiry, EnqueueOptions, QueueError, queue_full,
  duplicate_job, enqueue, cancel,
}
use agentic_kit.Publish.{run_id_key, move_thread}

pub record ResumeInfo : Type 0 where
  pub agent : String
  pub model : String
  pub run_id : Option String
  pub token_budget : Option ℕ
  pub cost_budget_micros : Option ℕ
  pub provider_options : Option String
  pub state : Option String
  pub max_steps : Option ℕ
  pub dispatched_at : Option ℕ

pub record NestedDescriptor : Type 0 where
  pub agent_id : String
  pub name : String
  pub model : String
  pub depth : ℕ

pub record HitlFrame : Type 0 where
  pub agent_id : Option String
  pub tool_call_id : String
  pub nested : Option NestedDescriptor

-- The payload of an INPUT_REQUIRED event, with the event's own time.
pub record InputRequired : Type 0 where
  pub tool_call_id : String
  pub tool_name : String
  pub agent_id : Option String
  pub arguments : String
  pub frames : Option (List HitlFrame)
  pub nested : Option NestedDescriptor
  pub reason : Option String
  pub expires_at : Option ℕ
  pub resume : Option ResumeInfo
  pub created_at : ℕ

pub record PendingHitl : Type 0 where
  pub tool_call_id : String
  pub tool_name : String
  pub agent_id : Option String
  pub arguments : String
  pub frames : List HitlFrame
  pub nested : Option NestedDescriptor
  pub requested_at : ℕ
  pub expires_at : Option ℕ
  pub reason : Option String
  pub resume : Option ResumeInfo
  pub landed : Bool
  pub resume_frame : Option ℕ

pub record HitlConfig : Type 0 where
  pub hitl_ttl_ms : ℕ
  pub reclaim_grace_ms : ℕ

unfoldable pub from_input_required : InputRequired → PendingHitl
from_input_required e = record {
  tool_call_id = e.tool_call_id;
  tool_name = e.tool_name;
  agent_id = e.agent_id;
  arguments = e.arguments;
  frames = or_else e.frames [];
  nested = e.nested;
  requested_at = e.created_at;
  expires_at = e.expires_at;
  reason = e.reason;
  resume = e.resume;
  landed = false;
  resume_frame = none;
}

unfoldable pub hitl_deadline : PendingHitl → HitlConfig → ℕ
hitl_deadline p config = or_else p.expires_at (p.requested_at + config.hitl_ttl_ms)

abbrev pub call_id : Part → String
call_id (tool_call id name) = id
call_id (tool_result id name value) = id
call_id _ = ""

-- The call ids of the stored tool messages, but for empty ones.
abbrev pub named_ids : List String → List String
named_ids ids = keep_if (λ id. not (str_eq id "")) ids

unfoldable pub answered_ids : List Message → List String
answered_ids [] = []
answered_ids (m ∷ ms) =
    let rest = answered_ids ms in
    if is_tool m.role then named_ids (map call_id (parts_of m.content)) ++ rest else rest

-- `p.frames.findIndex((f) => !answered.has(f.toolCallId))`, where none is below 0.
unfoldable pub first_waiting : List String → List HitlFrame → Option ℕ
first_waiting answered [] = none
first_waiting answered (f ∷ fs) =
    let rest = Option.map suc (first_waiting answered fs) in
    if has f.tool_call_id answered then rest else some 0

abbrev pub landed_at : PendingHitl → Option ℕ → List PendingHitl
landed_at p none = []
landed_at p (some at) = record p { landed = true; resume_frame = some at } ∷ []

abbrev pub run_of_park : PendingHitl → Option String
run_of_park p = run_of p.resume
  where
    run_of : Option ResumeInfo → Option String
    run_of none = none
    run_of (some r) = r.run_id

-- What the loop over the requests pushes for one.
unfoldable pub opened : Option String → List String → List String → PendingHitl → List PendingHitl
opened current expired answered p =
    let settled = has p.tool_call_id answered || has p.tool_call_id expired in
    if is_other_run (run_of_park p) current
    then []
    else if not settled
    then p ∷ []
    else landed_at p (first_waiting answered p.frames)

unfoldable pub load_open_hitls :
    Option String → List InputRequired → List String → List String → List PendingHitl
load_open_hitls current [] expired answered = []
load_open_hitls current (e ∷ es) expired answered =
    opened current expired answered (from_input_required e)
    ++ load_open_hitls current es expired answered

pub record HitlStore : Type 0 where
  pub threads : ThreadStore
  pub kv : Kv
  pub queue : MemoryQueue
  pub requested : List InputRequired
  pub expired : List String
  pub answered : List String

unfoldable pub hitl_key : String → String
hitl_key tool_call_id = glue "agent:hitl:" tool_call_id

unfoldable pub expiry_job_key : String → String
expiry_job_key tool_call_id = glue "hitl-expiry:" tool_call_id

unfoldable pub resume_job_key : String → String
resume_job_key tool_call_id = glue "hitl-resume:" tool_call_id

-- The ticket's part of a job that carries a run on.
abbrev pub job_of : JobKind → String → Option String → String → ResumeInfo → RunJob
job_of kind thread_id run_id dispatch_id r = record {
  thread_id = thread_id;
  model = r.model;
  agent = some r.agent;
  run_id = run_id;
  dispatch_id = some dispatch_id;
  enqueued_at = none;
  kind = some kind;
  state = r.state;
  token_budget = r.token_budget;
  cost_budget_micros = r.cost_budget_micros;
  provider_options = r.provider_options;
  max_steps = r.max_steps;
  partition_key = none;
  dispatched_at = r.dispatched_at;
}

pub record ParkInput : Type 0 where
  pub thread_id : String
  pub tool_call_id : String
  pub tool_name : String
  pub args : String
  pub agent_id : Option String
  pub reason : Option String
  pub ttl_ms : Option ℕ
  pub frames : Option (List HitlFrame)
  pub nested : Option NestedDescriptor
  pub resume : ResumeInfo

-- `i.ttlMs && i.ttlMs > 0 ? i.ttlMs : deps.config.hitlTtlMs`
abbrev pub park_ttl_ms : HitlConfig → ParkInput → ℕ
park_ttl_ms config i = let own = or_else i.ttl_ms 0 in if ltb 0 own then own else config.hitl_ttl_ms

abbrev pub request_of : HitlConfig → ℕ → ParkInput → InputRequired
request_of config now i = record {
  tool_call_id = i.tool_call_id;
  tool_name = i.tool_name;
  agent_id = i.agent_id;
  arguments = i.args;
  frames = some (or_else i.frames []);
  nested = i.nested;
  reason = some (or_else i.reason "approval");
  expires_at = some (now + park_ttl_ms config i);
  resume = some i.resume;
  created_at = now;
}

abbrev pub park_change : ParkInput → ThreadTransition
park_change i = record {
  from = running ∷ waiting_for_input ∷ [];
  to = waiting_for_input;
  run_id = i.resume.run_id;
  new_run_id = none;
}

-- The wait is rounded up to seconds; a refusal by the queue is swallowed.
abbrev pub expiry_options : HitlConfig → ParkInput → EnqueueOptions
expiry_options config i = record {
  delay_seconds = some ((park_ttl_ms config i + config.reclaim_grace_ms + 999) / 1000);
  key = some (expiry_job_key i.tool_call_id);
  priority = some "-10";
}

-- `parkForApproval`, all at one time.
unfoldable pub park_for_approval : HitlConfig → HitlStore → ℕ → String → ParkInput → HitlStore
park_for_approval config s now dispatch_id i =
    let (threads', kv', parked) = move_thread s.threads s.kv now i.thread_id (park_change i) in
    let (kv'', run_id) = get kv' (run_id_key i.thread_id) now in
    let job = job_of expiry i.thread_id run_id dispatch_id i.resume in
    if parked
    then record s {
      threads = threads';
      kv = kv'';
      requested = s.requested ++ (request_of config now i ∷ []);
      queue = (enqueue s.queue job (expiry_options config i)).0;
    }
    else s

-- `commitParks`: the box's parks, in the order in which they were added.
unfoldable pub commit_parks : HitlConfig → HitlStore → ℕ → String → List ParkInput → HitlStore
commit_parks config s now dispatch_id [] = s
commit_parks config s now dispatch_id (i ∷ is) =
    commit_parks config (park_for_approval config s now dispatch_id i) now dispatch_id is

pub data RespondResult : Type 0 where
  delivered no_pending already_answered dispatch_failed : RespondResult

pub record RespondInput : Type 0 where
  pub thread_id : String
  pub tool_call_id : String
  pub approved : Bool
  pub payload : Option String

-- `JSON.stringify({ approved, payload })`, with the payload as its JSON.
abbrev pub answer_json : RespondInput → String
answer_json i =
    glue (if i.approved then "{\"approved\":true" else "{\"approved\":false")
      (glue (more i.payload) "}")
  where
    more : Option String → String
    more none = ""
    more (some p) = glue ",\"payload\":" p

abbrev pub matches : String → PendingHitl → Bool
matches id p = str_eq p.tool_call_id id && not p.landed

unfoldable pub find_match : String → List PendingHitl → Option PendingHitl
find_match id [] = none
find_match id (p ∷ ps) = let rest = find_match id ps in if matches id p then some p else rest

unfoldable pub find_request : String → List InputRequired → Option InputRequired
find_request id [] = none
find_request id (e ∷ es) =
    let rest = find_request id es in if str_eq e.tool_call_id id then some e else rest

abbrev pub remaining_sec : HitlConfig → ℕ → PendingHitl → ℕ
remaining_sec config now p = max 60 ((hitl_deadline p config - now) / 1000)

abbrev pub is_waiting : Option Thread → Bool
is_waiting none = false
is_waiting (some t) = is_state t.state waiting_for_input

-- The job of an answer: with no ticket it names the thread's model only.
abbrev pub resume_job : String → Option String → String → String → Option ResumeInfo → RunJob
resume_job thread_id run_id dispatch_id model (some r) =
    job_of resume thread_id run_id dispatch_id r
resume_job thread_id run_id dispatch_id model none = record {
  thread_id = thread_id;
  model = model;
  agent = none;
  run_id = run_id;
  dispatch_id = some dispatch_id;
  enqueued_at = none;
  kind = some resume;
  state = none;
  token_budget = none;
  cost_budget_micros = none;
  provider_options = none;
  max_steps = none;
  partition_key = none;
  dispatched_at = none;
}

abbrev pub ticket_of : Option InputRequired → Option ResumeInfo
ticket_of none = none
ticket_of (some e) = e.resume

abbrev pub resume_options : String → EnqueueOptions
resume_options id = record { delay_seconds = none; key = some (resume_job_key id); priority = none }

-- What follows the answer's write: the dispatch, and the withdrawal of the expiry row.
abbrev pub dispatch_answer :
    HitlStore → RespondInput → Kv → MemoryQueue × Option QueueError → HitlStore × RespondResult
dispatch_answer s i kv (queue', none) =
    (record s { kv = kv; queue = cancel queue' (expiry_job_key i.tool_call_id) }, delivered)
dispatch_answer s i kv (queue', some duplicate_job) = (record s { kv = kv }, already_answered)
dispatch_answer s i kv (queue', some queue_full) =
    (record s { kv = del kv (hitl_key i.tool_call_id) }, dispatch_failed)

abbrev pub model_of : Option Thread → String
model_of none = ""
model_of (some t) = t.model

abbrev pub respond_to :
    HitlConfig
    → HitlStore
    → ℕ
    → String
    → RespondInput
    → Kv
    → Option String
    → PendingHitl
    → HitlStore × RespondResult
respond_to config s now dispatch_id i kv run_id p =
    let (kv', written) =
      set kv (hitl_key i.tool_call_id) (answer_json i) (remaining_sec config now p) true now in
    let job =
      resume_job i.thread_id run_id dispatch_id (model_of (lookup i.thread_id s.threads.threads))
        (ticket_of (find_request i.tool_call_id s.requested)) in
    if written
    then dispatch_answer s i kv' (enqueue s.queue job (resume_options i.tool_call_id))
    else (record s { kv = kv' }, already_answered)

abbrev pub respond_found :
    HitlConfig
    → HitlStore
    → ℕ
    → String
    → RespondInput
    → Kv
    → Option String
    → Bool
    → Option PendingHitl
    → HitlStore × RespondResult
respond_found config s now dispatch_id i kv run_id waits none = (record s { kv = kv }, no_pending)
respond_found config s now dispatch_id i kv run_id waits (some p) =
    let answer = respond_to config s now dispatch_id i kv run_id p in
    if waits then answer else (record s { kv = kv }, no_pending)

-- `respond`, on the state that `reclaimIfOrphaned` leaves, all at one time.
unfoldable pub respond :
    HitlConfig → HitlStore → ℕ → String → RespondInput → HitlStore × RespondResult
respond config s now dispatch_id i =
    let (kv, current) = get s.kv (run_id_key i.thread_id) now in
    let waits = is_waiting (lookup i.thread_id s.threads.threads) in
    respond_found config s now dispatch_id i kv current waits
      (find_match i.tool_call_id (load_open_hitls current s.requested s.expired s.answered))
