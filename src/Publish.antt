-- ===== src/Publish.antt =====
-- Publishing on a thread, packages/agentenkit/src/core/publish.ts, and the keys of
-- packages/agentenkit/src/core/keys.ts that it and the approvals use. An event's payload stands as its
-- JSON, and beside it in the form that the segment reads from it. The bus is the list of what was
-- sent on it, and the segment is the one that the process has open on the thread, if any.
pub mod Routing
mod Samples
use Prim.Native.String.{◌++◌ as glue}
use agentic_kit.Base.{
  ℕ, Bool, true, false, not, ◌&&◌, ◌||◌, List, [], ◌∷◌, ◌++◌, Option, none, some, String, str_eq,
  if◌then◌else◌, or_else, any,
}
use agentic_kit.Kv.{Kv, set}
use agentic_kit.Threads.{
  ExecutionState, idle, queued, running, waiting_for_input, cancelled, completed, failed, is_state,
  ThreadStore, ThreadTransition,
}
use agentic_kit.Threads
use agentic_kit.Events.{AgentEvent, NewThreadEvent, append}
use agentic_kit.Segment.{SegmentStream, Published, other_type, forward}

unfoldable pub run_id_key : String → String
run_id_key thread_id = glue "agent:run:" thread_id

unfoldable pub state_key : String → String
state_key thread_id = glue "agent:state:" thread_id

-- `THREAD_KEY_TTL_SECONDS`.
abbrev pub thread_key_ttl_seconds : ℕ
thread_key_ttl_seconds = 2592000

unfoldable pub state_name : ExecutionState → String
state_name idle = "IDLE"
state_name queued = "QUEUED"
state_name running = "RUNNING"
state_name waiting_for_input = "WAITING_FOR_INPUT"
state_name cancelled = "CANCELLED"
state_name completed = "COMPLETED"
state_name failed = "FAILED"

abbrev pub active_states : List ExecutionState
active_states = queued ∷ running ∷ waiting_for_input ∷ []

-- `isTerminal` of packages/agentenkit/src/core/settle.ts.
abbrev pub is_terminal : ExecutionState → Bool
is_terminal s = any (is_state s) (cancelled ∷ completed ∷ failed ∷ [])

-- `transition`, on the durable row and the hot key; the admin view is kept apart.
unfoldable pub move_thread :
    ThreadStore → Kv → ℕ → String → ThreadTransition → ThreadStore × Kv × Bool
move_thread threads kv now id tr =
    let (threads', won) = Threads.transition threads now id tr in
    (
      threads',
      if won
          then (set kv (state_key id) (state_name tr.to) thread_key_ttl_seconds false now).0
          else kv,
      won,
    )

abbrev pub record_event_types : List String
record_event_types =
    "INPUT_REQUIRED" ∷ "INPUT_EXPIRED" ∷ "HITL_RESPONSE" ∷ "RUN_REFUSED" ∷ "TOKEN_BUDGET_EXHAUSTED"
    ∷ "COST_BUDGET_EXHAUSTED" ∷ "CONTEXT_COMPACTED" ∷ "MESSAGES_DROPPED" ∷ "RUN_STARTED"
    ∷ "RUN_ENDED" ∷ []

abbrev pub stream_content : List String
stream_content =
    "CHUNK" ∷ "SUBAGENT_CHUNK" ∷ "TEXT_RESULT" ∷ "STEP_COMMITTED" ∷ "SUBAGENT_STARTED"
    ∷ "SUBAGENT_COMPLETED" ∷ "SUBAGENT_FAILED" ∷ []

abbrev pub reserved_event_types : List String
reserved_event_types =
    "CHUNK" ∷ "STATE_CHANGE" ∷ "STEP_COMMITTED" ∷ "STEP_FINISHED" ∷ "INPUT_REQUIRED"
    ∷ "INPUT_EXPIRED" ∷ "HITL_RESPONSE" ∷ "MESSAGE_APPENDED" ∷ "MESSAGES_DROPPED"
    ∷ "CONTEXT_COMPACTED" ∷ "SUBAGENT_STARTED" ∷ "SUBAGENT_CHUNK" ∷ "SUBAGENT_COMPLETED"
    ∷ "SUBAGENT_FAILED" ∷ "TEXT_RESULT" ∷ "THREAD_DELETED" ∷ "HEARTBEAT" ∷ "RUN_REFUSED"
    ∷ "TOKEN_BUDGET_EXHAUSTED" ∷ "COST_BUDGET_EXHAUSTED" ∷ "RUN_STARTED" ∷ "RUN_ENDED"
    ∷ "RECORD_CHANGED" ∷ "SNAPSHOT" ∷ []

unfoldable pub is_in : String → List String → Bool
is_in name names = any (str_eq name) names

-- What is published: its type, its payload, the run ids that the payload names itself and in its
-- `resume`, and the form that the segment reads.
pub record Notice : Type 0 where
  pub type_name : String
  pub payload : String
  pub named_run : Option String
  pub resumed_run : Option String
  pub shape : Published

pub record Outlets : Type 0 where
  pub rows : List AgentEvent
  pub bus : List AgentEvent
  pub segment : Option SegmentStream

-- An empty run id is none given.
abbrev pub run_of : Notice → Option String → Option String
run_of n given =
    let own = or_first n.named_run n.resumed_run in
    if str_eq (or_else given "") "" then own else given
  where
    or_first : Option String → Option String → Option String
    or_first none b = b
    or_first (some a) b = some a

-- A type that `forward` has no case for goes by its own name.
abbrev pub shape_of : Notice → Published → Published
shape_of n (other_type name value reserved) =
    other_type n.type_name n.payload (is_in n.type_name reserved_event_types)
shape_of n p = p

abbrev pub forward_open : Option SegmentStream → Notice → Option SegmentStream
forward_open none n = none
forward_open (some s) n = some (forward s (shape_of n n.shape))

-- `toSegment`.
unfoldable pub to_segment : Outlets → Notice → Outlets
to_segment o n = record o { segment = forward_open o.segment n }

unfoldable pub record_notice : Outlets → ℕ → String → Notice → Option String → Outlets × AgentEvent
record_notice o now thread n run_id =
    let new : NewThreadEvent = record {
      new_type = n.type_name;
      new_payload = n.payload;
      new_run_id = run_id;
      new_created_at = none;
    } in
    let (rows, event) = append thread now new o.rows in
    let sent = record o { rows = rows; bus = o.bus ++ (event ∷ []) } in
    (if is_in n.type_name reserved_event_types then to_segment sent n else sent, event)

abbrev pub live_event : String → ℕ → Notice → AgentEvent
live_event thread now n = record {
  thread_id = thread;
  seq = 0;
  type_name = n.type_name;
  payload = n.payload;
  created_at = now;
  run_id = none;
}

abbrev pub has_segment : Option SegmentStream → Bool
has_segment none = false
has_segment (some s) = true

unfoldable pub publish_notice : Outlets → ℕ → String → Notice → Outlets × AgentEvent
publish_notice o now thread n =
    let event = live_event thread now n in
    let is_custom = not (is_in n.type_name reserved_event_types) in
    let sent = record o { bus = o.bus ++ (event ∷ []) } in
    (
      if has_segment o.segment && (is_custom || is_in n.type_name stream_content)
          then to_segment o n
          else to_segment sent n,
      event,
    )

unfoldable pub publish : Outlets → ℕ → String → Notice → Option String → Outlets × AgentEvent
publish o now thread n run_id =
    if is_in n.type_name record_event_types
    then record_notice o now thread n (run_of n run_id)
    else publish_notice o now thread n

-- None where it throws: no type, or one of the platform's.
unfoldable pub publish_event : Outlets → ℕ → String → Notice → Bool → Option (Outlets × AgentEvent)
publish_event o now thread n durable =
    if str_eq n.type_name "" || is_in n.type_name reserved_event_types
    then none
    else some (
        if durable
        then record_notice o now thread n (run_of n none)
        else publish_notice o now thread n)
