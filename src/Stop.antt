-- ===== src/Stop.antt =====
-- A user's stop, packages/agentenkit/src/core/stop.ts: the thread is moved, the run's record closed and
-- every open park answered with a cancellation. The settle that it then starts under the run lock is
-- that of Settling, and what it publishes that of Publish.
pub mod Closing
pub mod Outcome
mod Samples
use agentic_kit.Base.{
  ℕ, ◌-◌, Bool, true, false, not, ◌&&◌, ◌||◌, List, [], ◌∷◌, ◌++◌, Option, none, some, String,
  str_eq, if◌then◌else◌, or_else, drop, lookup, insert, any,
}
use agentic_kit.Kv.{Kv, get}
use agentic_kit.Threads.{
  ExecutionState, cancelled, waiting_for_input, Thread, ThreadStore, ThreadTransition, is_state,
}
use agentic_kit.History.{Message, tool, parts, tool_result, has}
use agentic_kit.Settling.{RunRecord, AdminStore}
use agentic_kit.Publish.{run_id_key, active_states, move_thread}
use agentic_kit.Hitl.{
  HitlFrame, NestedDescriptor, PendingHitl, InputRequired, HitlStore, answered_ids, load_open_hitls,
}

-- The tool messages that answer, and the nested runs whose records are closed.
pub record Closed : Type 0 where
  pub closed : List String
  pub added : List Message
  pub stopped : List String

abbrev pub stopped_result : String
stopped_result = "{\"cancelled\":true,\"reason\":\"stopped\"}"

abbrev pub stopped_message : String → String → Message
stopped_message tool_call_id tool_name = record {
  id = "";
  role = tool;
  content = parts (tool_result tool_call_id tool_name stopped_result ∷ []);
}

abbrev pub nested_ids : Option NestedDescriptor → List String
nested_ids none = []
nested_ids (some d) = d.agent_id ∷ []

abbrev pub close_frame : Closed → HitlFrame → Closed
close_frame c f = if has f.tool_call_id c.closed then c else record {
  closed = f.tool_call_id ∷ c.closed;
  added = c.added ++ (stopped_message f.tool_call_id "spawnSubagent" ∷ []);
  stopped = c.stopped ++ nested_ids f.nested;
}

unfoldable pub close_frames : Closed → List HitlFrame → Closed
close_frames c [] = c
close_frames c (f ∷ fs) = close_frames (close_frame c f) fs

-- The frames that still wait.
abbrev pub waiting_frames : PendingHitl → List HitlFrame
waiting_frames p = if p.landed then drop (or_else p.resume_frame 0) p.frames else p.frames

abbrev pub close_call : Closed → PendingHitl → Closed
close_call c p = if p.landed then c else record c {
  added = c.added ++ (stopped_message p.tool_call_id p.tool_name ∷ []);
  stopped = c.stopped ++ nested_ids p.nested;
}

abbrev pub close_park : Closed → PendingHitl → Closed
close_park c p = close_frames (close_call c p) (waiting_frames p)

unfoldable pub close_parks : Closed → List PendingHitl → Closed
close_parks c [] = c
close_parks c (p ∷ ps) = close_parks (close_park c p) ps

abbrev pub nothing_closed : Closed
nothing_closed = record { closed = []; added = []; stopped = [] }

-- `recordStoppedRun`, whose patch keeps what it does not name.
abbrev pub stopped_row : ℕ → RunRecord → RunRecord
stopped_row ended_at r = record r {
  state = cancelled;
  stop_reason = some "cancelled";
  ended_at = some ended_at;
  duration_ms = some (ended_at - r.started_at);
}

abbrev pub record_found : AdminStore → String → ℕ → Option RunRecord → AdminStore
record_found admin run_id ended_at none = admin
record_found admin run_id ended_at (some r) =
    if is_state r.state cancelled
    then admin
    else record admin { run_rows = insert run_id (stopped_row ended_at r) admin.run_rows }

unfoldable pub record_stopped_run : AdminStore → String → ℕ → AdminStore
record_stopped_run admin run_id ended_at =
    record_found admin run_id ended_at (lookup run_id admin.run_rows)

unfoldable pub record_stopped_runs : AdminStore → List String → ℕ → AdminStore
record_stopped_runs admin [] ended_at = admin
record_stopped_runs admin (id ∷ ids) ended_at =
    record_stopped_runs (record_stopped_run admin id ended_at) ids ended_at

pub record StopStore : Type 0 where
  pub hitl : HitlStore
  pub messages : List Message
  pub admin : AdminStore

unfoldable pub close_open_parks : StopStore → ℕ → String → StopStore
close_open_parks s now thread_id =
    let (kv, current) = get s.hitl.kv (run_id_key thread_id) now in
    let open_parks = load_open_hitls current s.hitl.requested s.hitl.expired s.hitl.answered in
    let c = close_parks nothing_closed open_parks in
    let messages' = s.messages ++ c.added in
    record {
      hitl = record s.hitl { kv = kv; answered = answered_ids messages' };
      messages = messages';
      admin = record_stopped_runs s.admin c.stopped now;
    }

abbrev pub stop_change : Option String → ThreadTransition
stop_change run_id = record {
  from = active_states;
  to = cancelled;
  run_id = run_id;
  new_run_id = none;
}

abbrev pub close_record : AdminStore → Option String → ℕ → AdminStore
close_record admin none now = admin
close_record admin (some run_id) now =
    let closed_row = record_stopped_run admin run_id now in
    if str_eq run_id "" then admin else closed_row

abbrev pub stop_found : StopStore → ℕ → String → Option Thread → StopStore × Bool
stop_found s now thread_id none = (s, false)
stop_found s now thread_id (some t) =
    let (kv, run_id) = get s.hitl.kv (run_id_key thread_id) now in
    let (threads', kv', won) = move_thread s.hitl.threads kv now thread_id (stop_change run_id) in
    let moved = record s {
      hitl = record s.hitl { threads = threads'; kv = kv' };
      admin = close_record s.admin run_id now;
    } in
    if not (any (is_state t.state) active_states)
    then (s, false)
    else if not won
    then (record s { hitl = record s.hitl { kv = kv } }, false)
    else (
      if is_state t.state waiting_for_input then close_open_parks moved now thread_id else moved,
      true,
    )

unfoldable pub stop : StopStore → ℕ → String → StopStore × Bool
stop s now thread_id = stop_found s now thread_id (lookup thread_id s.hitl.threads.threads)
