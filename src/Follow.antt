-- ===== src/Follow.antt =====
-- Following a thread's events, `followEvents` of packages/agentenkit/src/core/follow.ts, and its cursor.
-- The bus may lose, repeat and reorder what it carries: whatever it hands over is a call of `on_bus`.
-- A read of the storage is what it listed, or a failure. A cursor of -1 is 0 here: stored events are
-- numbered from 1. `out` is what the follower has yielded.
pub mod Ordered
pub mod Taking
pub mod World
pub mod Complete
mod Samples
use agentic_kit.Base.{
  ℕ, suc, ◌+◌, ◌≤◌, Bool, true, false, not, ◌&&◌, ◌||◌, List, [], ◌∷◌, ◌++◌, Option, none, some,
  ltb, leb, ◌==◌, if◌then◌else◌, length,
}
use agentic_kit.Events.{AgentEvent, list_since, by_seq}

pub data Phase : Type 0 where
  subscribed draining live : Phase

pub record Follower : Type 0 where
  pub last_seq : ℕ
  pub phase : Phase
  pub pending : List AgentEvent
  pub queue : List AgentEvent
  pub overflow : Bool
  pub out : List AgentEvent

abbrev pub start_at : ℕ → Follower
start_at since = record {
  last_seq = since;
  phase = subscribed;
  pending = [];
  queue = [];
  overflow = false;
  out = [];
}

-- `MAX_LIVE_QUEUE`.
abbrev pub max_live_queue : ℕ
max_live_queue = 10000

abbrev pub is_live : Phase → Bool
is_live live = true
is_live _ = false

-- The subscription's callback.
unfoldable pub on_bus : Follower → AgentEvent → Follower
on_bus f e =
    let waits = record f { pending = f.pending ++ (e ∷ []) } in
    let queues = record f { queue = f.queue ++ (e ∷ []) } in
    let drops = record f { queue = e ∷ []; overflow = true } in
    if not (is_live f.phase)
    then waits
    else (if leb max_live_queue (length f.queue) then drops else queues)

abbrev pub is_from : Option ℕ → ℕ → Bool
is_from none seq = false
is_from (some up_to) seq = leb up_to seq

-- `fromStorage` on what was listed: what it gives, and the cursor.
unfoldable pub from_storage : List AgentEvent → Option ℕ → ℕ → List AgentEvent × ℕ
from_storage [] up_to last = ([], last)
from_storage (e ∷ es) up_to last =
    let (taken, last') = from_storage es up_to e.seq in
    let passed = from_storage es up_to last in
    if is_from up_to e.seq
    then ([], last)
    else (if ltb last e.seq then (e ∷ taken, last') else passed)

-- The attempts to fill a gap below an event, by what the storage holds at each, or a failure.
unfoldable pub fill : List (Option (List AgentEvent)) → ℕ → ℕ → List AgentEvent × ℕ
fill [] seq last = ([], last)
fill (none ∷ reads) seq last = ([], last)
fill (some rows ∷ reads) seq last =
    let (found, last') = from_storage (list_since rows last) (some seq) last in
    let (more, last'') = fill reads seq last' in
    if ltb (last + 1) seq then (found ++ more, last'') else ([], last)

unfoldable pub deliver : List (Option (List AgentEvent)) → AgentEvent → ℕ → List AgentEvent × ℕ
deliver reads e last =
    let (found, last') = fill reads e.seq last in
    if e.seq == 0
    then (e ∷ [], last)
    else (if ltb last' e.seq then (found ++ (e ∷ []), e.seq) else (found, last'))

abbrev pub yields : Follower → List AgentEvent × ℕ → Follower
yields f (es, last) = record f { out = f.out ++ es; last_seq = last }

-- The replay of the log, with the sort of what is pending.
unfoldable pub replay : Follower → List AgentEvent → Follower
replay f rows =
    let g = yields f (from_storage (list_since rows f.last_seq) none f.last_seq) in
    record g { pending = by_seq g.pending; phase = draining }

-- One pending event, or the move to live with none.
abbrev pub drain_next : Follower → List (Option (List AgentEvent)) → List AgentEvent → Follower
drain_next f reads [] = record f { phase = live }
drain_next f reads (e ∷ es) = yields (record f { pending = es }) (deliver reads e f.last_seq)

unfoldable pub drain : Follower → List (Option (List AgentEvent)) → Follower
drain f reads = drain_next f reads f.pending

-- One turn of the live loop: a catch-up from the log, or the next queued event.
unfoldable pub catch_up : Follower → List AgentEvent → Follower
catch_up f rows =
    let g = record f { overflow = false; queue = [] } in
    yields g (from_storage (list_since rows f.last_seq) none f.last_seq)

abbrev pub take_next : Follower → List (Option (List AgentEvent)) → List AgentEvent → Follower
take_next f reads [] = f
take_next f reads (e ∷ es) = yields (record f { queue = es }) (deliver reads e f.last_seq)

unfoldable pub take_queued : Follower → List (Option (List AgentEvent)) → Follower
take_queued f reads = take_next f reads f.queue
