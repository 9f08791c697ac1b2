-- ===== src/Queue.antt =====
-- The queue held in memory, `MemoryQueue` in packages/agentenkit/src/adapters/memory.ts, with the
-- records of packages/agentenkit/src/ports/queue.ts and `RunJob` of
-- packages/agentenkit/src/core/types.ts. An item is a job with its key, priority and delay, which the
-- code keeps in a map beside the job and, for the delay, in a list beside the items. A job's state and
-- provider options stand as their JSON. Times are in milliseconds.
pub mod Keys
pub mod Draining
mod Samples
use agentic_kit.Base.{
  ℕ, zero, suc, ◌+◌, ◌-◌, ◌*◌, Bool, true, false, not, ◌&&◌, ◌||◌, List, [], ◌∷◌, ◌++◌, map, Option,
  none, some, String, str_eq, ◌==◌, ltb, leb, if◌then◌else◌, or_else, is_some, is_text, any,
  count_if, keep_if, length,
}

pub data JobKind : Type 0 where
  retry redrive resume expiry reclaim : JobKind

pub record RunJob : Type 0 where
  pub thread_id : String
  pub model : String
  pub agent : Option String
  pub run_id : Option String
  pub dispatch_id : Option String
  pub enqueued_at : Option ℕ
  pub kind : Option JobKind
  pub state : Option String
  pub token_budget : Option ℕ
  pub cost_budget_micros : Option ℕ
  pub provider_options : Option String
  pub max_steps : Option ℕ
  pub partition_key : Option String
  pub dispatched_at : Option ℕ

pub data QueueError : Type 0 where
  queue_full duplicate_job : QueueError

pub record EnqueueOptions : Type 0 where
  pub delay_seconds : Option ℕ
  pub key : Option String
  -- May be below 0, as `PRIORITY_LOW` is: a text of the number.
  pub priority : Option String

pub record Item : Type 0 where
  pub job : RunJob
  pub options : EnqueueOptions

pub record MemoryQueue : Type 0 where
  pub items : List Item
  pub max_depth : ℕ

-- An empty key is no key.
abbrev pub has_key : String → Item → Bool
has_key key i = is_text i.options.key key

abbrev pub key_text : Option String → String
key_text k = or_else k ""

abbrev pub has_no_delay : Item → Bool
has_no_delay i = or_else i.options.delay_seconds 0 == 0

abbrev pub is_duplicate : MemoryQueue → Option String → Bool
is_duplicate q key = let k = key_text key in not (str_eq k "") && any (has_key k) q.items

abbrev pub is_full : MemoryQueue → RunJob → Bool
is_full q job =
    (ltb 0 q.max_depth && not (is_some job.kind)) && leb q.max_depth (count_if has_no_delay q.items)

abbrev pub item_of : RunJob → EnqueueOptions → Item
item_of job opts = record { job = job; options = opts }

unfoldable pub enqueue : MemoryQueue → RunJob → EnqueueOptions → MemoryQueue × Option QueueError
enqueue q job opts =
    let added = record q { items = q.items ++ (item_of job opts ∷ []) } in
    if is_duplicate q opts.key
    then (q, some duplicate_job)
    else (if is_full q job then (q, some queue_full) else (added, none))

-- The items without those under the key.
unfoldable pub cancel : MemoryQueue → String → MemoryQueue
cancel q key = record q {
  items = keep_if (λ i. not (not (str_eq key "") && has_key key i)) q.items;
}

pub record QueuedJob : Type 0 where
  pub id : ℕ
  pub queued_run_id : String
  pub queued_thread_id : String
  pub queued_kind : Option JobKind
  pub attempts : ℕ
  pub run_at : ℕ
  pub position : ℕ

abbrev pub is_run : String → Item → Bool
is_run run_id i = not (str_eq run_id "") && is_text i.job.run_id run_id

-- The search from a position on.
unfoldable pub find_from : ℕ → List Item → ℕ → String → Option QueuedJob
find_from at [] now run_id = none
find_from at (i ∷ is) now run_id =
    let rest = find_from (suc at) is now run_id in
    if is_run run_id i then some (found at i now run_id) else rest
  where
    found : ℕ → Item → ℕ → String → QueuedJob
    found at i now run_id = record {
      id = at;
      queued_run_id = run_id;
      queued_thread_id = i.job.thread_id;
      queued_kind = i.job.kind;
      attempts = 0;
      run_at = now + or_else i.options.delay_seconds 0 * 1000;
      position = at;
    }

unfoldable pub find : MemoryQueue → ℕ → String → Option QueuedJob
find q now run_id = find_from 0 q.items now run_id

pub record QueueStats : Type 0 where
  pub ready : ℕ
  pub delayed : ℕ
  pub in_flight : ℕ
  pub dead : ℕ
  pub oldest_ready_ms : ℕ
  pub paused : Bool
  pub claim_errors : ℕ

unfoldable pub stats : MemoryQueue → QueueStats
stats q =
    let waits = count_if (λ i. ltb 0 (or_else i.options.delay_seconds 0)) q.items in
    record {
      ready = length q.items - waits;
      delayed = waits;
      in_flight = 0;
      dead = 0;
      oldest_ready_ms = 0;
      paused = false;
      claim_errors = 0;
    }

-- `drain`, where handling a job may put jobs on the queue or take some off it: the queue after, and the
-- jobs in the order they were handled; or the same where a handler threw, with the job at which it did;
-- or that the fuel ran out.
pub data Drained : Type 0 where
  drained : MemoryQueue → List RunJob → Drained
  threw : MemoryQueue → List RunJob → RunJob → Drained
  out_of_fuel : Drained

-- What a handler does to the queue, and whether it returns.
pub data Handled : Type 0 where
  returned thrown : MemoryQueue → Handled

abbrev pub queue_after : Handled → MemoryQueue
queue_after (returned q) = q
queue_after (thrown q) = q

abbrev pub with_handled : RunJob → Drained → Drained
with_handled job out_of_fuel = out_of_fuel
with_handled job (drained q jobs) = drained q (job ∷ jobs)
with_handled job (threw q jobs at) = threw q (job ∷ jobs) at

abbrev pub drain_handled : RunJob → (MemoryQueue → Drained) → Handled → Drained
drain_handled job rest (returned q) = with_handled job (rest q)
drain_handled job rest (thrown q) = threw q [] job

-- One turn of the loop, given the rest of them.
abbrev pub drain_next :
    (RunJob → MemoryQueue → Handled) → MemoryQueue → (MemoryQueue → Drained) → List Item → Drained
drain_next handler q rest [] = drained q []
drain_next handler q rest (i ∷ is) =
    drain_handled i.job rest (handler i.job (record q { items = is }))

unfoldable pub drain : (RunJob → MemoryQueue → Handled) → ℕ → MemoryQueue → Drained
drain handler zero q = drain_next handler q (λ r. out_of_fuel) q.items
drain handler (suc fuel) q = drain_next handler q (λ r. drain handler fuel r) q.items
