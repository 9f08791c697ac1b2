-- ===== src/Run/Dispatched.antt =====
-- A dispatched run has a job, and one whose dispatch failed does not hold its thread.
use agentic_kit.Base.{ℕ, ◌≡◌, ◌⊎◌, true, false, some, any, is_text, lookup}
use agentic_kit.Kv.{Kv, get}
use agentic_kit.Threads.{Thread, queued, is_state, is_other_run}
use agentic_kit.Queue.{QueueError, is_run}
use agentic_kit.Publish.{run_id_key}
use agentic_kit.Run.{
  threw, Meanwhile, RunStore, RunInput, RunResult, accepted, stopped_before, dispatch_failed,
  Refusal, refused, active_run,
}

-- What a look that finds the run its own leaves: the same stores, a queued thread and the run's id.
abbrev pub IsOurs : RunInput → ℕ → RunStore → Type 0
IsOurs i now c =
    (t : Thread) × (lookup i.thread_id c.threads.threads ≡ some t)
    × (is_state t.state queued ≡ true)
    × (is_text (get c.kv (run_id_key i.thread_id) now).1 i.run_id ≡ true)

-- The run's job is on the queue, its thread was queued for it at the last look, and since then the
-- threads have changed by what others did only.
abbrev pub HasJob : RunInput → ℕ → Meanwhile → RunStore → Type 0
HasJob i now m s =
    (any (is_run i.run_id) s.queue.items ≡ true)
    × ((c : RunStore) × IsOurs i now c × (s.threads ≡ (m.before_send c).threads))

-- The thread is not queued for the run: it is in another state, or belongs to another run.
abbrev pub IsLeft : RunInput → ℕ → RunStore → Type 0
IsLeft i now s =
    ((t : Thread) → lookup i.thread_id s.threads.threads ≡ some t → is_state t.state queued ≡ false)
    ⊎ ((is_other_run (some i.run_id) (lookup i.thread_id s.threads.runs) ≡ true)
        ⊎ (is_text (get s.kv (run_id_key i.thread_id) now).1 i.run_id ≡ false))

abbrev pub IsDispatched : RunInput → ℕ → Meanwhile → RunStore × RunResult → Type 0
IsDispatched i now m (s, r) =
    (r ≡ stopped_before)
    ⊎ (((r ≡ accepted) × HasJob i now m s)
        ⊎ ((((e : QueueError) × (r ≡ dispatch_failed e)) ⊎ (r ≡ threw)) × IsLeft i now s))

-- What a refusal leaves as it was.
abbrev pub IsSame : RunStore → RunStore → Type 0
IsSame s s' =
    (s'.threads ≡ s.threads)
    × (s'.queue ≡ s.queue)
    × (s'.messages ≡ s.messages)
    × (s'.admin ≡ s.admin)

-- A refusal by the checks changes nothing, one at the claim nothing but what others changed before it.
abbrev pub IsStarted : RunInput → ℕ → Meanwhile → RunStore → RunStore × RunResult → Type 0
IsStarted i now m s (s', r) =
    ((why : Refusal) × (r ≡ refused why) × IsSame s s')
    ⊎ (((kv : Kv) × (r ≡ refused active_run) × IsSame (m.before_claim (record s { kv = kv })) s')
        ⊎ IsDispatched i now m (s', r))
