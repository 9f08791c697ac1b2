-- ===== src/Queue/Samples.antt =====
-- The queue on concrete jobs.
use agentic_kit.Base.{
  ◌≤◌, ◌≡◌, ◌≢◌, max, true, false, [], ◌∷◌, ◌++◌, none, some, String, any, count_if, is_some, ltb,
  arith, length, ◌==◌, if◌then◌else◌,
}
use agentic_kit.Queue.{
  RunJob, EnqueueOptions, MemoryQueue, item_of, enqueue, cancel, has_key, has_no_delay,
  is_duplicate, drain, Handled, returned, thrown,
}
use agentic_kit.Queue.Keys.{IsKeyed, enqueue-IsKeyed, enqueue-depth}
use agentic_kit.Queue.Draining.{of_items, IsDrained, PutsNothing, drain_ends}

abbrev job : RunJob
job = record {
  thread_id = "t";
  model = "m";
  agent = none;
  run_id = some "r";
  dispatch_id = none;
  enqueued_at = none;
  kind = none;
  state = none;
  token_budget = none;
  cost_budget_micros = none;
  provider_options = none;
  max_steps = none;
  partition_key = none;
  dispatched_at = none;
}

abbrev keyed : EnqueueOptions
keyed = record { delay_seconds = none; key = some "k"; priority = none }

abbrev one_job : MemoryQueue
one_job = record { items = item_of job keyed ∷ []; max_depth = 1 }

one_job-IsKeyed : IsKeyed one_job
one_job-IsKeyed k ne = ground arith

enqueue-IsKeyed_example :
    IsKeyed (enqueue one_job job keyed).0
    × IsKeyed (cancel one_job "k")
    × (◌≢◌ {A = String} "k" "" → any (has_key "k") (cancel one_job "k").items ≡ false)
enqueue-IsKeyed_example = enqueue-IsKeyed one_job job keyed "k" one_job-IsKeyed

enqueue-depth_example :
    let (q', error) = enqueue one_job job keyed in
    (is_some job.kind ≡ false
      → ltb 0 one_job.max_depth ≡ true
      → count_if has_no_delay q'.items
        ≤ max one_job.max_depth (count_if has_no_delay one_job.items))
    × (is_some error ≡ true → q' ≡ one_job)
    × (is_some job.kind ≡ true
        → is_duplicate one_job keyed.key ≡ false
        → (error ≡ none) × (q'.items ≡ one_job.items ++ (item_of job keyed ∷ [])))
enqueue-depth_example = enqueue-depth one_job job keyed

-- A handler that throws at its second job.
abbrev throws_late : RunJob → MemoryQueue → Handled
throws_late j q = if length q.items == 0 then thrown q else returned q

throws_late-PutsNothing : PutsNothing throws_late
throws_late-PutsNothing j q = ground arith

drain_ends_example :
    IsDrained 2 (drain throws_late 2 (of_items (item_of job keyed ∷ item_of job keyed ∷ []) 1))
drain_ends_example =
    drain_ends throws_late (of_items (item_of job keyed ∷ item_of job keyed ∷ []) 1) 2
      throws_late-PutsNothing (omega arith)
