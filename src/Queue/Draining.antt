-- ===== src/Queue/Draining.antt =====
-- The loop of `drain`.
use agentic_kit.Base.{
  ℕ, zero, suc, ◌≤◌, ◌<◌, ◌≡◌, ◌⊎◌, refl, ap, List, [], ◌∷◌, map, length, arith, inl, inr,
}
use agentic_kit.Queue.{
  RunJob, Item, MemoryQueue, Drained, drained, threw, Handled, returned, thrown, queue_after,
  with_handled, drain_handled, drain,
}

abbrev pub jobs_of : List Item → List RunJob
jobs_of is = map (λ i. i.job) is

abbrev pub of_items : List Item → ℕ → MemoryQueue
of_items is depth = record { items = is; max_depth = depth }

-- It handles at most so many jobs: all that are left, or up to one whose handler throws.
abbrev pub IsDrained : ℕ → Drained → Type 0
IsDrained n d =
    ((q : MemoryQueue) × (jobs : List RunJob) × (d ≡ drained q jobs)
      × (q.items ≡ [])
      × (length jobs ≤ n))
    ⊎ ((q : MemoryQueue) × (jobs : List RunJob) × (at : RunJob) × (d ≡ threw q jobs at)
        × (length jobs < n))

with_handled-IsDrained :
    (job : RunJob) (n : ℕ) (d : Drained) → IsDrained n d → IsDrained (suc n) (with_handled job d)
with_handled-IsDrained job n d (inl (q, jobs, e, none_left, le)) =
    inl (q, job ∷ jobs, ap (with_handled job) e, none_left, omega (arith, le))
with_handled-IsDrained job n d (inr (q, jobs, at, e, le)) =
    inr (q, job ∷ jobs, at, ap (with_handled job) e, omega (arith, le))

IsDrained-more : (n m : ℕ) (d : Drained) → n ≤ m → IsDrained n d → IsDrained m d
IsDrained-more n m d h (inl (q, jobs, e, none_left, le)) =
    inl (q, jobs, e, none_left, omega (arith, h, le))
IsDrained-more n m d h (inr (q, jobs, at, e, le)) = inr (q, jobs, at, e, omega (arith, h, le))

abbrev pub PutsNothing : (RunJob → MemoryQueue → Handled) → Type 0
PutsNothing handler =
    (job : RunJob) (q : MemoryQueue) → length (queue_after (handler job q)).items ≤ length q.items

module _ (handler : RunJob → MemoryQueue → Handled) (shrinks : PutsNothing handler) where
  turn :
      (i : Item) (q : MemoryQueue) (rest : MemoryQueue → Drained)
      → ((r : MemoryQueue) → length r.items ≤ length q.items → IsDrained (length q.items) (rest r))
      → IsDrained (suc (length q.items)) (drain_handled i.job rest (handler i.job q))
  turn i q rest h = go (handler i.job q) (shrinks i.job q)
    where
      go :
          (d : Handled)
          → length (queue_after d).items ≤ length q.items
          → IsDrained (suc (length q.items)) (drain_handled i.job rest d)
      go (returned r) le = with_handled-IsDrained i.job (length q.items) (rest r) (h r le)
      go (thrown r) le = inr (r, [], i.job, refl, omega arith)

  drain_items :
      (fuel : ℕ) (is : List Item) (depth : ℕ)
      → length is ≤ fuel
      → IsDrained (length is) (drain handler fuel (of_items is depth))
  unfolding drain
  drain_items zero [] depth le = inl (of_items [] depth, [], refl, refl, omega arith)
  drain_items (suc fuel) [] depth le = inl (of_items [] depth, [], refl, refl, omega arith)
  drain_items zero (i ∷ is) depth le = absurd (omega (arith, le))
  drain_items (suc fuel) (i ∷ is) depth le =
      turn i (of_items is depth) (λ r. drain handler fuel r)
        λ r h.
          IsDrained-more (length r.items) (length is) (drain handler fuel r) h
            (drain_items fuel r.items r.max_depth (omega (arith, h, le)))

-- A handler that leaves the queue alone, and returns, gets every job once, in the order in which
-- they were enqueued.
drain-jobs_of :
    (is : List Item) (depth fuel : ℕ)
    → length is ≤ fuel
    → drain (λ job r. returned r) fuel (of_items is depth)
      ≡ drained (of_items [] depth) (jobs_of is)
unfolding drain
drain-jobs_of [] depth zero h = refl
drain-jobs_of [] depth (suc fuel) h = refl
drain-jobs_of (i ∷ is) depth zero h = absurd (omega (arith, h))
drain-jobs_of (i ∷ is) depth (suc fuel) h =
    ap (with_handled i.job) (drain-jobs_of is depth fuel (omega (arith, h)))

-- Whatever the handler does, so long as it leaves no more jobs on the queue than it found: a drain
-- ends, after at most as many turns as there were jobs. Either the queue is empty then, or the
-- handler threw at a job, and fewer jobs were handled than there were.
pub drain_ends :
    (handler : RunJob → MemoryQueue → Handled) (q : MemoryQueue) (fuel : ℕ)
    → PutsNothing handler
    → length q.items ≤ fuel
    → IsDrained (length q.items) (drain handler fuel q)
drain_ends handler q fuel shrinks le = drain_items handler shrinks fuel q.items q.max_depth le
