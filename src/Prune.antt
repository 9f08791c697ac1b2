-- ===== src/Prune.antt =====
-- The clean-up of the thread record: `pruneEvents` in packages/agentenkit/src/core/prune.ts over
-- `MemoryStorage.events.prune` in packages/agentenkit/src/adapters/memory.ts. `left` is none where the
-- source has Infinity. The loop runs on fuel, one unit for a batch.
pub mod Emptied
mod Samples
use agentic_kit.Base.{
  ℕ, zero, suc, ◌+◌, Bool, true, false, not, ◌&&◌, ◌||◌, List, [], ◌∷◌, Option, none, some, String,
  str_eq, ltb, if◌then◌else◌, any,
}
use agentic_kit.Events.{AgentEvent}

abbrev pub TypeCounts : Type 0
TypeCounts = List (String × ℕ)

-- The rows by thread, in the order of the map.
abbrev pub Rows : Type 0
Rows = List (String × List AgentEvent)

abbrev pub stream_only_types : List String
stream_only_types =
    "CHUNK" ∷ "SUBAGENT_CHUNK" ∷ "STEP_COMMITTED" ∷ "STEP_FINISHED" ∷ "TEXT_RESULT"
    ∷ "SUBAGENT_STARTED" ∷ "SUBAGENT_COMPLETED" ∷ "SUBAGENT_FAILED" ∷ "MESSAGE_APPENDED"
    ∷ "STATE_CHANGE" ∷ "HEARTBEAT" ∷ []

-- `counts[t] = (counts[t] ?? 0) + n`.
unfoldable pub add_count : String → ℕ → TypeCounts → TypeCounts
add_count t n [] = (t, n) ∷ []
add_count t n ((u, m) ∷ cs) =
    let rest = add_count t n cs in if str_eq t u then (u, m + n) ∷ cs else (u, m) ∷ rest

unfoldable pub is_spent : Option ℕ → Bool
is_spent none = false
is_spent (some zero) = true
is_spent (some (suc n)) = false

abbrev pub one_less : Option ℕ → Option ℕ
one_less none = none
one_less (some zero) = some zero
one_less (some (suc n)) = some n

abbrev pub is_one_of : List String → AgentEvent → Bool
is_one_of types e = any (str_eq e.type_name) types

pub record Pruning : Type 0 where
  pub counts : TypeCounts
  pub left : Option ℕ

abbrev pub taken : Pruning → AgentEvent → Pruning
taken p e = record { counts = add_count e.type_name 1 p.counts; left = one_less p.left }

-- The filter of one thread's rows.
unfoldable pub prune_list :
    List String → Bool → Pruning → List AgentEvent → List AgentEvent × Pruning
prune_list types dry p [] = ([], p)
prune_list types dry p (e ∷ es) =
    let hit = not (is_spent p.left) && is_one_of types e in
    let (kept, q) = prune_list types dry (if hit then taken p e else p) es in
    (if hit && not dry then kept else e ∷ kept, q)

unfoldable pub prune_rows : List String → Bool → Pruning → Rows → Rows × Pruning
prune_rows types dry p [] = ([], p)
prune_rows types dry p ((t, es) ∷ rows) =
    let (kept, q) = prune_list types dry p es in
    let (others, end) = prune_rows types dry q rows in ((t, kept) ∷ others, end)

-- `MemoryStorage.events.prune`.
unfoldable pub prune : List String → ℕ → Bool → Rows → Rows × TypeCounts
prune types limit dry rows =
    let (kept, p) =
      prune_rows types dry (record { counts = []; left = if dry then none else some limit }) rows in
    (kept, p.counts)

pub record PruneReport : Type 0 where
  pub by_type : TypeCounts
  pub total : ℕ
  pub batches : ℕ

unfoldable pub sum_counts : TypeCounts → ℕ
sum_counts [] = 0
sum_counts ((t, n) ∷ cs) = n + sum_counts cs

unfoldable pub add_counts : TypeCounts → TypeCounts → TypeCounts
add_counts by_type [] = by_type
add_counts by_type ((t, n) ∷ cs) = add_counts (add_count t n by_type) cs

abbrev pub reported : PruneReport → TypeCounts → PruneReport
reported r counts = record {
  by_type = add_counts r.by_type counts;
  total = r.total + sum_counts counts;
  batches = suc r.batches;
}

unfoldable pub prune_batches : ℕ → Bool → ℕ → PruneReport → Rows → Option (Rows × PruneReport)
prune_batches limit dry zero report rows = none
prune_batches limit dry (suc fuel) report rows =
    let (kept, counts) = prune stream_only_types limit dry rows in
    let done = reported report counts in
    let rest = prune_batches limit dry fuel done kept in
    if dry || ltb (sum_counts counts) limit then some (kept, done) else rest

abbrev pub no_report : PruneReport
no_report = record { by_type = []; total = 0; batches = 0 }

unfoldable pub prune_events : ℕ → Bool → ℕ → Rows → Option (Rows × PruneReport)
prune_events limit dry fuel rows = prune_batches limit dry fuel no_report rows
