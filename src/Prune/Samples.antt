-- ===== src/Prune/Samples.antt =====
-- A clean-up in batches of one row, and one with a batch size of 0, which does not end.
use agentic_kit.Base.{ℕ, String, ◌≡◌, refl, false, [], ◌∷◌, none, some, arith}
use agentic_kit.Events.{AgentEvent}
use agentic_kit.Prune.{
  Rows, stream_only_types, PruneReport, prune_events, prune_batches, prune, prune_rows, prune_list,
  is_spent, sum_counts, add_counts, add_count,
}
use agentic_kit.Prune.Emptied.{rows_others, rows_count, prune_events_done}

abbrev row : ℕ → String → AgentEvent
row n type_name = record {
  thread_id = "t";
  seq = n;
  type_name = type_name;
  payload = "{}";
  created_at = n;
  run_id = none;
}

abbrev old_rows : Rows
old_rows = ("t", row 1 "CHUNK" ∷ row 2 "RUN_STARTED" ∷ row 3 "HEARTBEAT" ∷ []) ∷ []

old_rows_pruned :
    prune_events 1 false 3 old_rows
    ≡ some (
      ("t", row 2 "RUN_STARTED" ∷ []) ∷ [],
      record { by_type = ("CHUNK", 1) ∷ ("HEARTBEAT", 1) ∷ []; total = 2; batches = 3 },
    )
unfolding prune_events prune_batches prune prune_rows prune_list is_spent sum_counts add_counts
    add_count
old_rows_pruned = refl

batch_of_none : prune_events 0 false 3 old_rows ≡ none
unfolding prune_events prune_batches prune prune_rows prune_list is_spent sum_counts add_counts
    add_count
batch_of_none = refl

prune_events_done_example :
    (report : PruneReport) × (prune_events 1 false 3 old_rows
      ≡ some (rows_others stream_only_types old_rows, report))
    × (report.total ≡ rows_count stream_only_types old_rows)
prune_events_done_example = prune_events_done 1 3 old_rows (omega arith) (omega arith)
