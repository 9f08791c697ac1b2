-- ===== src/Settling/Samples.antt =====
-- A run that is claimed and settled.
use agentic_kit.Base.{◌+◌, ◌≤◌, ◌≡◌, refl, Bool, true, false, [], ◌∷◌, none, some, lookup}
use agentic_kit.Threads.{completed}
use agentic_kit.Settling.{RunRecord, AdminStore, claim_settle, end_settle}
use agentic_kit.Settling.Runner.{
  World, idle, here, next, starts, claims, hooks, fine, claim_attempt, counted, Reach, IsPrompt,
  marks, threw_before, mark_attempt,
}
use agentic_kit.Settling.Once.{Reach-billed}
use agentic_kit.Settling.Progress.{Reach-settled}
use agentic_kit.Settling.Claims.{claim_settle-once}

abbrev ended_run : RunRecord
ended_run = record {
  id = "r";
  thread_id = "t";
  parent_run_id = none;
  depth = 0;
  agent = "a";
  model = "m";
  state = completed;
  stop_reason = none;
  error = none;
  started_at = 1;
  enqueued_at = none;
  ended_at = some 9;
  duration_ms = some 8;
  queued_ms = none;
  settled_at = none;
  settling_at = none;
  steps = 1;
  input_tokens = 1;
  cached_input_tokens = 0;
  output_tokens = 1;
  total_tokens = 2;
  attempts = 0;
  prompt = none;
  token_budget = none;
  run_state = none;
  provider_options = none;
  result = none;
  cost_budget_micros = none;
  max_steps = none;
}

abbrev admin : AdminStore
admin = record { run_rows = ("r", ended_run) ∷ []; settle_tokens = [] }

claim_settle-once_example :
    let held = (claim_settle admin 10 "r" "one" 0).0 in
    let settled = end_settle held 12 "r" "one" true in
    (5 ≤ 10 → claim_settle held 11 "r" "two" 5 ≡ (held, false))
    × ((b : Bool) → end_settle held 12 "r" "two" b ≡ held)
    × (claim_settle settled 11 "r" "two" 5 ≡ (settled, false))
unfolding claim_settle lookup
claim_settle-once_example = claim_settle-once admin 10 11 12 "r" "one" "two" 0 5 refl refl

-- Nobody settles yet.
abbrev resting : World
resting = record { store = admin; now = 700000; phase = λ t. idle; billed = 0; lost_marks = 0 }

-- Two settlers, of which the second is refused, and a mark that throws three times.
Reach-billed_example : 0 + counted true ≤ 0 + 0 + 0 + 1 + 1
unfolding claim_attempt claim_settle mark_attempt lookup
Reach-billed_example =
    Reach-billed "r" {w = resting} ended_run refl refl (λ t. refl) refl
      (next
        (next
          (next
            (next
              (next
                (next (next (next here (starts "one" refl)) (starts "two" refl))
                  (claims "one" 0 fine refl))
                (claims "two" 0 fine refl))
              (hooks "one" 700000 true refl))
            (marks "one" true 700000 0 threw_before refl))
          (marks "one" true 700000 1 threw_before refl))
        (marks "one" true 700000 2 threw_before refl))
      ((((((((tt, tt), tt), tt), tt), tt), tt), tt), tt)

Reach-settled_example :
    (w' : World) × (row : RunRecord) × ((r : Reach "r" resting w') × IsPrompt "r" r)
    × (w'.billed ≡ 0 + 1)
    × (lookup "r" w'.store.run_rows ≡ some row)
    × (row.settled_at ≡ some w'.now)
unfolding lookup
Reach-settled_example = Reach-settled "r" "one" ended_run resting refl refl refl (λ u. refl)
