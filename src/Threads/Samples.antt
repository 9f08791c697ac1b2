-- ===== src/Threads/Samples.antt =====
-- Threads on concrete transitions.
use agentic_kit.Base.{◌≡◌, refl, false, [], ◌∷◌, none, some, lookup}
use agentic_kit.Threads.{idle, running, Thread, ThreadTransition, ThreadStore, transition}
use agentic_kit.Threads.Transition.{transition-once}

abbrev thread : Thread
thread = record { id = "t"; state = idle; model = "m"; created_at = 1; updated_at = 1 }

abbrev store : ThreadStore
store = record { threads = ("t", thread) ∷ []; runs = ("t", "r1") ∷ [] }

abbrev start_run : ThreadTransition
start_run = record { from = idle ∷ []; to = running; run_id = none; new_run_id = some "r2" }

transition-once_example :
    transition (transition store 5 "t" start_run).0 6 "t" start_run
    ≡ ((transition store 5 "t" start_run).0, false)
unfolding lookup transition
transition-once_example = transition-once store 5 6 "t" start_run start_run refl refl
