-- ===== src/Stop/Samples.antt =====
-- A stop of a thread that waits for an answer, below a nested run.
use agentic_kit.Base.{◌≡◌, ◌&&◌, refl, true, false, not, [], ◌∷◌, ◌++◌, none, some, any, lookup}
use agentic_kit.Threads.{Thread, waiting_for_input, cancelled, moved, is_state, is_other_run}
use agentic_kit.Kv.{MemEntry}
use agentic_kit.Publish.{active_states}
use agentic_kit.Hitl.{HitlFrame, InputRequired, from_input_required, load_open_hitls, answered_ids}
use agentic_kit.Stop.{StopStore, stop, close_parks, nothing_closed}
use agentic_kit.Stop.Closing.{close_parks_none}
use agentic_kit.Stop.Outcome.{NoneOpen, current, stop_done}

abbrev above : HitlFrame
above = record { agent_id = none; tool_call_id = "p"; nested = none }

abbrev asked : InputRequired
asked = record {
  tool_call_id = "c";
  tool_name = "pay";
  agent_id = some "n";
  arguments = "{}";
  frames = some (above ∷ []);
  nested = none;
  reason = none;
  expires_at = none;
  resume = none;
  created_at = 5;
}

abbrev waits : Thread
waits = record { id = "t"; state = waiting_for_input; model = "m"; created_at = 1; updated_at = 1 }

abbrev holder : MemEntry
holder = record { value = "r"; expires_at = none }

abbrev suspended : StopStore
suspended = record {
  hitl = record {
    threads = record { threads = ("t", waits) ∷ []; runs = ("t", "r") ∷ [] };
    kv = record { m = ("agent:run:t", holder) ∷ []; last_sweep = 0 };
    queue = record { items = []; max_depth = 0 };
    requested = asked ∷ [];
    expired = [];
    answered = [];
  };
  messages = [];
  admin = record { run_rows = []; settle_tokens = [] };
}

stop_done_example :
    let (s', accepted) = stop suspended 10 "t" in
    (accepted ≡ (
      any (is_state waiting_for_input) active_states
      && not (is_other_run (current suspended 10 "t" waits) (lookup "t" (("t", "r") ∷ [])))))
    × (accepted ≡ true → lookup "t" s'.hitl.threads.threads ≡ some (moved waits cancelled 10))
    × (accepted ≡ true → is_state waiting_for_input waiting_for_input ≡ true → NoneOpen s' 10 "t")
    × (accepted ≡ false
        → (s'.hitl.threads ≡ suspended.hitl.threads)
          × (s'.messages ≡ [])
          × (s'.hitl.requested ≡ asked ∷ [])
          × (s'.admin ≡ suspended.admin))
unfolding lookup answered_ids from_input_required
stop_done_example = stop_done suspended 10 "t" waits refl refl ((refl, (refl, tt)), tt)

close_parks_none_example :
    load_open_hitls (some "r") (asked ∷ []) [] (
      answered_ids (
        []
        ++ (close_parks nothing_closed
            (load_open_hitls (some "r") (asked ∷ []) [] (answered_ids []))).added))
    ≡ []
unfolding from_input_required
close_parks_none_example = close_parks_none (some "r") (asked ∷ []) [] [] ((refl, (refl, tt)), tt)
