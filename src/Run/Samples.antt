-- ===== src/Run/Samples.antt =====
-- A run that is accepted, and one that is stopped before its dispatch.
use agentic_kit.Base.{false, ◌≡◌, refl, true, [], ◌∷◌, none, lookup, insert}
use agentic_kit.Kv.{init, get, get_entry, set, sweep, drop_past}
use agentic_kit.Threads.{Thread, idle, cancelled, transition}
use agentic_kit.Queue.{enqueue}
use agentic_kit.Messages.{append_message, list_messages}
use agentic_kit.Publish.{run_id_key, state_key, state_name, move_thread}
use agentic_kit.Stop.{record_stopped_run}
use agentic_kit.Run.{
  Meanwhile, RunStore, RunInput, RunConfig, accepted, stopped_before, dispatch_active, dispatch_run,
  run,
}

abbrev resting : Thread
resting = record { id = "t"; state = idle; model = "m"; created_at = 1; updated_at = 1 }

abbrev quiet_store : RunStore
quiet_store = record {
  threads = record { threads = ("t", resting) ∷ []; runs = [] };
  kv = init 0;
  queue = record { items = []; max_depth = 0 };
  messages = [];
  admin = record { run_rows = []; settle_tokens = [] };
}

abbrev hello : RunInput
hello = record {
  thread_id = "t";
  prompt = "\"hello\"";
  model = "m";
  agent = "a";
  run_id = "r";
  edit_message_id = none;
  max_steps = 0;
  token_budget = none;
  cost_budget_micros = none;
  state = none;
  provider_options = none;
  partition_key = none;
}

abbrev config : RunConfig
config = record { max_queue_depth = 0; max_steps = 20 }

-- A stop between the message and the dispatch.
abbrev stops : RunStore → RunStore
stops s = record s {
  threads = record {
    threads = ("t", record resting { state = cancelled }) ∷ [];
    runs = s.threads.runs;
  };
}

abbrev leaves : RunStore → RunStore
leaves s = s

abbrev alone : Meanwhile
alone = record {
  before_claim = leaves;
  before_open = leaves;
  before_look = leaves;
  before_message = leaves;
  before_look_again = leaves;
  before_look_last = leaves;
  before_send = leaves;
  before_fail = leaves;
  throws = λ place. false;
  failure = "";
}

abbrev stopped_late : Meanwhile
stopped_late = record alone { before_look_last = stops }

hello_accepted : (run config hello true "m1" "d" 10 alone quiet_store).1 ≡ accepted
unfolding run dispatch_run dispatch_active init get get_entry set sweep drop_past enqueue
    move_thread run_id_key state_key state_name transition lookup insert record_stopped_run
    append_message list_messages
hello_accepted = refl

hello_stopped : (run config hello true "m1" "d" 10 stopped_late quiet_store).1 ≡ stopped_before
unfolding run dispatch_run dispatch_active init get get_entry set sweep drop_past enqueue
    move_thread run_id_key state_key state_name transition lookup insert record_stopped_run
    append_message list_messages
hello_stopped = refl
