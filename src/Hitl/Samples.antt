-- ===== src/Hitl/Samples.antt =====
-- A park, its answer, and a second answer.
use agentic_kit.Base.{◌≡◌, ◌≢◌, refl, true, false, [], ◌∷◌, none, some, any, arith, lookup, insert}
use agentic_kit.Kv.{MemEntry, get, get_entry, set, sweep, drop_past}
use agentic_kit.Kv.Reads.{read}
use agentic_kit.Threads.{Thread, running, transition}
use agentic_kit.Queue.{enqueue, cancel}
use agentic_kit.Publish.{move_thread, run_id_key, state_key, state_name}
use agentic_kit.Hitl.{
  HitlConfig, HitlStore, ResumeInfo, ParkInput, RespondInput, delivered, from_input_required,
  opened, load_open_hitls, park_for_approval, respond, hitl_key, expiry_job_key, resume_job_key,
  answer_json, find_match, find_request, hitl_deadline, matches, request_of,
}
use agentic_kit.Hitl.Open.{is_open, load_open_hitls-matches}
use agentic_kit.Hitl.Answering.{respond_once}

abbrev config : HitlConfig
config = record { hitl_ttl_ms = 900000; reclaim_grace_ms = 60000 }

abbrev ticket : ResumeInfo
ticket = record {
  agent = "a";
  model = "m";
  run_id = some "r";
  token_budget = none;
  cost_budget_micros = none;
  provider_options = none;
  state = none;
  max_steps = none;
  dispatched_at = none;
}

abbrev ask : ParkInput
ask = record {
  thread_id = "t";
  tool_call_id = "c";
  tool_name = "pay";
  args = "{}";
  agent_id = none;
  reason = none;
  ttl_ms = none;
  frames = none;
  nested = none;
  resume = ticket;
}

abbrev going : Thread
going = record { id = "t"; state = running; model = "m"; created_at = 1; updated_at = 1 }

abbrev owner : MemEntry
owner = record { value = "r"; expires_at = none }

abbrev busy : HitlStore
busy = record {
  threads = record { threads = ("t", going) ∷ []; runs = ("t", "r") ∷ [] };
  kv = record { m = ("agent:run:t", owner) ∷ []; last_sweep = 0 };
  queue = record { items = []; max_depth = 0 };
  requested = [];
  expired = [];
  answered = [];
}

abbrev parked : HitlStore
parked = park_for_approval config busy 10 "d" ask

abbrev yes : RespondInput
yes = record { thread_id = "t"; tool_call_id = "c"; approved = true; payload = none }

abbrev denial : RespondInput
denial = record { thread_id = "t"; tool_call_id = "c"; approved = false; payload = none }

yes_delivered : (respond config parked 20 "e" yes).1 ≡ delivered
unfolding respond park_for_approval load_open_hitls opened from_input_required find_match
    find_request hitl_deadline hitl_key expiry_job_key resume_job_key move_thread run_id_key
    state_key state_name transition get get_entry set sweep drop_past enqueue cancel lookup insert
yes_delivered = refl

respond_once_example :
    ((respond config (respond config parked 20 "e" yes).0 30 "f" denial).1 ≢ delivered)
    × (read
          (respond config (respond config parked 20 "e" yes).0 30 "f" denial).0.kv
          (hitl_key "c")
          30
        ≡ some (answer_json yes))
respond_once_example =
    respond_once config parked (respond config parked 20 "e" yes).0 20 30 "e" "f" yes denial
      yes_delivered refl refl (omega arith) (omega arith)

load_open_hitls-matches_example :
    any (matches "c") (load_open_hitls (some "r") (request_of config 10 ask ∷ []) [] ("b" ∷ []))
    ≡ any (is_open (some "r") [] ("b" ∷ []) "c") (request_of config 10 ask ∷ [])
load_open_hitls-matches_example =
    load_open_hitls-matches (some "r") (request_of config 10 ask ∷ []) [] ("b" ∷ []) "c"
