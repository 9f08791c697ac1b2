-- ===== src/Lock/Samples.antt =====
-- The run lock at concrete inputs.
use agentic_kit.Base.{◌≡◌, refl, false, none, some, String, arith, lookup, insert}
use agentic_kit.Kv.{Kv, init, set, sweep}
use agentic_kit.Kv.Port.{memory_port}
use agentic_kit.Lock.{
  Lease, acquire, keep, release, tick_start, parse_lock_value, run_lock_key, join,
}
use agentic_kit.Lock.Value.{parse_lock_value-join}
use agentic_kit.Lock.World.{World, Drift, Step, Reach}
use agentic_kit.Lock.Exclusion.{keep-acquire, kept_world}
use agentic_kit.Lock.Release.{release_once}

abbrev ids : String × String × String
ids = ("u", "v", "w")

abbrev other_ids : String × String × String
other_ids = ("x", "y", "z")

abbrev taken_kv : Kv
taken_kv = (acquire memory_port (init 0) "t" (some "r") (some "d") ids 30 100).0

abbrev lease : Lease
lease = record {
  key = run_lock_key "t";
  value = join "r" "d" "w";
  lost_flag = false;
  timer = false;
  released = false;
  last_ok = 0;
  in_flight = false;
}

parse_lock_value-join_example :
    (parse_lock_value (some (join "r" "d" "a/b"))
      ≡ record { run_id = some "r"; dispatch_id = some "d" })
    × (parse_lock_value (some "r") ≡ record { run_id = some "r"; dispatch_id = none })
parse_lock_value-join_example = parse_lock_value-join "r" "d" "a/b" (refl, tt) (refl, tt)

abbrev started : World memory_port
started = kept_world memory_port taken_kv lease 110

abbrev waited : World memory_port
waited = record started { now = 20110 }

keep-acquire_example :
    (memory_port.look waited.kv waited.lease.key waited.now ≡ some waited.lease.value)
    × ((acquire memory_port waited.kv "t" (some "q") none other_ids 30 waited.now).1 ≡ none)
unfolding acquire keep set init lookup sweep
keep-acquire_example =
    keep-acquire memory_port 30 1000 (init 0) taken_kv "t" (some "r") (some "d") (some "q") none ids
      other_ids 100 110 lease waited (omega arith) (omega arith) refl
      (Drift.later Drift.still (omega arith)) (omega arith)
      (Reach.next Reach.here (Step.passes 20110 (omega arith))) refl (omega arith)

release_once_example :
    let (kv', l') = release memory_port taken_kv lease 200 in
    (memory_port.look kv' (run_lock_key "t") 300 ≡ none)
    × (release memory_port kv' l' 400 ≡ (kv', l'))
    × (tick_start l' ≡ (l', false))
unfolding acquire set sweep init lookup insert run_lock_key join
release_once_example =
    release_once memory_port taken_kv lease (run_lock_key "t") 200 400 300 (omega arith) refl
