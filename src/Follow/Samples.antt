-- ===== src/Follow/Samples.antt =====
-- A follower that hears the second of two entries only.
use agentic_kit.Base.{
  ℕ, ◌+◌, ◌≤◌, ◌≡◌, refl, List, [], ◌∷◌, some, none, take, drop, length, arith, inr,
}
use agentic_kit.Events.{AgentEvent, NewThreadEvent, append, top_seq, list_since, by_seq, put_in}
use agentic_kit.Follow.{
  Follower, start_at, on_bus, replay, drain, take_queued, from_storage, fill, deliver,
}
use agentic_kit.Follow.World.{World, stores, hears, replays, drains, takes, here, next}
use agentic_kit.Follow.Taking.{durables}
use agentic_kit.Follow.Complete.{Reach-followed}

abbrev started : NewThreadEvent
started = record {
  new_type = "RUN_STARTED";
  new_payload = "{}";
  new_run_id = none;
  new_created_at = none;
}

abbrev one_row : List AgentEvent
one_row = (append "t" 1 started []).0

abbrev two_rows : List AgentEvent
two_rows = (append "t" 2 started one_row).0

abbrev second : AgentEvent
second = (append "t" 2 started one_row).1

abbrev listening : Follower
listening = drain (replay (start_at 0) []) (some [] ∷ [])

abbrev caught_up : World
caught_up = record {
  rows = two_rows;
  follower = take_queued (on_bus listening second) (some two_rows ∷ []);
}

both_yielded : caught_up.follower.out ≡ two_rows
unfolding take_queued on_bus drain replay from_storage fill deliver append list_since by_seq put_in
    top_seq
both_yielded = refl

Reach-followed_example :
    (n : ℕ) × (durables caught_up.follower.out ≡ take n (drop 0 two_rows))
    × (caught_up.follower.last_seq ≡ 0 + n)
    × (0 + n ≤ length two_rows)
unfolding append
Reach-followed_example =
    Reach-followed 0 [] caught_up tt (omega arith)
      (next
        (next
          (next (next (next (next here replays) (drains [])) (stores "t" 1 started))
            (stores "t" 2 started))
          (hears second (inr (1, refl))))
        (takes []))
      ((((((tt, tt), tt), tt), tt), tt), tt)
