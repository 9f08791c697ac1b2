-- ===== src/Follow/Complete.antt =====
-- A follower yields the record without a gap, a repeat or a change of order.
use agentic_kit.Base.{
  ℕ, ◌+◌, ◌≤◌, ◌≡◌, refl, sym, ap, ◌∙◌, false, not, List, [], ◌∷◌, Option, none, some, String, leb,
  length, length-append, take, drop, length-drop, drop-append, take-snoc, All, All-append, All-map,
  Bool-cases, inl, inr, arith,
}
use agentic_kit.Events.{AgentEvent, NewThreadEvent, stored, append, list_since}
use agentic_kit.Follow.{
  Follower, start_at, is_live, max_live_queue, on_bus, from_storage, deliver, yields, replay,
  drain_next, drain, catch_up, take_next, take_queued,
}
use agentic_kit.Follow.Taking.{IsKnown, durables, replays-Takes, deliver-Takes}
use agentic_kit.Follow.Ordered.{IsNumbered}
use agentic_kit.Follow.World.{
  World, Step, Reach, IsReadStep, IsRead, stores, hears, replays, drains, drains_unread, catches_up,
  takes, takes_unread, here, next, IsFollowing, snoc-IsNumbered, next_seq, IsKnown-snoc, All-by_seq,
  yields-IsFollowing, relisted, cursor_within,
}

stores-IsFollowing :
    (since : ℕ) (w : World) (thread : String) (now : ℕ) (e : NewThreadEvent)
    → IsFollowing since w
    → IsFollowing since (record w { rows = (append thread now e w.rows).0 })
unfolding append
stores-IsFollowing since w thread now e i =
    let new = stored thread now e w.rows in
    record {
      numbered = snoc-IsNumbered 0 w.rows new i.numbered (next_seq w.rows i.numbered);
      taken = i.taken;
      cursor = i.cursor;
      within = omega (arith, i.within, length-append w.rows (new ∷ []));
      seen =
          i.seen
          ∙ sym (
              ap (take i.taken) (drop-append since w.rows (new ∷ []) (omega (arith, i.within)))
              ∙ take-snoc i.taken (drop since w.rows) new
                  (omega (arith, i.within, length-drop since w.rows (omega (arith, i.within)))));
      pending_known = All-map (IsKnown-snoc w.rows new) w.follower.pending i.pending_known;
      queue_known = All-map (IsKnown-snoc w.rows new) w.follower.queue i.queue_known;
    }

on_bus-IsFollowing :
    (since : ℕ) (rows : List AgentEvent) (f : Follower) (e : AgentEvent)
    → IsKnown rows e
    → IsFollowing since (record { rows = rows; follower = f })
    → IsFollowing since (record { rows = rows; follower = on_bus f e })
unfolding on_bus
on_bus-IsFollowing since rows f e known i = elim (Bool-cases (not (is_live f.phase))) [
  | inl a ↦ simp a (
      relisted since rows f _ i refl refl
        (All-append (IsKnown rows) f.pending (e ∷ []) i.pending_known (known, tt)) i.queue_known)
  | inr a ↦ elim (Bool-cases (leb max_live_queue (length f.queue))) [
    | inl b ↦ simp (a, b) (relisted since rows f _ i refl refl i.pending_known (known, tt))
    | inr b ↦
        simp (a, b)
          (relisted since rows f _ i refl refl i.pending_known
            (All-append (IsKnown rows) f.queue (e ∷ []) i.queue_known (known, tt)))
  ]
]

replay-IsFollowing :
    (since : ℕ) (rows : List AgentEvent) (f : Follower)
    → IsFollowing since (record { rows = rows; follower = f })
    → IsFollowing since (record { rows = rows; follower = replay f rows })
unfolding replay
replay-IsFollowing since rows f i =
    let g = yields f (from_storage (list_since rows f.last_seq) none f.last_seq) in
    relisted since rows g _
      (yields-IsFollowing since rows f _ i
        (replays-Takes rows i.numbered f.last_seq (cursor_within since _ i)))
      refl refl (All-by_seq (IsKnown rows) f.pending i.pending_known) i.queue_known

catch_up-IsFollowing :
    (since : ℕ) (rows : List AgentEvent) (f : Follower)
    → IsFollowing since (record { rows = rows; follower = f })
    → IsFollowing since (record { rows = rows; follower = catch_up f rows })
unfolding catch_up
catch_up-IsFollowing since rows f i =
    let g : Follower = record f { overflow = false; queue = [] } in
    yields-IsFollowing since rows g _ (relisted since rows f g i refl refl i.pending_known tt)
      (replays-Takes rows i.numbered f.last_seq (cursor_within since _ i))

drain-IsFollowing :
    (since : ℕ) (rows : List AgentEvent) (f : Follower) (more : List (Option (List AgentEvent)))
    → IsFollowing since (record { rows = rows; follower = f })
    → IsFollowing since (record { rows = rows; follower = drain f (some rows ∷ more) })
unfolding drain
drain-IsFollowing since rows f more i = each f.pending i.pending_known
  where
    each :
        (es : List AgentEvent)
        → All (IsKnown rows) es
        → IsFollowing since (record { rows = rows; follower = drain_next f (some rows ∷ more) es })
    each [] h = relisted since rows f _ i refl refl i.pending_known i.queue_known
    each (e ∷ es) (known, h) =
        yields-IsFollowing since rows (record f { pending = es })
          (deliver (some rows ∷ more) e f.last_seq)
          (relisted since rows f (record f { pending = es }) i refl refl h i.queue_known)
          (deliver-Takes rows i.numbered f.last_seq e more (cursor_within since _ i) known)

take_queued-IsFollowing :
    (since : ℕ) (rows : List AgentEvent) (f : Follower) (more : List (Option (List AgentEvent)))
    → IsFollowing since (record { rows = rows; follower = f })
    → IsFollowing since (record { rows = rows; follower = take_queued f (some rows ∷ more) })
unfolding take_queued
take_queued-IsFollowing since rows f more i = each f.queue i.queue_known
  where
    each :
        (es : List AgentEvent)
        → All (IsKnown rows) es
        → IsFollowing since (record { rows = rows; follower = take_next f (some rows ∷ more) es })
    each [] h = i
    each (e ∷ es) (known, h) =
        yields-IsFollowing since rows (record f { queue = es })
          (deliver (some rows ∷ more) e f.last_seq)
          (relisted since rows f (record f { queue = es }) i refl refl i.pending_known h)
          (deliver-Takes rows i.numbered f.last_seq e more (cursor_within since _ i) known)

Step-IsFollowing :
    (since : ℕ) {w w' : World} (s : Step w w')
    → IsReadStep s
    → IsFollowing since w
    → IsFollowing since w'
Step-IsFollowing since {w = w} (stores thread now e) _ i = stores-IsFollowing since w thread now e i
Step-IsFollowing since {w = w} (hears e known) _ i =
    on_bus-IsFollowing since w.rows w.follower e known i
Step-IsFollowing since {w = w} replays _ i = replay-IsFollowing since w.rows w.follower i
Step-IsFollowing since {w = w} (drains more) _ i = drain-IsFollowing since w.rows w.follower more i
Step-IsFollowing since {w = w} catches_up _ i = catch_up-IsFollowing since w.rows w.follower i
Step-IsFollowing since {w = w} (takes more) _ i =
    take_queued-IsFollowing since w.rows w.follower more i
Step-IsFollowing since (drains_unread more) h i = absurd h
Step-IsFollowing since (takes_unread more) h i = absurd h

Reach-IsFollowing :
    (since : ℕ) {w w' : World} (r : Reach w w')
    → IsRead r
    → IsFollowing since w
    → IsFollowing since w'
Reach-IsFollowing since here _ i = i
Reach-IsFollowing since (next r s) (p, q) i =
    Step-IsFollowing since s q (Reach-IsFollowing since r p i)

-- From a record that is numbered from 1 and a cursor in it, where no read that should fill a gap
-- fails: whatever the bus loses, repeats or
-- reorders, and however the follower's reads, the queue's overflow and new entries fall between
-- each other, the entries that the follower has yielded are at any time the entries of the record
-- behind the cursor up to where the follower is, each once and in order, and where it is lies
-- within the record.
pub Reach-followed :
    (since : ℕ) (rows : List AgentEvent) (w : World)
    → IsNumbered 0 rows
    → since ≤ length rows
    → (r : Reach (record { rows = rows; follower = start_at since }) w) → IsRead r
    → (n : ℕ) × (durables w.follower.out ≡ take n (drop since w.rows))
      × (w.follower.last_seq ≡ since + n)
      × (since + n ≤ length w.rows)
Reach-followed since rows w h le r read =
    let i = Reach-IsFollowing since r read start in (i.taken, i.seen, i.cursor, i.within)
  where
    start : IsFollowing since (record { rows = rows; follower = start_at since })
    start = record {
      numbered = h;
      taken = 0;
      cursor = omega arith;
      within = omega (arith, le);
      seen = refl;
      pending_known = tt;
      queue_known = tt;
    }
