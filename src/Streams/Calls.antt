-- ===== src/Streams/Calls.antt =====
-- Every call keeps every stream sound.
use agentic_kit.Base.{
  ℕ, ◌+◌, ◌≡◌, refl, ap, ◌∙◌, Bool, true, false, not, List, [], ◌∷◌, Option, none, some, String,
  lookup, keep_if, drop, is_some, arith, Bool-cases, Option-cases, inl, inr, All-keep_if,
  AllValues-insert, AllValues-erase, AllValues-keep_if, AllValues-lookup,
}
use agentic_kit.StreamEvents.{StreamEvent, StreamEnd}
use agentic_kit.Streams.{
  StreamMeta, StreamItem, Waiter, MemStream, Streams, live, is_expired, sweep_streams, open_stream,
  new_stream, add_items, append_to, append_events, finish, close_found, close_stream, delete_stream,
  until_end, pass_over, read_pass, leave, snapshot,
}
use agentic_kit.Streams.Sound.{
  IsSound, AllSound, IsEndedBy, add_items-IsSound, finish-IsSound, wait-IsSound,
}

live-AllSound :
    (streams : Streams) (now : ℕ) (id : String)
    → AllSound streams
    → AllSound (live streams now id).0
      × ((s : MemStream) → (live streams now id).1 ≡ some s → IsSound s)
unfolding live
live-AllSound streams now id h = elim (Option-cases (lookup id streams)) [
  | inl e ↦ rw e (h, λ s q. absurd (ground (arith, q)))
  | inr (s, e) ↦ elim (Bool-cases (is_expired now s)) [
    | inl x ↦ rw e (rw x (AllValues-erase IsSound id streams h, λ t q. absurd (ground (arith, q))))
    | inr x ↦ rw e (rw x (h, λ t q. AllValues-lookup IsSound id t streams h (e ∙ q)))
  ]
]

append_to-AllSound :
    (streams : Streams) (id : String) (es : List StreamEvent) (found : Option MemStream)
    → AllSound streams
    → ((s : MemStream) → found ≡ some s → IsSound s)
    → AllSound (append_to streams id es found).0
append_to-AllSound streams id es none h f = h
append_to-AllSound streams id es (some s) h f = elim (Bool-cases (is_some s.end)) [
  | inl e ↦ rw e h
  | inr e ↦
      rw e (
        AllValues-insert IsSound id (add_items s es) streams (add_items-IsSound s es (f s refl) e)
          h)
]

close_found-AllSound :
    (streams : Streams) (id : String) (e : StreamEnd) (t : ℕ) (found : Option MemStream)
    → AllSound streams
    → ((s : MemStream) → found ≡ some s → IsSound s)
    → AllSound (close_found streams id e t found).0
close_found-AllSound streams id x t none h f = h
close_found-AllSound streams id x t (some s) h f = elim (Bool-cases (is_some s.end)) [
  | inl e ↦ rw e h
  | inr e ↦
      rw e (AllValues-insert IsSound id (finish s x t) streams (finish-IsSound s x t (f s refl)) h)
]

pub until_end-open : (is : List StreamItem) → (until_end is).1 ≡ false → (until_end is).0 ≡ is
unfolding until_end
until_end-open [] h = refl
until_end-open (i ∷ is) h = ground (arith, until_end-open is, h)

pass_over-AllSound :
    (streams : Streams) (id : String) (reader next : ℕ) (found : Option MemStream)
    → AllSound streams
    → ((s : MemStream) → found ≡ some s → IsSound s)
    → AllSound (pass_over streams id reader next found).0
pass_over-AllSound streams id reader next none h f = h
pass_over-AllSound streams id reader next (some s) h f =
    elim (Bool-cases (until_end (drop next s.items)).1) [
      | inl e ↦ rw e h
      | inr e ↦ elim (Bool-cases (is_some s.end)) [
        | inl q ↦ rw e (rw q h)
        | inr q ↦ rw e (
            rw q (
              rw (until_end-open (drop next s.items) e) (
                AllValues-insert IsSound id _ streams (wait-IsSound s reader next q (f s refl)) h)))
      ]
    ]

-- A reader that leaves takes its own waiters off.
left-IsSound :
    (s : MemStream) (p : Waiter → Bool)
    → IsSound s
    → IsSound (record s { waiters = keep_if p s.waiters })
left-IsSound s p (n, e, w) = (n, ended s.end e, All-keep_if p _ s.waiters w)
  where
    ended :
        (o : Option StreamEnd)
        → IsEndedBy s o
        → IsEndedBy (record s { waiters = keep_if p s.waiters }) o
    ended none h = tt
    ended (some x) (l, q) = (l, ap (keep_if p) q)

leave-AllSound :
    (streams : Streams) (id : String) (reader : ℕ)
    → AllSound streams
    → AllSound (leave streams id reader)
unfolding leave
leave-AllSound streams id reader h = elim (Option-cases (lookup id streams)) [
  | inl e ↦ rw e h
  | inr (s, e) ↦ rw e (
      AllValues-insert IsSound id _ streams
        (left-IsSound s _ (AllValues-lookup IsSound id s streams h e)) h)
]

open_stream-AllSound :
    (streams : Streams) (now : ℕ) (id : String) (meta : StreamMeta) (ttl_ms : ℕ)
    → AllSound streams
    → AllSound (open_stream streams now id meta ttl_ms)
unfolding open_stream sweep_streams
open_stream-AllSound streams now id meta ttl_ms h =
    let k = AllValues-keep_if IsSound (λ entry. not (is_expired now entry.1)) streams h in
    elim (Bool-cases (is_some (lookup id (sweep_streams streams now)))) [
      | inl e ↦ rw e k
      | inr e ↦ rw e (AllValues-insert IsSound id (new_stream meta (now + ttl_ms)) _ (tt, tt, tt) k)
    ]

-- What the store can come to hold, by its calls at any times and in any order.
pub data Reachable : Streams → Type 0 where
  start : Reachable []
  opens :
      (streams : Streams) (now : ℕ) (id : String) (meta : StreamMeta) (ttl_ms : ℕ)
      → Reachable streams
      → Reachable (open_stream streams now id meta ttl_ms)
  appends :
      (streams : Streams) (now : ℕ) (id : String) (es : List StreamEvent)
      → Reachable streams
      → Reachable (append_events streams now id es).0
  reads :
      (streams : Streams) (now : ℕ) (id : String) (reader next : ℕ) (is_aborted : Bool)
      → Reachable streams
      → Reachable (read_pass streams now id reader next is_aborted).0
  leaves :
      (streams : Streams) (id : String) (reader : ℕ)
      → Reachable streams
      → Reachable (leave streams id reader)
  looks :
      (streams : Streams) (now : ℕ) (id : String) (after : Option ℕ)
      → Reachable streams
      → Reachable (snapshot streams now id after).0
  closes :
      (streams : Streams) (now : ℕ) (id : String) (e : StreamEnd) (grace_ms : ℕ)
      → Reachable streams
      → Reachable (close_stream streams now id e grace_ms).0
  deletes :
      (streams : Streams) (id : String) → Reachable streams → Reachable (delete_stream streams id)

-- Whatever calls the store has had, in any order and at any times: each stream's items are numbered
-- one after another from 1, a closed stream has its end as its last item and nobody waiting on it,
-- and whoever waits on an open one has had all of its items.
pub Reachable-AllSound : (streams : Streams) → Reachable streams → AllSound streams
unfolding append_events read_pass snapshot close_stream delete_stream
Reachable-AllSound _ start = tt
Reachable-AllSound _ (opens streams now id meta ttl_ms r) =
    open_stream-AllSound streams now id meta ttl_ms (Reachable-AllSound streams r)
Reachable-AllSound _ (appends streams now id es r) =
    let (h, f) = live-AllSound streams now id (Reachable-AllSound streams r) in
    append_to-AllSound (live streams now id).0 id es (live streams now id).1 h f
Reachable-AllSound _ (reads streams now id reader next true r) = Reachable-AllSound streams r
Reachable-AllSound _ (reads streams now id reader next false r) =
    let (h, f) = live-AllSound streams now id (Reachable-AllSound streams r) in
    pass_over-AllSound (live streams now id).0 id reader next (live streams now id).1 h f
Reachable-AllSound _ (leaves streams id reader r) =
    leave-AllSound streams id reader (Reachable-AllSound streams r)
Reachable-AllSound _ (looks streams now id after r) =
    (live-AllSound streams now id (Reachable-AllSound streams r)).0
Reachable-AllSound _ (closes streams now id e grace_ms r) =
    let (h, f) = live-AllSound streams now id (Reachable-AllSound streams r) in
    close_found-AllSound (live streams now id).0 id e (now + grace_ms) (live streams now id).1 h f
Reachable-AllSound _ (deletes streams id r) =
    AllValues-erase IsSound id streams (Reachable-AllSound streams r)
