-- ===== src/Follow/World.antt =====
-- A follower of a record among those who add to it, and what it keeps.
use agentic_kit.Base.{
  ℕ, suc, ◌+◌, ◌≤◌, ◌≡◌, sym, ap, ap₂, ◌∙◌, List, [], ◌∷◌, ◌++◌, Option, none, some, String, ltb,
  leb, length, take, drop, length-drop, take-more, drop-more, get_elem?-snoc, keep_if-append, All,
  Bool-cases, inl, inr, arith,
}
use agentic_kit.Events.{AgentEvent, NewThreadEvent, top_seq, append, by_seq, put_in}
use agentic_kit.Follow.{Follower, on_bus, yields, replay, drain, catch_up, take_queued}
use agentic_kit.Follow.Taking.{IsKnown, durables, Takes}
use agentic_kit.Follow.Ordered.{IsNumbered}

-- The record and one follower of it. An event is on the bus once it is stored, or is a notice; when
-- and how often the follower hears it is open. What a read of the storage lists is there at each later
-- one. A read that should fill a gap may fail, and then the gap stays; the other reads end the follower
-- where they fail.
pub record World : Type 0 where
  pub rows : List AgentEvent
  pub follower : Follower

pub data Step (w : World) : World → Type 0 where
  stores :
      (thread : String) (now : ℕ) (e : NewThreadEvent)
      → Step w (record w { rows = (append thread now e w.rows).0 })
  hears : (e : AgentEvent) → IsKnown w.rows e → Step w (record w { follower = on_bus w.follower e })
  replays : Step w (record w { follower = replay w.follower w.rows })
  drains :
      (more : List (Option (List AgentEvent)))
      → Step w (record w { follower = drain w.follower (some w.rows ∷ more) })
  drains_unread :
      (more : List (Option (List AgentEvent)))
      → Step w (record w { follower = drain w.follower (none ∷ more) })
  catches_up : Step w (record w { follower = catch_up w.follower w.rows })
  takes :
      (more : List (Option (List AgentEvent)))
      → Step w (record w { follower = take_queued w.follower (some w.rows ∷ more) })
  takes_unread :
      (more : List (Option (List AgentEvent)))
      → Step w (record w { follower = take_queued w.follower (none ∷ more) })

pub data Reach (w : World) : World → Type 0 where
  here : Reach w w
  next : {t u : World} → Reach w t → Step t u → Reach w u

-- No read that should fill a gap has failed.
abbrev pub IsReadStep : {w w' : World} → Step w w' → Type 0
IsReadStep (drains_unread more) = ⊥
IsReadStep (takes_unread more) = ⊥
IsReadStep _ = Unit

abbrev pub IsRead : {w w' : World} → Reach w w' → Type 0
IsRead here = Unit
IsRead (next r s) = IsRead r × IsReadStep s

-- What the follower has yielded of the record since its cursor.
pub record IsFollowing (since : ℕ) (w : World) : Type 0 where
  pub numbered : IsNumbered 0 w.rows
  pub taken : ℕ
  pub cursor : w.follower.last_seq ≡ since + taken
  pub within : since + taken ≤ length w.rows
  pub seen : durables w.follower.out ≡ take taken (drop since w.rows)
  pub pending_known : All (IsKnown w.rows) w.follower.pending
  pub queue_known : All (IsKnown w.rows) w.follower.queue

pub top_seq-numbered :
    (n : ℕ) (rows : List AgentEvent)
    → IsNumbered n rows
    → 1 ≤ length rows
    → top_seq rows ≡ n + length rows
unfolding top_seq
top_seq-numbered n [] h le = absurd (omega (arith, le))
top_seq-numbered n (e ∷ []) (a, h) le = omega (arith, a)
top_seq-numbered n (e ∷ f ∷ es) (a, h) le =
    omega (arith, a, top_seq-numbered (suc n) (f ∷ es) h (omega arith))

pub snoc-IsNumbered :
    (n : ℕ) (rows : List AgentEvent) (e : AgentEvent)
    → IsNumbered n rows
    → e.seq ≡ suc (n + length rows)
    → IsNumbered n (rows ++ (e ∷ []))
snoc-IsNumbered n [] e h q = (omega (arith, q), tt)
snoc-IsNumbered n (x ∷ rows) e (a, h) q = (a, snoc-IsNumbered (suc n) rows e h (omega (arith, q)))

pub next_seq :
    (rows : List AgentEvent) → IsNumbered 0 rows → top_seq rows + 1 ≡ suc (0 + length rows)
unfolding top_seq
next_seq [] h = omega arith
next_seq (e ∷ es) h = omega (arith, top_seq-numbered 0 (e ∷ es) h (omega arith))

pub IsKnown-snoc :
    (rows : List AgentEvent) (x e : AgentEvent) → IsKnown rows e → IsKnown (rows ++ (x ∷ [])) e
IsKnown-snoc rows x e (inl z) = inl z
IsKnown-snoc rows x e (inr (k, g)) = inr (k, get_elem?-snoc k rows x e g)

All-put_in :
    (P : AgentEvent → Type 0) (e : AgentEvent) (es : List AgentEvent)
    → P e
    → All P es
    → All P (put_in e es)
unfolding put_in
All-put_in P e [] p h = (p, tt)
All-put_in P e (x ∷ es) p (q, h) = elim (Bool-cases (leb e.seq x.seq)) [
  | inl t ↦ rw t (p, (q, h))
  | inr t ↦ rw t (q, All-put_in P e es p h)
]

pub All-by_seq : (P : AgentEvent → Type 0) (es : List AgentEvent) → All P es → All P (by_seq es)
unfolding by_seq
All-by_seq P [] h = tt
All-by_seq P (e ∷ es) (p, h) = All-put_in P e (by_seq es) p (All-by_seq P es h)

-- What a yield keeps, for any places of the follower's lists.
pub yields-IsFollowing :
    (since : ℕ) (rows : List AgentEvent) (f : Follower) (r : List AgentEvent × ℕ)
    → IsFollowing since (record { rows = rows; follower = f })
    → Takes rows f.last_seq r
    → IsFollowing since (record { rows = rows; follower = yields f r })
yields-IsFollowing since rows f (es, last') i (d, s, c, le) = record {
  numbered = i.numbered;
  taken = i.taken + d;
  cursor = omega (arith, c, i.cursor);
  within = omega (arith, le, i.cursor);
  seen =
      keep_if-append (λ e. ltb 0 e.seq) f.out es
      ∙ ap₂ (λ x y. x ++ y) i.seen
          (s
            ∙ ap (λ k. take d (drop k rows)) i.cursor
            ∙ ap (take d) (sym (drop-more since i.taken rows)))
      ∙ take-more i.taken d (drop since rows)
          (omega (arith, i.within, length-drop since rows (omega (arith, i.within))));
  pending_known = i.pending_known;
  queue_known = i.queue_known;
}

-- The waiting events may change for others that are known.
pub relisted :
    (since : ℕ) (rows : List AgentEvent) (f g : Follower)
    → IsFollowing since (record { rows = rows; follower = f })
    → g.last_seq ≡ f.last_seq
    → g.out ≡ f.out
    → All (IsKnown rows) g.pending
    → All (IsKnown rows) g.queue
    → IsFollowing since (record { rows = rows; follower = g })
relisted since rows f g i a b p q = record {
  numbered = i.numbered;
  taken = i.taken;
  cursor = a ∙ i.cursor;
  within = i.within;
  seen = ap durables b ∙ i.seen;
  pending_known = p;
  queue_known = q;
}

pub cursor_within :
    (since : ℕ) (w : World) → IsFollowing since w → w.follower.last_seq ≤ length w.rows
cursor_within since w i = omega (arith, i.cursor, i.within)
