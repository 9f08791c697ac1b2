-- ===== src/Streams/Sound.antt =====
-- What holds of every stream that the store can come to hold.
use agentic_kit.Base.{
  ℕ, suc, ◌+◌, ◌≤◌, ◌≡◌, refl, ap, ◌∙◌, false, List, [], ◌∷◌, ◌++◌, Option, none, some, length,
  drop, is_some, last?, last?-snoc, length-append, length-drop-le, arith, All, AllValues, subst,
}
use agentic_kit.StreamEvents.{StreamEvent, StreamEnd, ends}
use agentic_kit.Streams.{
  StreamItem, Waiter, MemStream, Streams, number, add_items, finish, waiter_at,
}

-- The items are numbered one after another, after n.
abbrev pub Numbered : ℕ → List StreamItem → Type 0
Numbered n [] = Unit
Numbered n (i ∷ is) = (i.offset ≡ suc n) × Numbered (suc n) is

-- A closed stream has its end as its last item, and nobody waits on it.
abbrev pub IsEndedBy : MemStream → Option StreamEnd → Type 0
IsEndedBy s none = Unit
IsEndedBy s (some e) =
    (last? s.items ≡ some (record { event = ends e; offset = length s.items })) × (s.waiters ≡ [])

abbrev pub IsSound : MemStream → Type 0
IsSound s =
    Numbered 0 s.items × IsEndedBy s s.end × All (λ w. length s.items ≤ w.position) s.waiters

pub Numbered-number : (n : ℕ) (es : List StreamEvent) → Numbered n (number n es)
unfolding number
Numbered-number n [] = tt
Numbered-number n (e ∷ es) = (refl, Numbered-number (suc n) es)

Numbered-append :
    (n m : ℕ) (xs ys : List StreamItem)
    → Numbered n xs
    → Numbered m ys
    → m ≡ n + length xs
    → Numbered n (xs ++ ys)
Numbered-append n m [] ys h k e = subst (λ j. Numbered j ys) (omega (arith, e)) k
Numbered-append n m (x ∷ xs) ys (p, h) k e =
    (p, Numbered-append (suc n) m xs ys h k (omega (arith, e)))

add_items-Numbered :
    (s : MemStream) (es : List StreamEvent) → Numbered 0 s.items → Numbered 0 (add_items s es).items
unfolding add_items
add_items-Numbered s es h =
    Numbered-append 0 (length s.items) s.items (number (length s.items) es) h
      (Numbered-number (length s.items) es) (omega arith)

open_IsEndedBy : (s : MemStream) (o : Option StreamEnd) → is_some o ≡ false → IsEndedBy s o
open_IsEndedBy s none q = tt
open_IsEndedBy s (some x) q = absurd (ground (arith, q))

pub add_items-IsSound :
    (s : MemStream) (es : List StreamEvent)
    → IsSound s
    → is_some s.end ≡ false
    → IsSound (add_items s es)
unfolding add_items
add_items-IsSound s es (n, e, w) h =
    (add_items-Numbered s es n, open_IsEndedBy (add_items s es) s.end h, tt)

pub finish-IsSound : (s : MemStream) (e : StreamEnd) (t : ℕ) → IsSound s → IsSound (finish s e t)
unfolding finish add_items number
finish-IsSound s e t (n, x, w) = (
  add_items-Numbered s (ends e ∷ []) n,
  (
    last?-snoc s.items _
        ∙ ap (λ k. some (record { event = ends e; offset = k }))
            (omega (
              arith,
              length-append s.items (record { event = ends e; offset = suc (length s.items) } ∷ []),
            )),
    refl,
  ),
  tt,
)

pub wait-IsSound :
    (s : MemStream) (reader next : ℕ)
    → is_some s.end ≡ false
    → IsSound s
    → IsSound (record s {
      waiters = s.waiters ++ (waiter_at reader (next + length (drop next s.items)) ∷ []);
    })
wait-IsSound s reader next q (n, e, w) = (
  n,
  open_IsEndedBy
      (record s {
        waiters = s.waiters ++ (waiter_at reader (next + length (drop next s.items)) ∷ []);
      })
      s.end q,
  all_then s.waiters w,
)
  where
    all_then :
        (ws : List Waiter)
        → All (λ w. length s.items ≤ w.position) ws
        → All
            (λ w. length s.items ≤ w.position)
            (ws ++ (waiter_at reader (next + length (drop next s.items)) ∷ []))
    all_then [] h = (length-drop-le next s.items, tt)
    all_then (v ∷ ws) (p, h) = (p, all_then ws h)

abbrev pub AllSound : Streams → Type 0
AllSound = AllValues IsSound
