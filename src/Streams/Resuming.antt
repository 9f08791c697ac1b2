-- ===== src/Streams/Resuming.antt =====
-- A reader that waited and reads on has what a reader from the start has.
use agentic_kit.Base.{
  ℕ, ◌+◌, ◌≤◌, ◌≡◌, refl, sym, ap, ap₂, ◌∙◌, Bool, true, false, ◌||◌, List, [], ◌∷◌, ◌++◌, none,
  some, String, lookup, insert, if◌then◌else◌, length, drop, is_some, length-append, arith,
  Bool-cases, inl, inr, drop-append, drop-length, length-drop,
}
use agentic_kit.StreamEvents.{StreamEvent, is_stream_end}
use agentic_kit.Streams.{
  StreamItem, MemStream, Streams, Pass, aborted, gone, done, waits, is_expired, number, add_items,
  append_events, until_end, pass_over, waiter_at, read_pass,
}
use agentic_kit.Streams.Calls.{until_end-open}
use agentic_kit.Streams.Reading.{live-found, lookup_same, append_open, expired_same}

-- What a pass over a stream's items from a position on comes to.
abbrev pass_of : MemStream → ℕ → Pass
pass_of s next =
    let (out, ended) = until_end (drop next s.items) in
    if ended || is_some s.end then done out else waits out (next + length out)

abbrev waiting : MemStream → ℕ → ℕ → MemStream
waiting s reader position = record s { waiters = s.waiters ++ (waiter_at reader position ∷ []) }

-- A pass after the items that a reader has from before.
abbrev pub after_items : List StreamItem → Pass → Pass
after_items out aborted = aborted
after_items out gone = gone
after_items out (done more) = done (out ++ more)
after_items out (waits more position) = waits (out ++ more) position

until_end-append :
    (xs ys : List StreamItem)
    → (until_end xs).1 ≡ false
    → until_end (xs ++ ys) ≡ (xs ++ (until_end ys).0, (until_end ys).1)
unfolding until_end
until_end-append [] ys h = refl
until_end-append (x ∷ xs) ys h = elim (Bool-cases (is_stream_end x.event)) [
  | inl e ↦ absurd (ground (arith, h, e))
  | inr e ↦ rw e (rw (until_end-append xs ys (rw e at h)) refl)
]

-- Where a pass waits, it has taken all the items.
pass_of-waits :
    (s : MemStream) (next : ℕ)
    → next ≤ length s.items
    → (until_end (drop next s.items)).1 ≡ false
    → next + length (until_end (drop next s.items)).0 ≡ length s.items
pass_of-waits s next le h = rw (until_end-open (drop next s.items) h) (length-drop next s.items le)

after_split :
    (xs ys : List StreamItem) (n m : ℕ) (ended : Bool)
    → m ≡ n + length xs
    → (if ended then done (xs ++ ys) else waits (xs ++ ys) (n + length (xs ++ ys)))
      ≡ after_items xs (if ended then done ys else waits ys (m + length ys))
after_split xs ys n m true e = refl
after_split xs ys n m false e = ap (waits (xs ++ ys)) (omega (arith, e, length-append xs ys))

pass_of-add_items :
    (s : MemStream) (next : ℕ) (es : List StreamEvent)
    → next ≤ length s.items
    → (until_end (drop next s.items)).1 ≡ false
    → pass_of (add_items s es) next
      ≡ after_items (drop next s.items) (pass_of (add_items s es) (length s.items))
unfolding add_items
pass_of-add_items s next es le h =
    let xs = drop next s.items in
    let new = number (length s.items) es in
    let split : until_end (drop next (s.items ++ new))
        ≡ (xs ++ (until_end new).0, (until_end new).1) =
      ap until_end (drop-append next s.items new le) ∙ until_end-append xs new h in
    let tail : drop (length s.items) (s.items ++ new) ≡ new =
      drop-append (length s.items) s.items new (omega arith)
      ∙ ap (λ zs. zs ++ new) (drop-length s.items) in
    ap (λ r. as_pass next r) split
    ∙ after_split xs (until_end new).0 next (length s.items) ((until_end new).1 || is_some s.end)
        (sym (length-drop next s.items le))
    ∙ ap (λ zs. after_items xs (as_pass (length s.items) (until_end zs))) (sym tail)
  where
    as_pass : ℕ → List StreamItem × Bool → Pass
    as_pass n (out, ended) = if ended || is_some s.end then done out else waits out (n + length out)

-- A pass over a stream that is there, by a reader that is not aborted.
pass_live :
    (streams : Streams) (now : ℕ) (id : String) (reader next : ℕ) (s : MemStream)
    → lookup id streams ≡ some s
    → is_expired now s ≡ false
    → read_pass streams now id reader next false ≡ pass_over streams id reader next (some s)
unfolding read_pass
pass_live streams now id reader next s e x =
    ap (λ r. pass_over r.0 id reader next r.1) (live-found streams now id s e x)

pass_over-pass_of :
    (streams : Streams) (id : String) (reader next : ℕ) (s : MemStream)
    → (pass_over streams id reader next (some s)).1 ≡ pass_of s next
pass_over-pass_of streams id reader next s = ground arith

pass_over-waits :
    (streams : Streams) (id : String) (reader next : ℕ) (s : MemStream)
    → s.end ≡ none
    → next ≤ length s.items
    → (until_end (drop next s.items)).1 ≡ false
    → pass_over streams id reader next (some s) ≡ (
      insert id (waiting s reader (length s.items)) streams,
      waits (drop next s.items) (length s.items),
    )
pass_over-waits streams id reader next s unended le h =
    ap (λ b. pick b (until_end (drop next s.items)).0) (ap₂ ◌||◌ h (ap is_some unended))
    ∙ ap (pick false) (until_end-open (drop next s.items) h)
    ∙ ap (λ k. (insert id (waiting s reader k) streams, waits (drop next s.items) k))
        (length-drop next s.items le)
  where
    pick : Bool → List StreamItem → Streams × Pass
    pick b out = if b then (streams, done out) else (
      insert id (waiting s reader (next + length out)) streams,
      waits out (next + length out),
    )

-- A reader of a live, open stream that has no end among its items has them all from its position
-- on and waits at their count. When events are appended later, it reads on from there: what it had
-- and what it then gets are together what a reader that only comes now gets from the first
-- position, and it waits or is done alike.
pub read-resume :
    (streams : Streams) (now later : ℕ) (id : String) (reader next : ℕ) (s : MemStream)
    (es : List StreamEvent)
    → lookup id streams ≡ some s
    → is_expired now s ≡ false
    → is_expired later s ≡ false
    → s.end ≡ none
    → next ≤ length s.items
    → (until_end (drop next s.items)).1 ≡ false
    → let (waited, pass) = read_pass streams now id reader next false in
      let appended = (append_events waited later id es).0 in
      (pass ≡ waits (drop next s.items) (length s.items))
      × ((read_pass appended later id reader next false).1
          ≡ after_items
              (drop next s.items)
              (read_pass appended later id reader (length s.items) false).1)
read-resume streams now later id reader next s es found x x' unended le h =
    let w = waiting s reader (length s.items) in
    let waited = insert id w streams in
    let grown = add_items w es in
    let stored = insert id grown waited in
    let p =
      pass_live streams now id reader next s found x
      ∙ pass_over-waits streams id reader next s unended le h in
    let a =
      ap (λ r. (append_events r.0 later id es).0) p
      ∙ ap (λ r. r.0) (append_open waited later id w es (lookup_same id w streams) x' unended) in
    (
      ap (λ r. r.1) p,
      ap (λ r. (read_pass r later id reader next false).1) a
          ∙ of_grown next
          ∙ pass_of-add_items w next es le h
          ∙ ap (after_items (drop next s.items)) (
              sym (
                ap (λ r. (read_pass r later id reader (length s.items) false).1) a
                ∙ of_grown (length s.items))),
    )
  where
    w : MemStream
    w = waiting s reader (length s.items)

    of_grown :
        (n : ℕ)
        → (read_pass (insert id (add_items w es) (insert id w streams)) later id reader n false).1
          ≡ pass_of (add_items w es) n
    of_grown n =
        ap (λ r. r.1)
          (pass_live (insert id (add_items w es) (insert id w streams)) later id reader n
            (add_items w es) (lookup_same id (add_items w es) (insert id w streams))
            (expired_same later w es ∙ x'))
        ∙ pass_over-pass_of (insert id (add_items w es) (insert id w streams)) id reader n
            (add_items w es)
