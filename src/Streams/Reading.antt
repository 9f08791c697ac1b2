-- ===== src/Streams/Reading.antt =====
-- What a reader of a stream gets.
use agentic_kit.Base.{
  ℕ, suc, ◌+◌, ◌≡◌, refl, ap, ap₂, ◌∙◌, Bool, true, false, List, [], ◌∷◌, ◌++◌, map, Option, none,
  some, String, lookup, insert, erase, if◌then◌else◌, leb, or_else, length, drop, is_some, arith,
  Bool-cases, inl, inr, lookup-insert, str_eq, drop-append, drop-length, str_eq-eq_of,
}
use agentic_kit.StreamEvents.{StreamEvent, StreamEnd, ends}
use agentic_kit.Streams.{
  MemStream, Streams, StreamSnapshot, stream_gone, stream_closed, Appended, refused, at_offsets,
  live, is_expired, number, add_items, append_to, append_events, finish, close_found, close_stream,
  snapshot,
}

pub live-found :
    (streams : Streams) (now : ℕ) (id : String) (s : MemStream)
    → lookup id streams ≡ some s
    → is_expired now s ≡ false
    → live streams now id ≡ (streams, some s)
unfolding live
live-found streams now id s e x = rw e (rw x refl)

live-expired :
    (streams : Streams) (now : ℕ) (id : String) (s : MemStream)
    → lookup id streams ≡ some s
    → is_expired now s ≡ true
    → live streams now id ≡ (erase id streams, none)
unfolding live
live-expired streams now id s e x = rw e (rw x refl)

pub lookup_same :
    (id : String) (s : MemStream) (streams : Streams) → lookup id (insert id s streams) ≡ some s
lookup_same id s streams =
    lookup-insert id id s streams ∙ rw (str_eq-eq_of {s = id} {t = id} refl) refl

pub append_open :
    (streams : Streams) (now : ℕ) (id : String) (s : MemStream) (es : List StreamEvent)
    → lookup id streams ≡ some s
    → is_expired now s ≡ false
    → s.end ≡ none
    → append_events streams now id es ≡ (
      insert id (add_items s es) streams,
      at_offsets (map (λ i. i.offset) (number (length s.items) es)),
    )
unfolding append_events
append_open streams now id s es e x unended =
    ap (λ r. append_to r.0 id es r.1) (live-found streams now id s e x)
    ∙ ap
        (λ b. if b then (streams, refused stream_closed) else (
          insert id (add_items s es) streams,
          at_offsets (map (λ i. i.offset) (number (length s.items) es)),
        ))
        (ap is_some unended)

pub expired_same :
    (now : ℕ) (s : MemStream) (es : List StreamEvent)
    → is_expired now (add_items s es) ≡ is_expired now s
unfolding add_items
expired_same now s es = refl

abbrev shown : MemStream → ℕ → StreamSnapshot
shown s n = record { snapshot_meta = s.meta; snapshot_items = drop n s.items; snapshot_end = s.end }

snapshot_live :
    (streams : Streams) (now : ℕ) (id : String) (s : MemStream) (after : Option ℕ)
    → lookup id streams ≡ some s
    → is_expired now s ≡ false
    → (snapshot streams now id after).1 ≡ some (shown s (or_else after 0))
unfolding snapshot
snapshot_live streams now id s after e x = rw (live-found streams now id s e x) refl

snapshot_expired :
    (streams : Streams) (now : ℕ) (id : String) (s : MemStream) (after : Option ℕ)
    → lookup id streams ≡ some s
    → is_expired now s ≡ true
    → (snapshot streams now id after).1 ≡ none
unfolding snapshot
snapshot_expired streams now id s after e x = rw (live-expired streams now id s e x) refl

new_items :
    (s : MemStream) (es : List StreamEvent)
    → s.end ≡ none
    → some (shown (add_items s es) (length s.items))
      ≡ some (record {
        snapshot_meta = s.meta;
        snapshot_items = number (length s.items) es;
        snapshot_end = none;
      })
unfolding add_items
new_items s es unended =
    ap₂
      (λ items end.
        some (record { snapshot_meta = s.meta; snapshot_items = items; snapshot_end = end }))
      (drop-append (length s.items) s.items (number (length s.items) es) (omega arith)
        ∙ ap (λ xs. xs ++ number (length s.items) es) (drop-length s.items))
      unended

-- Events appended to a live, open stream of n items get the offsets n + 1, n + 2 and so on; a
-- snapshot from offset n on then has exactly these events, and no other stream changes.
pub append-snapshot :
    (streams : Streams) (now : ℕ) (id : String) (s : MemStream) (es : List StreamEvent)
    → lookup id streams ≡ some s
    → is_expired now s ≡ false
    → s.end ≡ none
    → let (streams', result) = append_events streams now id es in
      let new = number (length s.items) es in
      (result ≡ at_offsets (map (λ i. i.offset) new))
      × ((snapshot streams' now id (some (length s.items))).1
          ≡ some (record { snapshot_meta = s.meta; snapshot_items = new; snapshot_end = none }))
      × ((other : String) → str_eq id other ≡ false → lookup other streams' ≡ lookup other streams)
append-snapshot streams now id s es e x unended =
    let a = append_open streams now id s es e x unended in
    (
      ap (λ r. r.1) a,
      ap (λ r. (snapshot r.0 now id (some (length s.items))).1) a
          ∙ snapshot_live (insert id (add_items s es) streams) now id (add_items s es)
              (some (length s.items)) (lookup_same id (add_items s es) streams)
              (expired_same now s es ∙ x)
          ∙ new_items s es unended,
      λ other ne.
          ap (λ r. lookup other r.0) a
          ∙ lookup-insert id other (add_items s es) streams
          ∙ rw ne refl,
    )

close_open_stream :
    (streams : Streams) (now : ℕ) (id : String) (s : MemStream) (e : StreamEnd) (grace_ms : ℕ)
    → lookup id streams ≡ some s
    → is_expired now s ≡ false
    → s.end ≡ none
    → (close_stream streams now id e grace_ms).0 ≡ insert id (finish s e (now + grace_ms)) streams
unfolding close_stream
close_open_stream streams now id s e grace_ms p x unended =
    ap (λ r. (close_found r.0 id e (now + grace_ms) r.1).0) (live-found streams now id s p x)
    ∙ ap (λ b. if b then streams else insert id (finish s e (now + grace_ms)) streams)
        (ap is_some unended)

append_gone :
    (streams : Streams) (now : ℕ) (id : String) (s : MemStream) (es : List StreamEvent)
    → lookup id streams ≡ some s
    → is_expired now s ≡ true
    → (append_events streams now id es).1 ≡ refused stream_gone
unfolding append_events
append_gone streams now id s es e x = rw (live-expired streams now id s e x) refl

close_gone :
    (streams : Streams) (now : ℕ) (id : String) (s : MemStream) (e : StreamEnd) (grace_ms : ℕ)
    → lookup id streams ≡ some s
    → is_expired now s ≡ true
    → (close_stream streams now id e grace_ms).1 ≡ some stream_gone
unfolding close_stream
close_gone streams now id s e grace_ms p x = rw (live-expired streams now id s p x) refl

close_live :
    (streams : Streams) (now : ℕ) (id : String) (s : MemStream) (e : StreamEnd) (grace_ms : ℕ)
    → lookup id streams ≡ some s
    → is_expired now s ≡ false
    → (close_stream streams now id e grace_ms).1 ≡ none
unfolding close_stream
close_live streams now id s e grace_ms p x = rw (live-found streams now id s p x) refl

append_closed :
    (streams : Streams) (now : ℕ) (id : String) (s : MemStream) (es : List StreamEvent)
    (e : StreamEnd)
    → lookup id streams ≡ some s
    → is_expired now s ≡ false
    → s.end ≡ some e
    → (append_events streams now id es).1 ≡ refused stream_closed
unfolding append_events
append_closed streams now id s es e p x ended =
    ap (λ r. (append_to r.0 id es r.1).1) (live-found streams now id s p x)
    ∙ ap (λ b. (pick b).1) (ap is_some ended)
  where
    pick : Bool → Streams × Appended
    pick b = if b then (streams, refused stream_closed) else (
      insert id (add_items s es) streams,
      at_offsets (map (λ i. i.offset) (number (length s.items) es)),
    )

-- A stream that is closed at a time refuses every append in its grace window and still shows its
-- items with the end last; from the end of the window on it is gone.
pub close-append :
    (streams : Streams) (now later : ℕ) (id : String) (s : MemStream) (e : StreamEnd) (grace_ms : ℕ)
    (es : List StreamEvent)
    → lookup id streams ≡ some s
    → is_expired now s ≡ false
    → s.end ≡ none
    → let closed = (close_stream streams now id e grace_ms).0 in
      let is_over = leb (now + grace_ms) later in
      let all_items = s.items ++ (record { event = ends e; offset = suc (length s.items) } ∷ []) in
      ((append_events closed later id es).1
        ≡ (if is_over then refused stream_gone else refused stream_closed))
      × ((snapshot closed later id none).1 ≡ (
          if is_over
          then none
          else some (record {
            snapshot_meta = s.meta;
            snapshot_items = all_items;
            snapshot_end = some e;
          })))
      × ((close_stream closed later id e grace_ms).1 ≡ (if is_over then some stream_gone else none))
unfolding finish add_items number
close-append streams now later id s e grace_ms es p x unended =
    let c = close_open_stream streams now id s e grace_ms p x unended in
    let f = finish s e (now + grace_ms) in
    let closed = insert id f streams in
    let found = lookup_same id f streams in
    elim (Bool-cases (leb (now + grace_ms) later)) [
      | inl q ↦ (
        ap (λ r. (append_events r later id es).1) c
            ∙ append_gone closed later id f es found q
            ∙ rw q refl,
        ap (λ r. (snapshot r later id none).1) c
            ∙ snapshot_expired closed later id f none found q
            ∙ rw q refl,
        ap (λ r. (close_stream r later id e grace_ms).1) c
            ∙ close_gone closed later id f e grace_ms found q
            ∙ rw q refl,
      )
      | inr q ↦ (
        ap (λ r. (append_events r later id es).1) c
            ∙ append_closed closed later id f es e found q refl
            ∙ rw q refl,
        ap (λ r. (snapshot r later id none).1) c
            ∙ snapshot_live closed later id f none found q
            ∙ rw q refl,
        ap (λ r. (close_stream r later id e grace_ms).1) c
            ∙ close_live closed later id f e grace_ms found q
            ∙ rw q refl,
      )
    ]
