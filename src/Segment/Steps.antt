-- ===== src/Segment/Steps.antt =====
-- Each published event keeps the segment's blocks and a reader's marks in step.
use agentic_kit.Base.{
  ℕ, ◌≡◌, refl, ◌∙◌, false, List, [], ◌∷◌, ◌++◌, some, String, str_eq, eq_iff, if◌then◌else◌, arith,
  lookup, insert, lookup-insert, Option-cases, inl, inr, any,
}
use agentic_kit.StreamEvents.{StreamEvent}
use agentic_kit.Segment.{
  SegmentStream, Deps, Blocks, Chunk, text_delta, reasoning_delta, call_streaming_start, call_delta,
  call, call_result, source_part, unknown_part, blocks, end_open, end_blocks, start_tool, map_open,
  map_chunk,
}
use agentic_kit.Segment.Grammar.{Marks, run_marks, view}
use agentic_kit.Segment.Agents.{
  IsInStep, IsSingle, marks, is_wrapped, update-IsInStep, view-plain, blocks-set,
  map_open-run_marks, end_open-run_marks,
}

pub end_blocks-out :
    (s : SegmentStream) (a : String) → (end_blocks s a).1 ≡ (end_open (blocks s a)).0
unfolding end_blocks end_open blocks
end_blocks-out s a = ground arith

pub end_blocks-ids : (s : SegmentStream) (a : String) → (end_blocks s a).0.ids ≡ s.ids
unfolding end_blocks
end_blocks-ids s a = ground arith

pub blocks-end_blocks :
    (s : SegmentStream) (a key : String)
    → blocks (end_blocks s a).0 key
      ≡ (if str_eq a key then (end_open (blocks s a)).1 else blocks s key)
unfolding end_blocks end_open blocks
blocks-end_blocks s a key = elim (Option-cases (lookup a s.agents)) [
  | inl e ↦ ground (arith, e, eq_iff a key)
  | inr (b, e) ↦ rw e (ground (arith, lookup-insert a key (end_open b).1 s.agents))
]

pub end_open-plain : (b : Blocks) → any is_wrapped (end_open b).0 ≡ false
unfolding end_open
end_open-plain b = ground arith

map_open-plain :
    (d : Deps) (c : Chunk) (b : Blocks) (ids : ℕ) → any is_wrapped (map_open d c b ids).2 ≡ false
unfolding map_open end_open start_tool
map_open-plain d (text_delta t) b ids = ground arith
map_open-plain d (reasoning_delta t) b ids = ground arith
map_open-plain d (call_streaming_start i n) b ids = ground arith
map_open-plain d (call_delta i n t) b ids = ground arith
map_open-plain d (call i n a) b ids = ground arith
map_open-plain d (call_result i n r) b ids = refl
map_open-plain d (source_part v) b ids = refl
map_open-plain d unknown_part b ids = refl

pub end_open-IsSingle : (b : Blocks) → IsSingle (end_open b).1
unfolding end_open
end_open-IsSingle b = inl refl

-- An event of no block.
pub neutral-IsInStep :
    (s : SegmentStream) (es : List StreamEvent) (e : StreamEvent)
    → is_wrapped e ≡ false
    → ((m : Marks) → run_marks m (e ∷ []) ≡ some m)
    → IsInStep s es
    → IsInStep s (es ++ (e ∷ []))
neutral-IsInStep s es e p n h =
    update-IsInStep s s es (e ∷ []) (e ∷ []) "" (blocks s "") (λ key. ground (arith, eq_iff "" key))
      (omega arith) (n (marks (blocks s "") s.ids)) (h "").0
      (view-plain (e ∷ []) (ground (arith, p))) h

pub map_chunk-IsInStep :
    (s : SegmentStream) (es : List StreamEvent) (a : String) (c : Chunk) (evs : List StreamEvent)
    → ((key : String) → view key evs ≡ (if str_eq a key then (map_chunk s a c).1 else []))
    → IsInStep s es
    → IsInStep (map_chunk s a c).0 (es ++ evs)
unfolding map_chunk
map_chunk-IsInStep s es a c evs v h =
    let (run, single, le) = map_open-run_marks s.deps c (blocks s a) s.ids (h a).0 in
    let (b, ids', out) = map_open s.deps c (blocks s a) s.ids in
    update-IsInStep s (record s { agents = insert a b s.agents; ids = ids' }) es evs out a b
      (λ key. blocks-set s a key b ids') le run single v h

pub end_blocks-IsInStep :
    (s : SegmentStream) (es : List StreamEvent) (a : String) (evs : List StreamEvent)
    → ((key : String) → view key evs ≡ (if str_eq a key then (end_blocks s a).1 else []))
    → IsInStep s es
    → IsInStep (end_blocks s a).0 (es ++ evs)
end_blocks-IsInStep s es a evs v h =
    update-IsInStep s (end_blocks s a).0 es evs (end_open (blocks s a)).0 a
      (end_open (blocks s a)).1 (blocks-end_blocks s a) (omega (arith, end_blocks-ids s a))
      (rw (end_blocks-ids s a) (end_open-run_marks (blocks s a) s.ids))
      (end_open-IsSingle (blocks s a)) (λ key. v key ∙ rw (end_blocks-out s a)) h

pub map_chunk-plain :
    (s : SegmentStream) (a : String) (c : Chunk) → any is_wrapped (map_chunk s a c).1 ≡ false
unfolding map_chunk
map_chunk-plain s a c = map_open-plain s.deps c (blocks s a) s.ids

pub end_blocks-plain : (s : SegmentStream) (a : String) → any is_wrapped (end_blocks s a).1 ≡ false
end_blocks-plain s a = rw (end_blocks-out s a) (end_open-plain (blocks s a))
