-- ===== src/Segment/Agents.antt =====
-- The segment's blocks keep step with the marks of a reader, agent by agent.
use agentic_kit.Base.{
  ℕ, ◌≤◌, ◌≡◌, ◌⊎◌, refl, sym, subst, ◌∙◌, Bool, true, false, List, [], ◌∷◌, ◌++◌, none, some,
  String, str_eq, eq_iff, if◌then◌else◌, arith, insert, lookup-insert, Bool-cases, inl, inr,
  append-nil, any,
}
use agentic_kit.StreamEvents.{StreamEvent, subagent_event}
use agentic_kit.Segment.{
  SegmentStream, Deps, Blocks, Chunk, text_delta, reasoning_delta, call_streaming_start, call_delta,
  call, call_result, source_part, unknown_part, blocks, wrap, end_open, start_tool, map_open,
}
use agentic_kit.Segment.Grammar.{
  Marks, advance, run_marks, run_marks-append, run_marks_mono, view, view-append, of_agent,
}

abbrev pub is_wrapped : StreamEvent → Bool
is_wrapped (subagent_event a e) = true
is_wrapped _ = false

-- A reader's marks for an agent, with the numbers taken so far.
abbrev pub marks : Blocks → ℕ → Marks
marks b ids = record { open_text = b.text; open_reasoning = b.reasoning; last = ids }

-- At most one message of an agent is open.
abbrev pub IsSingle : Blocks → Type 0
IsSingle b = (b.text ≡ none) ⊎ (b.reasoning ≡ none)

pub end_open-run_marks :
    (b : Blocks) (ids : ℕ)
    → run_marks (marks b ids) (end_open b).0 ≡ some (marks (end_open b).1 ids)
unfolding run_marks advance end_open
end_open-run_marks b ids = ground arith

start_tool-run_marks :
    (m : Marks) (tools : List String) (id name : String)
    → run_marks m (start_tool tools id name).0 ≡ some m
unfolding run_marks advance start_tool
start_tool-run_marks m tools id name = ground arith

-- One chunk of an agent: what it pushes is read on, up to the marks of the blocks after it.
pub map_open-run_marks :
    (d : Deps) (c : Chunk) (b : Blocks) (ids : ℕ)
    → IsSingle b
    → let (b', ids', out) = map_open d c b ids in
      (run_marks (marks b ids) out ≡ some (marks b' ids')) × IsSingle b' × (ids ≤ ids')
unfolding run_marks advance end_open map_open start_tool
map_open-run_marks d (text_delta t) b ids h = (ground arith, ground arith, ground arith)
map_open-run_marks d (reasoning_delta t) b ids h = (ground arith, ground arith, ground arith)
map_open-run_marks d (call_streaming_start i n) b ids h = (ground arith, ground arith, ground arith)
map_open-run_marks d (call_delta i n t) b ids h = (ground arith, ground arith, ground arith)
map_open-run_marks d (call i n a) b ids h = (ground arith, ground arith, ground arith)
map_open-run_marks d (call_result i n r) b ids h = (refl, h, ground arith)
map_open-run_marks d (source_part v) b ids h = (refl, h, ground arith)
map_open-run_marks d unknown_part b ids h = (refl, h, ground arith)

abbrev pub fresh : Marks
fresh = record { open_text = none; open_reasoning = none; last = 0 }

-- A reader who has read all of a stream is in step with an agent's blocks.
abbrev pub Reads : ℕ → List StreamEvent → Blocks → Type 0
Reads ids own b = (l : ℕ) × (l ≤ ids) × (run_marks fresh own ≡ some (marks b l))

abbrev pub IsInStep : SegmentStream → List StreamEvent → Type 0
IsInStep s es = (key : String) → IsSingle (blocks s key) × Reads s.ids (view key es) (blocks s key)

-- One agent's blocks change as its own events say.
pub update-IsInStep :
    (s t : SegmentStream) (es evs own : List StreamEvent) (a : String) (b : Blocks)
    → ((key : String) → blocks t key ≡ (if str_eq a key then b else blocks s key))
    → s.ids ≤ t.ids
    → run_marks (marks (blocks s a) s.ids) own ≡ some (marks b t.ids)
    → IsSingle b
    → ((key : String) → view key evs ≡ (if str_eq a key then own else []))
    → IsInStep s es
    → IsInStep t (es ++ evs)
update-IsInStep s t es evs own a b bt ids run single v h key = elim (Bool-cases (str_eq a key)) [
  | inl e ↦
      let (one, (l, le, r)) = here ((eq_iff a key).0 e) in
      let (l', le', r') = run_marks_mono (marks (blocks s a) s.ids) (marks b t.ids) l own le run in
      (
        rw (bt key) (rw e single),
        (
          l',
          le',
          rw (view-append key es evs, bt key, v key)
              (rw e (run_marks-append fresh _ (view key es) own r ∙ r')),
        ),
      )
  | inr e ↦
      let (one, (l, le, r)) = h key in
      (
        rw (bt key) (rw e one),
        (
          l,
          omega arith,
          rw (view-append key es evs, bt key, v key) (rw e (rw (append-nil (view key es)) r)),
        ),
      )
]
  where
    here : a ≡ key → IsSingle (blocks s a) × Reads s.ids (view key es) (blocks s a)
    here q =
        subst (λ k. IsSingle (blocks s k) × Reads s.ids (view key es) (blocks s k)) (sym q) (h key)

of_agent-plain :
    (e : StreamEvent)
    → is_wrapped e ≡ false
    → (key : String) → of_agent key e ≡ (if str_eq "" key then e ∷ [] else [])
of_agent-plain (subagent_event a e) h key = absurd (ground (arith, h))
of_agent-plain _ h key = refl

-- What the main agent pushes is its own.
pub view-plain :
    (es : List StreamEvent)
    → any is_wrapped es ≡ false
    → (key : String) → view key es ≡ (if str_eq "" key then es else [])
unfolding view
view-plain [] h key = ground arith
view-plain (e ∷ es) h key =
    rw (of_agent-plain e (ground (arith, h)) key)
      (ground (arith, view-plain es (ground (arith, h)) key))

pub view-wrap :
    (a : String) (es : List StreamEvent) (key : String)
    → view key (wrap a es) ≡ (if str_eq a key then es else [])
unfolding view wrap
view-wrap a [] key = ground arith
view-wrap a (e ∷ es) key = ground (arith, view-wrap a es key)

pub blocks-set :
    (s : SegmentStream) (a key : String) (b : Blocks) (ids : ℕ)
    → blocks (record s { agents = insert a b s.agents; ids = ids }) key
      ≡ (if str_eq a key then b else blocks s key)
unfolding blocks
blocks-set s a key b ids = ground (arith, lookup-insert a key b s.agents)
