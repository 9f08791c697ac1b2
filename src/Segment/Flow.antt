-- ===== src/Segment/Flow.antt =====
-- Nothing that is pushed is lost or reordered, and nothing waits without a timer.
use agentic_kit.Base.{
  ◌<◌, ◌≡◌, ◌≢◌, refl, sym, ap, ◌∙◌, true, false, List, [], ◌∷◌, ◌++◌, ◌⊎◌, none, some, String, any,
  length, arith, append-nil, append_assoc, any-append, Bool-cases, inl, inr,
}
use agentic_kit.StreamEvents.{StreamEvent}
use agentic_kit.Segment.{
  SegmentStream, Published, Chunk, chunk, subagent_chunk, step_committed, needs_input,
  started_subagent, completed_subagent, failed_subagent, text_result, other_type, flush, push,
  translate, forward, immediate, is_due, with_batch, map_chunk, end_blocks, end_step,
  finish_subagent,
}

abbrev pub joined : List (List StreamEvent) → List StreamEvent
joined [] = []
joined (b ∷ bs) = b ++ joined bs

-- Everything pushed so far: what was handed to the store, and what waits.
abbrev pub pushed : SegmentStream → List StreamEvent
pushed s = joined s.sent ++ s.buf

joined-append :
    (bs : List (List StreamEvent)) (b : List StreamEvent) → joined (bs ++ (b ∷ [])) ≡ joined bs ++ b
joined-append [] b = append-nil b
joined-append (a ∷ bs) b = rw (joined-append bs b, append_assoc)

joined-with_batch :
    (es : List StreamEvent) (sent : List (List StreamEvent))
    → joined (with_batch es sent) ≡ joined sent ++ es
joined-with_batch [] sent = sym (append-nil (joined sent))
joined-with_batch (e ∷ es) sent = joined-append sent (e ∷ es)

pub pushed-flush : (s : SegmentStream) → pushed (flush s) ≡ pushed s
unfolding flush
pushed-flush s = append-nil _ ∙ joined-with_batch s.buf s.sent

pub pushed-push :
    (s : SegmentStream) (es : List StreamEvent)
    → s.ended ≡ false
    → pushed (push s es) ≡ pushed s ++ es
unfolding push flush
pushed-push s [] h = sym (append-nil (pushed s))
pushed-push s (e ∷ es) h =
    elim (Bool-cases (is_due (record s { buf = s.buf ++ (e ∷ es) }) (e ∷ es))) [
      | inl d ↦ rw h (
          rw d (
            pushed-flush (record s { buf = s.buf ++ (e ∷ es) })
            ∙ sym (append_assoc (joined s.sent) s.buf (e ∷ es))))
      | inr d ↦ rw h (rw d (sym (append_assoc (joined s.sent) s.buf (e ∷ es))))
    ]

-- A segment that differs in its blocks, its message numbers and its final text at most.
pub record SameQueue (s t : SegmentStream) : Type 0 where
  pub same_deps : t.deps ≡ s.deps
  pub same_buf : t.buf ≡ s.buf
  pub same_timer : t.timer ≡ s.timer
  pub same_sent : t.sent ≡ s.sent
  pub same_ended : t.ended ≡ s.ended
  pub same_closings : t.closings ≡ s.closings

pub end_blocks-SameQueue : (s : SegmentStream) (key : String) → SameQueue s (end_blocks s key).0
unfolding end_blocks
end_blocks-SameQueue s key = ground arith

map_chunk-SameQueue :
    (s : SegmentStream) (key : String) (c : Chunk) → SameQueue s (map_chunk s key c).0
unfolding map_chunk
map_chunk-SameQueue s key c = ground arith

translate-SameQueue : (s : SegmentStream) (p : Published) → SameQueue s (translate s p).0
unfolding translate end_step finish_subagent
translate-SameQueue s (chunk c) = map_chunk-SameQueue s "" c
translate-SameQueue s (subagent_chunk a c) = map_chunk-SameQueue s a c
translate-SameQueue s (step_committed none n r u) = end_blocks-SameQueue s ""
translate-SameQueue s (step_committed (some a) n r u) = end_blocks-SameQueue s a
translate-SameQueue s (needs_input p) = ground arith
translate-SameQueue s (started_subagent a n d) = ground arith
translate-SameQueue s (completed_subagent a) = end_blocks-SameQueue s a
translate-SameQueue s (failed_subagent a x e) = end_blocks-SameQueue s a
translate-SameQueue s (text_result t) = ground arith
translate-SameQueue s (other_type n v r) = ground arith

-- A run of published events, and the stream events that it makes.
unfoldable pub forwards : SegmentStream → List Published → SegmentStream
forwards s [] = s
forwards s (p ∷ ps) = forwards (forward s p) ps

unfoldable pub emitted : SegmentStream → List Published → List StreamEvent
emitted s [] = []
emitted s (p ∷ ps) = (translate s p).1 ++ emitted (forward s p) ps

pub push-ended : (s : SegmentStream) (es : List StreamEvent) → (push s es).ended ≡ s.ended
unfolding push flush
push-ended s [] = refl
push-ended s (e ∷ es) = ground arith

pub forward-ended : (s : SegmentStream) (p : Published) → (forward s p).ended ≡ s.ended
unfolding forward
forward-ended s p =
    push-ended (translate s p).0 (translate s p).1 ∙ (translate-SameQueue s p).same_ended

pub pushed-forward :
    (s : SegmentStream) (p : Published)
    → s.ended ≡ false
    → pushed (forward s p) ≡ pushed s ++ (translate s p).1
unfolding forward
pushed-forward s p h =
    let q = translate-SameQueue s p in
    pushed-push (translate s p).0 (translate s p).1 (q.same_ended ∙ h)
    ∙ cc (q.same_sent, q.same_buf)

-- Over any run of published events, the batches that went to the store and what still waits are
-- together what was there before and then every event that the run makes: none is lost, doubled or
-- out of order.
pub pushed-forwards :
    (s : SegmentStream) (ps : List Published)
    → s.ended ≡ false
    → pushed (forwards s ps) ≡ pushed s ++ emitted s ps
unfolding forwards emitted
pushed-forwards s [] h = sym (append-nil (pushed s))
pushed-forwards s (p ∷ ps) h =
    pushed-forwards (forward s p) ps (forward-ended s p ∙ h)
    ∙ rw (pushed-forward s p h)
        (append_assoc (pushed s) (translate s p).1 (emitted (forward s p) ps))

-- What waits, waits under a running timer, in fewer than `stream_flush_events` events, none of
-- which must go out at once.
abbrev pub IsWaiting : SegmentStream → Type 0
IsWaiting s =
    (s.buf ≡ [])
    ⊎ ((s.timer ≡ true)
        × (s.deps.stream_flush_ms ≢ 0)
        × (length s.buf < s.deps.stream_flush_events)
        × (any immediate s.buf ≡ false))

waiting_none : (s : SegmentStream) → IsWaiting s → any immediate s.buf ≡ false
waiting_none s (inl e) = ap (any immediate) e
waiting_none s (inr w) = w.3

push-IsWaiting : (s : SegmentStream) (es : List StreamEvent) → IsWaiting s → IsWaiting (push s es)
unfolding push flush
push-IsWaiting s [] w = w
push-IsWaiting s (e ∷ es) w = elim (Bool-cases s.ended) [
  | inl d ↦ simp d w
  | inr d ↦ elim (Bool-cases (is_due (record s { buf = s.buf ++ (e ∷ es) }) (e ∷ es))) [
    | inl q ↦ simp (d, q) (inl refl)
    | inr q ↦
        simp (d, q)
          (inr (
            refl,
            ground (arith, q),
            ground (arith, q),
            any-append immediate s.buf (e ∷ es) ∙ ground (arith, q, waiting_none s w),
          ))
  ]
]

same-IsWaiting : (s t : SegmentStream) → SameQueue s t → IsWaiting s → IsWaiting t
same-IsWaiting s t q w = rw (q.same_deps, q.same_buf, q.same_timer) w

-- From its start on, over any run of published events, a segment holds back only what may wait: the
-- timer that sends it runs, it is under the count that sends at once, and nothing of it is urgent.
-- With no waiting time nothing is held back at all.
pub forwards-IsWaiting :
    (s : SegmentStream) (ps : List Published) → IsWaiting s → IsWaiting (forwards s ps)
unfolding forwards forward
forwards-IsWaiting s [] w = w
forwards-IsWaiting s (p ∷ ps) w = forwards-IsWaiting (forward s p) ps (
    push-IsWaiting (translate s p).0 (translate s p).1
      (same-IsWaiting s (translate s p).0 (translate-SameQueue s p) w))
