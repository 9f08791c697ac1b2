-- ===== src/Segment/Ending.antt =====
-- The end of a segment.
use agentic_kit.Base.{
  ℕ, ◌≡◌, ◌≢◌, refl, sym, ap, ◌∙◌, true, false, List, [], ◌∷◌, ◌++◌, some, String, str_eq, eq_iff,
  if◌then◌else◌, arith, append-nil, any, any-append,
}
use agentic_kit.StreamEvents.{StreamEvent, StreamEnd}
use agentic_kit.Segment.{
  SegmentStream, Deps, Published, forward, blocks, end_blocks, end_all, push, push_from, flush,
  init, close, close_end, close_while, keys_of,
}
use agentic_kit.Segment.Grammar.{run_marks, view, view-append}
use agentic_kit.Segment.Agents.{marks, is_wrapped, view-plain, fresh}
use agentic_kit.Segment.Steps.{end_blocks-plain}
use agentic_kit.Segment.Readable.{emitted-IsInStep}
use agentic_kit.Segment.Flow.{
  forwards, emitted, pushed, joined, pushed-flush, pushed-push, pushed-forwards, push-ended,
  forward-ended, SameQueue, end_blocks-SameQueue,
}

SameQueue-refl : (s : SegmentStream) → SameQueue s s
SameQueue-refl s = record {
  same_deps = refl;
  same_buf = refl;
  same_timer = refl;
  same_sent = refl;
  same_ended = refl;
  same_closings = refl;
}

SameQueue-then : (s t u : SegmentStream) → SameQueue s t → SameQueue t u → SameQueue s u
SameQueue-then s t u p q = record {
  same_deps = q.same_deps ∙ p.same_deps;
  same_buf = q.same_buf ∙ p.same_buf;
  same_timer = q.same_timer ∙ p.same_timer;
  same_sent = q.same_sent ∙ p.same_sent;
  same_ended = q.same_ended ∙ p.same_ended;
  same_closings = q.same_closings ∙ p.same_closings;
}

end_all-SameQueue : (s : SegmentStream) (keys : List String) → SameQueue s (end_all s keys).0
unfolding end_all
end_all-SameQueue s [] = SameQueue-refl s
end_all-SameQueue s (key ∷ keys) =
    SameQueue-then s (end_blocks s key).0 _ (end_blocks-SameQueue s key)
      (end_all-SameQueue (end_blocks s key).0 keys)

joined-flush : (s : SegmentStream) → joined (flush s).sent ≡ pushed s
unfolding flush
joined-flush s = sym (append-nil _) ∙ pushed-flush s

abbrev closing : SegmentStream → SegmentStream
closing s = flush (push_from (end_all s (keys_of s.agents)))

close_open :
    (s : SegmentStream) (end : StreamEnd)
    → s.ended ≡ false
    → close s end
      ≡ record (closing s) { ended = true; closings = (closing s).closings ++ (end ∷ []) }
unfolding close
close_open s end h =
    ap
      (λ b.
        if b
        then s
        else record (closing s) { ended = true; closings = (closing s).closings ++ (end ∷ []) })
      h

joined-closing :
    (s : SegmentStream)
    → s.ended ≡ false
    → joined (closing s).sent ≡ pushed s ++ (end_all s (keys_of s.agents)).1
joined-closing s h =
    let q = end_all-SameQueue s (keys_of s.agents) in
    let (t, out) = end_all s (keys_of s.agents) in
    joined-flush (push t out) ∙ pushed-push t out (q.same_ended ∙ h) ∙ cc (q.same_sent, q.same_buf)

-- `close` is `close_while` where nothing is pushed.
close_while-close : (s : SegmentStream) (end : StreamEnd) → close_while s [] [] end ≡ close s end
unfolding close_while close push
close_while-close s end = refl

flush_open : (s : SegmentStream) → s.ended ≡ false → (flush s).ended ≡ false
unfolding flush
flush_open s h = h

-- Whatever is pushed while an open segment closes comes behind the ends of the open blocks, in order,
-- in what was handed over or is still kept back.
close_while-pushed :
    (s : SegmentStream) (during after : List StreamEvent) (end : StreamEnd)
    → s.ended ≡ false
    → pushed (close_while s during after end)
      ≡ ((pushed s ++ (end_all s (keys_of s.agents)).1) ++ during) ++ after
unfolding close_while
close_while-pushed s during after end h =
    let q = end_all-SameQueue s (keys_of s.agents) in
    let (t, out) = end_all s (keys_of s.agents) in
    let a = push t out in
    let b = push a during in
    let o1 : a.ended ≡ false = push-ended t out ∙ q.same_ended ∙ h in
    let o2 : (flush b).ended ≡ false = flush_open b (push-ended a during ∙ o1) in
    let p1 : pushed a ≡ pushed s ++ out =
      pushed-push t out (q.same_ended ∙ h) ∙ cc (q.same_sent, q.same_buf) in
    let p2 : pushed (flush b) ≡ (pushed s ++ out) ++ during =
      pushed-flush b ∙ pushed-push a during o1 ∙ ap (λ x. x ++ during) p1 in
    let p3 : pushed (push (flush b) after) ≡ ((pushed s ++ out) ++ during) ++ after =
      pushed-push (flush b) after o2 ∙ ap (λ x. x ++ after) p2 in
    ap (λ x. pushed (if x then s else close_end (push (flush b) after) end)) h ∙ p3

end_all-plain : (s : SegmentStream) (keys : List String) → any is_wrapped (end_all s keys).1 ≡ false
unfolding end_all
end_all-plain s [] = refl
end_all-plain s (key ∷ keys) =
    any-append is_wrapped (end_blocks s key).1 (end_all (end_blocks s key).0 keys).1
    ∙ rw (end_blocks-plain s key) (end_all-plain (end_blocks s key).0 keys)

forwards-ended : (s : SegmentStream) (ps : List Published) → (forwards s ps).ended ≡ s.ended
unfolding forwards
forwards-ended s [] = refl
forwards-ended s (p ∷ ps) = forwards-ended (forward s p) ps ∙ forward-ended s p

new_ended : (d : Deps) → (init d).ended ≡ false
unfolding init
new_ended d = refl

new_pushed : (d : Deps) (es : List StreamEvent) → pushed (init d) ++ es ≡ es
unfolding init
new_pushed d es = refl

-- The ends that a close pushes are never wrapped, not for a nested agent either: all that a new
-- segment sends over a run of published events and its close leaves the reader of a nested agent
-- with the message open that the agent had open before.
pub close-nested :
    (d : Deps) (ps : List Published) (end : StreamEnd) (key : String)
    → key ≢ ""
    → (l : ℕ) × (run_marks fresh (view key (joined (close (forwards (init d) ps) end).sent))
        ≡ some (marks (blocks (forwards (init d) ps) key) l))
close-nested d ps end key ne =
    let s = forwards (init d) ps in
    let ended = forwards-ended (init d) ps ∙ new_ended d in
    let (l, le, run) = (emitted-IsInStep d ps key).1 in
    (
      l,
      ap (λ t. run_marks fresh (view key (joined t.sent))) (close_open s end ended)
          ∙ ap (λ es. run_marks fresh (view key es))
              (joined-closing s ended
                ∙ ap (λ es. es ++ (end_all s (keys_of s.agents)).1)
                    (pushed-forwards (init d) ps (new_ended d)
                      ∙ new_pushed d (emitted (init d) ps)))
          ∙ ap (run_marks fresh) (
              view-append key (emitted (init d) ps) (end_all s (keys_of s.agents)).1
              ∙ ap (λ es. view key (emitted (init d) ps) ++ es)
                  (view-plain (end_all s (keys_of s.agents)).1 (end_all-plain s (keys_of s.agents))
                      key
                    ∙ not_main _)
              ∙ append-nil _)
          ∙ run,
    )
  where
    not_main : (xs : List StreamEvent) → (if str_eq "" key then xs else []) ≡ []
    not_main xs = ground (arith, ne, eq_iff "" key)
