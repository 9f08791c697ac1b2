-- ===== src/Segment/Readable.antt =====
-- A reader of the stream keeps up with each agent over a whole run.
use agentic_kit.Base.{
  ℕ, ◌≡◌, refl, sym, ◌∙◌, true, false, List, [], ◌∷◌, ◌++◌, none, some, String, if◌then◌else◌,
  arith, lookup, inl, append-nil, append_assoc, any-append,
}
use agentic_kit.StreamEvents.{
  StreamEvent, StreamUsage, step_finished, subagent_finished, input_required, subagent_started,
  custom, completed, failed, cancelled,
}
use agentic_kit.Segment.{
  SegmentStream, Deps, Blocks, Published, chunk, subagent_chunk, step_committed, needs_input,
  started_subagent, completed_subagent, failed_subagent, text_result, other_type, blocks, wrap,
  end_open, end_blocks, map_chunk, translate, end_step, finish_subagent, forward, push, flush, init,
}
use agentic_kit.Segment.Grammar.{Marks, advance, run_marks, run_marks-append, view}
use agentic_kit.Segment.Agents.{
  IsInStep, marks, is_wrapped, update-IsInStep, view-plain, view-wrap, end_open-run_marks,
}
use agentic_kit.Segment.Flow.{forwards, emitted}
use agentic_kit.Segment.Steps.{
  neutral-IsInStep, map_chunk-IsInStep, end_blocks-IsInStep, map_chunk-plain, end_blocks-out,
  end_blocks-ids, blocks-end_blocks, end_open-IsSingle, end_open-plain,
}

-- Only the blocks and the message numbers of a segment matter to a reader.
same_blocks-IsInStep :
    (s t : SegmentStream) (es : List StreamEvent)
    → t.agents ≡ s.agents
    → t.ids ≡ s.ids
    → IsInStep s es
    → IsInStep t es
unfolding blocks
same_blocks-IsInStep s t es a i h key = rw (a, i) (h key)

step_finished-run_marks :
    (b : Blocks) (ids n : ℕ) (r : String) (u : StreamUsage)
    → run_marks (marks (end_open b).1 ids) (step_finished n none r u ∷ [])
      ≡ some (marks (end_open b).1 ids)
unfolding run_marks advance end_open
step_finished-run_marks b ids n r u = refl

-- The end of a step of the main agent: its blocks end, and then the step.
end_main-IsInStep :
    (s : SegmentStream) (es : List StreamEvent) (n : ℕ) (r : String) (u : StreamUsage)
    → IsInStep s es
    → IsInStep (end_blocks s "").0 (es ++ ((end_blocks s "").1 ++ (step_finished n none r u ∷ [])))
end_main-IsInStep s es n r u h =
    update-IsInStep s (end_blocks s "").0 es _
      ((end_open (blocks s "")).0 ++ (step_finished n none r u ∷ [])) "" (end_open (blocks s "")).1
      (blocks-end_blocks s "") (omega (arith, end_blocks-ids s ""))
      (rw (end_blocks-ids s "") (
        run_marks-append _ _ (end_open (blocks s "")).0 (step_finished n none r u ∷ [])
          (end_open-run_marks (blocks s "") s.ids)
        ∙ step_finished-run_marks (blocks s "") s.ids n r u))
      (end_open-IsSingle (blocks s ""))
      (λ key. rw (end_blocks-out s "") (
        view-plain ((end_open (blocks s "")).0 ++ (step_finished n none r u ∷ []))
          (any-append is_wrapped (end_open (blocks s "")).0 (step_finished n none r u ∷ [])
            ∙ rw (end_open-plain (blocks s "")) refl)
          key))
      h

-- A nested agent's blocks end, and then an event of the main stream that opens and ends nothing.
end_nested-IsInStep :
    (s : SegmentStream) (es : List StreamEvent) (a : String) (e : StreamEvent)
    → is_wrapped e ≡ false
    → ((m : Marks) → run_marks m (e ∷ []) ≡ some m)
    → IsInStep s es
    → IsInStep (end_blocks s a).0 (es ++ (wrap a (end_blocks s a).1 ++ (e ∷ [])))
end_nested-IsInStep s es a e p n h =
    rw (sym (append_assoc es (wrap a (end_blocks s a).1) (e ∷ []))) (
      neutral-IsInStep (end_blocks s a).0 _ e p n
        (end_blocks-IsInStep s es a (wrap a (end_blocks s a).1) (view-wrap a (end_blocks s a).1) h))

translate-IsInStep :
    (s : SegmentStream) (es : List StreamEvent) (p : Published)
    → IsInStep s es
    → IsInStep (translate s p).0 (es ++ (translate s p).1)
unfolding translate end_step finish_subagent run_marks advance
translate-IsInStep s es (chunk c) h =
    map_chunk-IsInStep s es "" c _ (view-plain (map_chunk s "" c).1 (map_chunk-plain s "" c)) h
translate-IsInStep s es (subagent_chunk a c) h =
    map_chunk-IsInStep s es a c _ (view-wrap a (map_chunk s a c).1) h
translate-IsInStep s es (step_committed none n r u) h = end_main-IsInStep s es n r u h
translate-IsInStep s es (step_committed (some a) n r u) h =
    end_nested-IsInStep s es a (step_finished n (some a) r u) refl (λ m. refl) h
translate-IsInStep s es (needs_input p) h =
    neutral-IsInStep s es (input_required p) refl (λ m. refl) h
translate-IsInStep s es (started_subagent a n d) h =
    neutral-IsInStep s es (subagent_started a n d) refl (λ m. refl) h
translate-IsInStep s es (completed_subagent a) h =
    end_nested-IsInStep s es a (subagent_finished a completed none) refl (λ m. refl) h
translate-IsInStep s es (failed_subagent a x e) h =
    end_nested-IsInStep s es a (subagent_finished a (if x then cancelled else failed) e) refl
      (λ m. refl) h
translate-IsInStep s es (text_result t) h =
    rw (append-nil es) (same_blocks-IsInStep s (record s { one_shot_text = t }) es refl refl h)
translate-IsInStep s es (other_type n v true) h = rw (append-nil es) h
translate-IsInStep s es (other_type n v false) h =
    neutral-IsInStep s es (custom n v) refl (λ m. refl) h

push-agents : (s : SegmentStream) (es : List StreamEvent) → (push s es).agents ≡ s.agents
unfolding push flush
push-agents s [] = refl
push-agents s (e ∷ es) = ground arith

push-ids : (s : SegmentStream) (es : List StreamEvent) → (push s es).ids ≡ s.ids
unfolding push flush
push-ids s [] = refl
push-ids s (e ∷ es) = ground arith

forwards-IsInStep :
    (s : SegmentStream) (es : List StreamEvent) (ps : List Published)
    → IsInStep s es
    → IsInStep (forwards s ps) (es ++ emitted s ps)
unfolding forwards emitted forward
forwards-IsInStep s es [] h = rw (append-nil es) h
forwards-IsInStep s es (p ∷ ps) h =
    rw (sym (append_assoc es (translate s p).1 (emitted (forward s p) ps))) (
      forwards-IsInStep (forward s p) (es ++ (translate s p).1) ps (
        same_blocks-IsInStep (translate s p).0 (forward s p) (es ++ (translate s p).1)
          (push-agents (translate s p).0 (translate s p).1)
          (push-ids (translate s p).0 (translate s p).1) (translate-IsInStep s es p h)))

-- Over any run of published events of a new segment, and for each agent, a reader of the agent's
-- stream events is never lost: a message starts under a number above all of the agent's earlier
-- ones and only when no other of it is open, its content and its end name the open one, and a step
-- of the main agent ends with none open. What the reader sees open at the end is what the segment
-- has open.
pub emitted-IsInStep :
    (d : Deps) (ps : List Published) → IsInStep (forwards (init d) ps) (emitted (init d) ps)
unfolding init blocks lookup view run_marks
emitted-IsInStep d ps = forwards-IsInStep (init d) [] ps λ key. (inl refl, (0, omega arith, refl))
