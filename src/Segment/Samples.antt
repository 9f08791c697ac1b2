-- ===== src/Segment/Samples.antt =====
-- The segment on concrete runs.
use agentic_kit.Base.{
  ℕ, String, ◌≡◌, ◌≢◌, refl, [], ◌∷◌, ◌++◌, none, some, List, arith, inl, eq_iff,
}
use agentic_kit.StreamEvents.{StreamEnd, StreamUsage, run_finished, finished}
use agentic_kit.Segment.{
  Deps, Published, chunk, subagent_chunk, started_subagent, text_delta, reasoning_delta,
  step_committed, init, blocks, close,
}
use agentic_kit.Segment.Grammar.{run_marks, view}
use agentic_kit.Segment.Agents.{IsInStep, marks, fresh}
use agentic_kit.Segment.Flow.{
  forwards, emitted, pushed, joined, IsWaiting, pushed-forwards, forwards-IsWaiting,
}
use agentic_kit.Segment.Readable.{emitted-IsInStep}
use agentic_kit.Segment.Ending.{close-nested}

abbrev settings : Deps
settings = record { stream_flush_ms = 40; stream_flush_events = 3; parse_json = λ t. some t }

abbrev usage : StreamUsage
usage = record { input_tokens = 7; cached_input_tokens = 0; output_tokens = 2; total_tokens = 9 }

-- A nested agent speaks while the main agent reasons, and the main step is saved.
abbrev two_agents : List Published
two_agents =
    chunk (reasoning_delta "why")
    ∷ started_subagent "a1" "helper" 1
    ∷ subagent_chunk "a1" (text_delta "hi")
    ∷ chunk (text_delta "so")
    ∷ step_committed none 1 "stop" usage
    ∷ []

abbrev done : StreamEnd
done = run_finished finished none none none none

pushed-forwards_example :
    pushed (forwards (init settings) two_agents)
    ≡ pushed (init settings) ++ emitted (init settings) two_agents
unfolding init
pushed-forwards_example = pushed-forwards (init settings) two_agents refl

forwards-IsWaiting_example : IsWaiting (forwards (init settings) two_agents)
unfolding init
forwards-IsWaiting_example = forwards-IsWaiting (init settings) two_agents (inl refl)

emitted-IsInStep_example :
    IsInStep (forwards (init settings) two_agents) (emitted (init settings) two_agents)
emitted-IsInStep_example = emitted-IsInStep settings two_agents

close-nested_example :
    (l : ℕ) × (run_marks fresh
        (view "a1" (joined (close (forwards (init settings) two_agents) done).sent))
      ≡ some (marks (blocks (forwards (init settings) two_agents) "a1") l))
close-nested_example = close-nested settings two_agents done "a1" differs
  where
    differs : ◌≢◌ {A = String} "a1" ""
    differs e = absurd (ground (arith, (eq_iff "a1" "").1 e))
