-- ===== src/StreamEvents.antt =====
-- The events that a run stream carries, packages/agentenkit/src/core/stream-events.ts.
-- A value of type `unknown` stands as its JSON text. A message id that the segment makes is
-- `<streamId>:m<n>`: it stands as its number n, since a stream's events all share the stream id. An event that asks for input stands as its whole JSON.
use agentic_kit.Base.{ℕ, Bool, true, false, List, Option, String}

pub record StreamUsage : Type 0 where
  pub input_tokens : ℕ
  pub cached_input_tokens : ℕ
  pub output_tokens : ℕ
  pub total_tokens : ℕ

pub record StreamCost : Type 0 where
  pub currency : String
  pub micros : ℕ

-- How a segment ended normally, and how it ended badly.
pub data FinishStatus : Type 0 where
  finished parked stopped : FinishStatus

pub data ErrorStatus : Type 0 where
  error lost : ErrorStatus

pub data SubagentStatus : Type 0 where
  completed failed cancelled : SubagentStatus

-- The last item of a stream.
pub data StreamEnd : Type 0 where
  run_finished :
      FinishStatus
      → Option StreamUsage
      → Option (List StreamCost)
      → Option String
      → Option String
      → StreamEnd
  run_error : ErrorStatus → String → StreamEnd

pub record StreamMessage : Type 0 where
  pub id : String
  pub role : String
  pub content : String
  pub agent_id : Option String
  pub created_at : String

pub data StreamEvent : Type 0 where
  run_started : String → String → String → ℕ → StreamEvent
  text_message_start : ℕ → StreamEvent
  text_message_content : ℕ → String → StreamEvent
  text_message_end : ℕ → StreamEvent
  reasoning_start : ℕ → StreamEvent
  reasoning_content : ℕ → String → StreamEvent
  reasoning_end : ℕ → StreamEvent
  tool_call_start : String → String → StreamEvent
  tool_call_args : String → String → StreamEvent
  tool_call_end : String → String → String → StreamEvent
  tool_call_result : String → String → String → StreamEvent
  source : String → StreamEvent
  step_finished : ℕ → Option String → String → StreamUsage → StreamEvent
  message_appended : StreamMessage → Option String → StreamEvent
  input_required : String → StreamEvent
  subagent_started : String → String → ℕ → StreamEvent
  subagent_event : String → StreamEvent → StreamEvent
  subagent_finished : String → SubagentStatus → Option String → StreamEvent
  custom : String → String → StreamEvent
  ends : StreamEnd → StreamEvent

-- `isStreamEnd`.
unfoldable pub is_stream_end : StreamEvent → Bool
is_stream_end (ends e) = true
is_stream_end _ = false
