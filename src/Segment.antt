-- ===== src/Segment.antt =====
-- The worker's side of a run stream, `SegmentStream` in packages/agentenkit/src/core/segment.ts.
-- `sent` is the sequence of batches handed to `streams.append`, one after another along the promise
-- chain; `closings` is what `streams.close` was called with. A published event's payload comes in
-- the form that `String(...)` and `Number(...)` give its fields.
pub mod Flow
pub mod Grammar
pub mod Agents
pub mod Steps
pub mod Readable
pub mod Ending
mod Samples
use agentic_kit.Base.{
  ℕ, suc, ◌+◌, Bool, true, false, not, ◌&&◌, ◌||◌, List, [], ◌∷◌, ◌++◌, map, Option, none, some,
  String, Dict, lookup, insert, str_eq, ◌==◌, leb, if◌then◌else◌, any, keep_if, length, or_else,
}
use agentic_kit.StreamEvents.{
  StreamUsage, StreamEvent, StreamEnd, SubagentStatus, completed, failed, cancelled,
  text_message_start, text_message_content, text_message_end, reasoning_start, reasoning_content,
  reasoning_end, tool_call_start, tool_call_args, tool_call_end, tool_call_result, source,
  step_finished, input_required, subagent_started, subagent_event, subagent_finished, custom,
  run_started,
}

-- The text, reasoning and tool calls that one agent has open in the stream.
pub record Blocks : Type 0 where
  pub text : Option ℕ
  pub reasoning : Option ℕ
  pub tools : List String

abbrev pub no_blocks : Blocks
no_blocks = record { text = none; reasoning = none; tools = [] }

-- The settings that a segment reads, and `JSON.parse`, which fails on what is no JSON.
pub record Deps : Type 0 where
  pub stream_flush_ms : ℕ
  pub stream_flush_events : ℕ
  pub parse_json : String → Option String

pub record SegmentStream : Type 0 where
  pub deps : Deps
  pub buf : List StreamEvent
  pub timer : Bool
  pub sent : List (List StreamEvent)
  pub ended : Bool
  pub agents : Dict Blocks
  pub ids : ℕ
  pub one_shot_text : Option String
  pub closings : List StreamEnd

-- `new SegmentStream(...)`.
unfoldable pub init : Deps → SegmentStream
init deps = record {
  deps = deps;
  buf = [];
  timer = false;
  sent = [];
  ended = false;
  agents = [];
  ids = 0;
  one_shot_text = none;
  closings = [];
}

-- Events that go out at once.
unfoldable pub immediate : StreamEvent → Bool
immediate (run_started t r s n) = true
immediate (tool_call_result i n r) = true
immediate (step_finished n a f u) = true
immediate (input_required p) = true
immediate (subagent_finished a s e) = true
immediate (subagent_event a e) = immediate e
immediate _ = false

abbrev pub with_batch : List StreamEvent → List (List StreamEvent) → List (List StreamEvent)
with_batch [] sent = sent
with_batch (e ∷ es) sent = sent ++ ((e ∷ es) ∷ [])

unfoldable pub flush : SegmentStream → SegmentStream
flush s = record s { timer = false; buf = []; sent = with_batch s.buf s.sent }

abbrev pub is_due : SegmentStream → List StreamEvent → Bool
is_due s events =
    s.deps.stream_flush_ms == 0
    || (leb s.deps.stream_flush_events (length s.buf) || any immediate events)

unfoldable pub push : SegmentStream → List StreamEvent → SegmentStream
push s [] = s
push s (e ∷ es) =
    let queued = record s { buf = s.buf ++ (e ∷ es) } in
    let waiting = record queued { timer = true } in
    if s.ended then s else if is_due queued (e ∷ es) then flush queued else waiting

-- `this.agents.get(key)`, or a new entry.
unfoldable pub blocks : SegmentStream → String → Blocks
blocks s key = or_else (lookup key s.agents) no_blocks

unfoldable pub wrap : String → List StreamEvent → List StreamEvent
wrap agent_id = map (subagent_event agent_id)

abbrev pub end_reasoning : Option ℕ → List StreamEvent
end_reasoning none = []
end_reasoning (some i) = reasoning_end i ∷ []

abbrev pub end_text : Option ℕ → List StreamEvent
end_text none = []
end_text (some i) = text_message_end i ∷ []

-- `endBlocks` on an agent's blocks: what it pushes, and the blocks after it.
unfoldable pub end_open : Blocks → List StreamEvent × Blocks
end_open b =
    (end_reasoning b.reasoning ++ end_text b.text, record b { text = none; reasoning = none })

abbrev pub set_blocks : SegmentStream → String → Blocks → SegmentStream
set_blocks s key b = record s { agents = insert key b s.agents }

abbrev pub end_found : SegmentStream → String → Option Blocks → SegmentStream × List StreamEvent
end_found s key none = (s, [])
end_found s key (some b) = let (out, b') = end_open b in (set_blocks s key b', out)

unfoldable pub end_blocks : SegmentStream → String → SegmentStream × List StreamEvent
end_blocks s key = end_found s key (lookup key s.agents)

-- A stream part of the SDK. `args` of a whole call is a text, or another value as its JSON.
pub data CallArgs : Type 0 where
  text_args : String → CallArgs
  value_args : String → CallArgs

pub data Chunk : Type 0 where
  text_delta : String → Chunk
  reasoning_delta : String → Chunk
  call_streaming_start : String → String → Chunk
  call_delta : String → String → String → Chunk
  call : String → String → CallArgs → Chunk
  call_result : String → String → String → Chunk
  source_part : String → Chunk
  unknown_part : Chunk

-- A text that is no JSON is left as it came.
abbrev pub parsed_args : Deps → CallArgs → String
parsed_args d (value_args v) = v
parsed_args d (text_args t) = or_else (d.parse_json t) t

-- `startTool`: what it pushes, and the open calls after it.
unfoldable pub start_tool : List String → String → String → List StreamEvent × List String
start_tool tools id name =
    if any (str_eq id) tools
    then ([], tools)
    else (tool_call_start id name ∷ [], tools ++ (id ∷ []))

-- One chunk for an agent's blocks, with the last message number taken: the blocks and the number
-- after it, and what it pushes.
abbrev pub start_text : Option ℕ → ℕ → ℕ × ℕ × List StreamEvent
start_text (some i) ids = (i, ids, [])
start_text none ids = (suc ids, suc ids, text_message_start (suc ids) ∷ [])

abbrev pub start_reasoning : Option ℕ → ℕ → ℕ × ℕ × List StreamEvent
start_reasoning (some i) ids = (i, ids, [])
start_reasoning none ids = (suc ids, suc ids, reasoning_start (suc ids) ∷ [])

unfoldable pub map_open : Deps → Chunk → Blocks → ℕ → Blocks × ℕ × List StreamEvent
map_open d (text_delta delta) b ids =
    let (i, ids', out) = start_text b.text ids in
    (
      record b { text = some i; reasoning = none },
      ids',
      end_reasoning b.reasoning ++ (out ++ (text_message_content i delta ∷ [])),
    )
map_open d (reasoning_delta delta) b ids =
    let (i, ids', out) = start_reasoning b.reasoning ids in
    (
      record b { text = none; reasoning = some i },
      ids',
      end_text b.text ++ (out ++ (reasoning_content i delta ∷ [])),
    )
map_open d (call_streaming_start id name) b ids =
    let (ending, b') = end_open b in
    let (out, tools) = start_tool b'.tools id name in
    (record b' { tools = tools }, ids, ending ++ out)
map_open d (call_delta id name delta) b ids =
    let (out, tools) = start_tool b.tools id name in
    (record b { tools = tools }, ids, out ++ (tool_call_args id delta ∷ []))
map_open d (call id name args) b ids =
    let (ending, b') = end_open b in
    let (out, tools) = start_tool b'.tools id name in
    (
      record b' { tools = keep_if (λ t. not (str_eq id t)) tools },
      ids,
      ending ++ (out ++ (tool_call_end id name (parsed_args d args) ∷ [])),
    )
map_open d (call_result id name result) b ids = (b, ids, tool_call_result id name result ∷ [])
map_open d (source_part v) b ids = (b, ids, source v ∷ [])
map_open d unknown_part b ids = (b, ids, [])

unfoldable pub map_chunk : SegmentStream → String → Chunk → SegmentStream × List StreamEvent
map_chunk s key c =
    let (b, ids', out) = map_open s.deps c (blocks s key) s.ids in
    (record s { agents = insert key b s.agents; ids = ids' }, out)

-- What is published on the thread while the segment is open.
pub data Published : Type 0 where
  chunk : Chunk → Published
  subagent_chunk : String → Chunk → Published
  step_committed : Option String → ℕ → String → StreamUsage → Published
  needs_input : String → Published
  started_subagent : String → String → ℕ → Published
  completed_subagent : String → Published
  -- Whether its payload's state is CANCELLED, and its error.
  failed_subagent : String → Bool → Option String → Published
  text_result : Option String → Published
  other_type : String → String → Bool → Published

abbrev pub push_from : SegmentStream × List StreamEvent → SegmentStream
push_from (s, es) = push s es

-- The blocks of the agent whose step was saved, as the main stream shows them.
unfoldable pub end_step : SegmentStream → Option String → SegmentStream × List StreamEvent
end_step s none = end_blocks s ""
end_step s (some agent_id) = let (s', out) = end_blocks s agent_id in (s', wrap agent_id out)

unfoldable pub finish_subagent :
    SegmentStream → String → SubagentStatus → Option String → SegmentStream × List StreamEvent
finish_subagent s agent_id status error =
    let (s', out) = end_blocks s agent_id in
    (s', wrap agent_id out ++ (subagent_finished agent_id status error ∷ []))

-- What `forward` does before its push: the segment, and the events that it pushes.
unfoldable pub translate : SegmentStream → Published → SegmentStream × List StreamEvent
translate s (chunk c) = map_chunk s "" c
translate s (subagent_chunk agent_id c) =
    let (s', out) = map_chunk s agent_id c in (s', wrap agent_id out)
translate s (step_committed agent_id step reason usage) =
    let (s', out) = end_step s agent_id in
    (s', out ++ (step_finished step agent_id reason usage ∷ []))
translate s (needs_input p) = (s, input_required p ∷ [])
translate s (started_subagent agent_id name depth) = (s, subagent_started agent_id name depth ∷ [])
translate s (completed_subagent agent_id) = finish_subagent s agent_id completed none
translate s (failed_subagent agent_id is_cancelled error) =
    finish_subagent s agent_id (if is_cancelled then cancelled else failed) error
translate s (text_result text) = (record s { one_shot_text = text }, [])
translate s (other_type name value reserved) = (s, if reserved then [] else custom name value ∷ [])

unfoldable pub forward : SegmentStream → Published → SegmentStream
forward s p = push_from (translate s p)

-- The loop over `this.agents.keys()`.
unfoldable pub end_all : SegmentStream → List String → SegmentStream × List StreamEvent
end_all s [] = (s, [])
end_all s (key ∷ keys) =
    let (s', out) = end_blocks s key in let (s'', rest) = end_all s' keys in (s'', out ++ rest)

abbrev pub keys_of : Dict Blocks → List String
keys_of = map λ entry. entry.0

-- `close` waits twice before it ends: after the push of the ends, and after the flush.
abbrev pub close_push : SegmentStream → SegmentStream
close_push s = push_from (end_all s (keys_of s.agents))

abbrev pub close_end : SegmentStream → StreamEnd → SegmentStream
close_end s end = record s { ended = true; closings = s.closings ++ (end ∷ []) }

-- What is pushed during the first wait goes out with the flush; what is pushed during the second is kept
-- back, but for what a full queue or an urgent event hands over.
unfoldable pub close_while :
    SegmentStream → List StreamEvent → List StreamEvent → StreamEnd → SegmentStream
close_while s during after end =
    let waited = push (flush (push (close_push s) during)) after in
    if s.ended then s else close_end waited end

-- A close during which nothing is pushed.
unfoldable pub close : SegmentStream → StreamEnd → SegmentStream
close s end = let flushed = flush (close_push s) in if s.ended then s else close_end flushed end
