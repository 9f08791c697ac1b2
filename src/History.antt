-- ===== src/History.antt =====
-- The message history on its way to the model, packages/agentenkit/src/core/messages.ts.
-- A tool call id that is absent and an empty one are both falsy in the source: both are `""` here.
-- A result's value stands as its JSON text. Sets that are only asked for membership are lists.
pub mod Repair
pub mod Closing
pub mod Grounding
pub mod Prompt
mod Samples
use mathlib.Core.Option
use mathlib.Core.Option.{Option}
use agentic_kit.Base.{
  ℕ, suc, ◌+◌, Bool, true, false, not, ◌&&◌, ◌||◌, List, [], ◌∷◌, ◌++◌, map, none, some, String,
  str_eq, ◌==◌, if◌then◌else◌, keep_if, any, length, get_elem?, drop, is_some, is_text, or_else,
}

pub data Role : Type 0 where
  user assistant system tool : Role

pub data Part : Type 0 where
  tool_call : String → String → Part
  tool_result : String → String → String → Part
  other : String → Part

-- An array of parts, a text, or an object with its `type`, `text` and `coversUpTo`.
pub data Content : Type 0 where
  plain : String → Content
  parts : List Part → Content
  object : Option String → Option String → Option String → Content

pub record Message : Type 0 where
  pub id : String
  pub role : Role
  pub content : Content

abbrev pub parts_of : Content → List Part
parts_of (parts ps) = ps
parts_of _ = []

abbrev pub is_array : Content → Bool
is_array (parts ps) = true
is_array _ = false

abbrev pub is_tool : Role → Bool
is_tool tool = true
is_tool _ = false

abbrev pub is_assistant : Role → Bool
is_assistant assistant = true
is_assistant _ = false

abbrev pub has : String → List String → Bool
has id ids = any (str_eq id) ids

-- The calls of a message that name an id, with their tools.
unfoldable pub calls_in : List Part → List (String × String)
calls_in [] = []
calls_in (tool_call id name ∷ ps) =
    let rest = calls_in ps in if str_eq id "" then rest else (id, name) ∷ rest
calls_in (_ ∷ ps) = calls_in ps

unfoldable pub results_in : List Part → List String
results_in [] = []
results_in (tool_result id name value ∷ ps) =
    let rest = results_in ps in if str_eq id "" then rest else id ∷ rest
results_in (_ ∷ ps) = results_in ps

abbrev pub ids_of : List (String × String) → List String
ids_of = map λ c. c.0

-- The ids that an assistant's turn calls.
unfoldable pub called_by : Message → List String
called_by m = if is_assistant m.role then ids_of (calls_in (parts_of m.content)) else []

-- `p.type !== 'tool-result' || !p.toolCallId || called.has(p.toolCallId)`.
abbrev pub is_called : List String → Part → Bool
is_called called (tool_result id name value) = str_eq id "" || has id called
is_called called _ = true

-- What `dropOrphanResults` pushes for one message.
unfoldable pub keep_called : List String → Message → List Message
keep_called called m =
    let all = parts_of m.content in
    let kept = keep_if (is_called called) all in
    if not (is_tool m.role) || not (is_array m.content)
    then m ∷ []
    else if length kept == length all
    then m ∷ []
    else if length kept == 0
    then []
    else record m { content = parts kept } ∷ []

unfoldable pub drop_orphans_from : List String → List Message → List Message
drop_orphans_from called [] = []
drop_orphans_from called (m ∷ ms) =
    let called' = called_by m ++ called in keep_called called' m ++ drop_orphans_from called' ms

abbrev pub drop_orphan_results : List Message → List Message
drop_orphan_results = drop_orphans_from []

-- The ids that the run of tool messages at the head of a history answers.
unfoldable pub answered_by : List Message → List String
answered_by [] = []
answered_by (m ∷ ms) =
    let rest = answered_by ms in
    if is_tool m.role then results_in (parts_of m.content) ++ rest else []

-- `DANGLING_CALL_RESULT`.
abbrev pub dangling_call_result : String
dangling_call_result = "{\"cancelled\":true,\"reason\":\"no result was recorded for this call\"}"

abbrev pub dangling : String × String → Part
dangling (id, name) = tool_result id name dangling_call_result

-- The results to add for a message, by the tool messages that follow it.
unfoldable pub missing : Message → List Message → List Part
missing m rest =
    if is_assistant m.role
    then map dangling
        (keep_if (λ c. not (has c.0 (answered_by rest))) (calls_in (parts_of m.content)))
    else []

-- The turn that `out.push({ role: 'tool', content: missing })` adds, when there is one.
abbrev pub added : List Part → List Message
added [] = []
added (p ∷ ps) = record { id = ""; role = tool; content = parts (p ∷ ps) } ∷ []

-- The loop. The tool messages after a call are pushed first, then what the call misses, and the
-- loop goes on behind them: `owed` is what is to be added where the run of tool messages ends.
unfoldable pub close_calls : List Part → List Message → List Message
close_calls owed [] = added owed
close_calls owed (m ∷ ms) =
    let within = m ∷ close_calls owed ms in
    let after = added owed ++ (m ∷ close_calls (missing m ms) ms) in
    if is_tool m.role then within else after

unfoldable pub repair_dangling_tool_calls : List Message → List Message
repair_dangling_tool_calls input = close_calls [] (drop_orphan_results input)

-- `promptMessage`: an object with a text `type` and a text `text` is unwrapped to that text.
unfoldable pub prompt_content : Content → Content
prompt_content (object (some type) (some text) covers) = plain text
prompt_content c = c

unfoldable pub prompt_message : Message → Message
prompt_message m = record m { content = prompt_content m.content }

abbrev pub context_summary : String
context_summary = "CONTEXT_SUMMARY"

-- `summaryOf`: whether it is a summary, and the id that it covers up to.
unfoldable pub summary_of : Content → Option (Option String)
summary_of (object type text covers) = if is_text type context_summary then some covers else none
summary_of _ = none

abbrev pub is_summary : Message → Bool
is_summary m = is_some (summary_of m.content)

abbrev pub note_summary :
    ℕ → Option (ℕ × Option String) → Option (Option String) → Option (ℕ × Option String)
note_summary i found none = found
note_summary i found (some covers) = some (i, covers)

-- The index of the latest summary and what it covers, as `forEach` leaves them.
unfoldable pub latest_from :
    ℕ → Option (ℕ × Option String) → List Message → Option (ℕ × Option String)
latest_from i found [] = found
latest_from i found (m ∷ ms) = latest_from (suc i) (note_summary i found (summary_of m.content)) ms

-- `history.findIndex((m) => m.id === covers)`.
unfoldable pub find_index : String → List Message → Option ℕ
find_index id [] = none
find_index id (m ∷ ms) =
    let rest = Option.map suc (find_index id ms) in if str_eq m.id id then some 0 else rest

abbrev pub covered_at : Option String → List Message → Option ℕ
covered_at none history = none
covered_at (some id) history = find_index id history

abbrev pub not_summaries : List Message → List Message
not_summaries = keep_if λ m. not (is_summary m)

-- `[history[latest], ...rest]`; the index is one of the history's.
abbrev pub with_latest : Option Message → List Message → List Message
with_latest none rest = rest
with_latest (some m) rest = m ∷ rest

unfoldable pub prompt_history : List Message → List Message
prompt_history history = elim (latest_from 0 none history) [
  | none ↦ history
  | some (latest, covers) ↦ elim (covered_at covers history) [
    | none ↦ not_summaries history
    | some at ↦ with_latest (get_elem? history latest) (not_summaries (drop (suc at) history))
  ]
]
