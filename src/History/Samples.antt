-- ===== src/History/Samples.antt =====
-- The history functions at concrete inputs.
use agentic_kit.Base.{◌≡◌, refl, List, [], ◌∷◌, some, String}
use agentic_kit.History.{
  Message, Content, plain, parts, object, Role, user, assistant, system, tool, tool_call,
  tool_result, dangling_call_result, repair_dangling_tool_calls, drop_orphans_from, keep_called,
  called_by, calls_in, results_in, answered_by, missing, close_calls, prompt_history, summary_of,
  context_summary,
}
use agentic_kit.History.Repair.{repair-IsAnswered, repair_same, turns-repair, turns}
use agentic_kit.History.Closing.{IsAnswered}
use agentic_kit.History.Grounding.{IsGrounded}
use agentic_kit.History.Prompt.{prompt_history_covered}

abbrev message : String → Role → Content → Message
message id role content = record { id = id; role = role; content = content }

-- A call that was never answered, and a result whose call is not in the history.
abbrev broken : List Message
broken =
    message "1" user (plain "hi")
    ∷ message "2" assistant (parts (tool_call "a" "search" ∷ []))
    ∷ message "3" tool (parts (tool_result "b" "fetch" "1" ∷ []))
    ∷ message "4" user (plain "go on")
    ∷ []

abbrev mended : List Message
mended =
    message "1" user (plain "hi")
    ∷ message "2" assistant (parts (tool_call "a" "search" ∷ []))
    ∷ message "" tool (parts (tool_result "a" "search" dangling_call_result ∷ []))
    ∷ message "4" user (plain "go on")
    ∷ []

repair_broken : repair_dangling_tool_calls broken ≡ mended
unfolding repair_dangling_tool_calls drop_orphans_from keep_called called_by calls_in results_in
    answered_by missing close_calls
repair_broken = refl

repair-IsAnswered_example :
    IsAnswered (repair_dangling_tool_calls broken)
    × IsGrounded [] (repair_dangling_tool_calls broken)
repair-IsAnswered_example = repair-IsAnswered broken

repair_same_example :
    (IsAnswered broken → IsGrounded [] broken → repair_dangling_tool_calls broken ≡ broken)
    × (repair_dangling_tool_calls (repair_dangling_tool_calls broken)
        ≡ repair_dangling_tool_calls broken)
repair_same_example = repair_same broken

turns-repair_example : turns (repair_dangling_tool_calls broken) ≡ turns broken
turns-repair_example = turns-repair broken

abbrev summary : String → Message
summary id = message "s" system (object (some context_summary) (some "so far") (some id))

abbrev one : Message
one = message "1" user (plain "hi")

abbrev two : Message
two = message "2" assistant (plain "yes")

prompt_history_covered_example :
    prompt_history (one ∷ two ∷ summary "1" ∷ []) ≡ summary "1" ∷ two ∷ []
unfolding summary_of
prompt_history_covered_example =
    prompt_history_covered [] (two ∷ []) [] one (summary "1") "1" refl tt tt refl
