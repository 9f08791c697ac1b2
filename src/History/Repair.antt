-- ===== src/History/Repair.antt =====
-- The repaired history: no result without its call, every call with its result, nothing else lost.
use agentic_kit.Base.{
  ◌≡◌, refl, sym, ap₂, ◌∙◌, Bool, not, List, [], ◌∷◌, ◌++◌, String, keep_if, arith, Bool-cases, inl,
  inr, keep_if-append,
}
use agentic_kit.History.{
  Role, user, assistant, system, tool, Part, Message, Content, parts, plain, object, is_tool,
  called_by, missing, added, keep_called, drop_orphans_from, close_calls,
  repair_dangling_tool_calls,
}
use agentic_kit.History.Closing.{IsAnswered, close_calls-IsAnswered, close_calls_same}
use agentic_kit.History.Grounding.{
  IsGrounded, drop_orphans_from-IsGrounded, drop_orphans_from_same, close_calls-IsGrounded,
}

-- In the repaired history every call of an assistant's turn that has an id is answered among the
-- tool messages right behind it, and every result that has an id follows a call with that id.
pub repair-IsAnswered :
    (input : List Message)
    → IsAnswered (repair_dangling_tool_calls input)
      × IsGrounded [] (repair_dangling_tool_calls input)
unfolding repair_dangling_tool_calls
repair-IsAnswered input = (
  close_calls-IsAnswered [] (drop_orphans_from [] input),
  close_calls-IsGrounded [] [] (drop_orphans_from [] input) tt
      (drop_orphans_from-IsGrounded [] input),
)

repair_well :
    (ms : List Message) → IsAnswered ms → IsGrounded [] ms → repair_dangling_tool_calls ms ≡ ms
unfolding repair_dangling_tool_calls
repair_well ms a g = rw (drop_orphans_from_same [] ms g) (close_calls_same ms a)

-- A history that has no unanswered call and no result without a call is left as it is, so a second
-- repair changes nothing.
pub repair_same :
    (input : List Message)
    → (IsAnswered input → IsGrounded [] input → repair_dangling_tool_calls input ≡ input)
      × (repair_dangling_tool_calls (repair_dangling_tool_calls input)
          ≡ repair_dangling_tool_calls input)
repair_same input =
    let (answered, grounded) = repair-IsAnswered input in
    (repair_well input, repair_well (repair_dangling_tool_calls input) answered grounded)

abbrev pub is_turn : Message → Bool
is_turn m = not (is_tool m.role)

abbrev pub turns : List Message → List Message
turns = keep_if is_turn

turns-keep_called :
    (called : List String) (id : String) (r : Role) (c : Content)
    → let m : Message = record { id = id; role = r; content = c } in
      turns (keep_called called m) ≡ turns (m ∷ [])
unfolding keep_called
turns-keep_called called id tool (parts ps) = ground arith
turns-keep_called called id tool (plain t) = refl
turns-keep_called called id tool (object a b c) = refl
turns-keep_called called id user c = refl
turns-keep_called called id assistant c = refl
turns-keep_called called id system c = refl

turns-drop_orphans_from :
    (called : List String) (ms : List Message) → turns (drop_orphans_from called ms) ≡ turns ms
unfolding drop_orphans_from
turns-drop_orphans_from called [] = refl
turns-drop_orphans_from called (m ∷ ms) =
    keep_if-append is_turn (keep_called (called_by m ++ called) m) _
    ∙ ap₂ ◌++◌ (turns-keep_called (called_by m ++ called) m.id m.role m.content)
        (turns-drop_orphans_from (called_by m ++ called) ms)
    ∙ sym (keep_if-append is_turn (m ∷ []) ms)

turns-added : (owed : List Part) (ms : List Message) → turns (added owed ++ ms) ≡ turns ms
turns-added [] ms = refl
turns-added (p ∷ ps) ms = refl

turns-close_calls : (owed : List Part) (ms : List Message) → turns (close_calls owed ms) ≡ turns ms
unfolding close_calls
turns-close_calls [] [] = refl
turns-close_calls (p ∷ ps) [] = refl
turns-close_calls owed (m ∷ ms) = elim (Bool-cases (is_tool m.role)) [
  | inl e ↦ rw e (rw e (turns-close_calls owed ms))
  | inr e ↦
      rw (e, turns-added owed (m ∷ close_calls (missing m ms) ms))
        (rw (e, turns-close_calls (missing m ms) ms))
]

-- The repair keeps every turn that is not a tool message, as it was and in its order.
pub turns-repair : (input : List Message) → turns (repair_dangling_tool_calls input) ≡ turns input
unfolding repair_dangling_tool_calls
turns-repair input =
    turns-close_calls [] (drop_orphans_from [] input) ∙ turns-drop_orphans_from [] input
