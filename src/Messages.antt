-- ===== src/Messages.antt =====
-- A thread's messages held in memory, `MemoryStorage.messages` in
-- packages/agentenkit/src/adapters/memory.ts, with the records of packages/agentenkit/src/core/types.ts.
-- The functions are on the rows of one thread; a fresh id and the clock are arguments, and a content
-- stands as its JSON.
pub mod Cutting
mod Samples
use agentic_kit.Base.{
  ℕ, suc, ◌+◌, Bool, true, false, List, [], ◌∷◌, ◌++◌, Option, none, some, String, str_eq,
  if◌then◌else◌, keep_if, length,
}
use agentic_kit.History.{Role}

pub record MessageDto : Type 0 where
  pub id : String
  pub thread_id : String
  pub agent_id : Option String
  pub role : Role
  pub content : String
  pub created_at : ℕ

pub record NewMessage : Type 0 where
  pub new_agent_id : Option String
  pub new_role : Role
  pub new_content : String

abbrev pub message_of : String → String → ℕ → NewMessage → MessageDto
message_of thread fresh_id now m = record {
  id = fresh_id;
  thread_id = thread;
  agent_id = m.new_agent_id;
  role = m.new_role;
  content = m.new_content;
  created_at = now;
}

unfoldable pub append_message :
    List MessageDto → String → String → ℕ → NewMessage → List MessageDto × MessageDto
append_message rows thread fresh_id now m =
    let dto = message_of thread fresh_id now m in (rows ++ (dto ∷ []), dto)

abbrev pub is_of : Option String → MessageDto → Bool
is_of agent m = same agent m.agent_id
  where
    same : Option String → Option String → Bool
    same none none = true
    same none (some b) = false
    same (some a) none = false
    same (some a) (some b) = str_eq b a

-- All rows, or those of one agent, where `none` is the main one.
unfoldable pub list_messages : List MessageDto → Option (Option String) → List MessageDto
list_messages rows none = rows
list_messages rows (some agent) = keep_if (is_of agent) rows

-- The rows before the first with the id, and how many went.
unfoldable pub delete_from : List MessageDto → String → List MessageDto × ℕ
delete_from [] message_id = ([], 0)
delete_from (m ∷ ms) message_id =
    let (kept, gone) = delete_from ms message_id in
    if str_eq m.id message_id then ([], suc (length ms)) else (m ∷ kept, gone)
