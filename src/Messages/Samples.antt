-- ===== src/Messages/Samples.antt =====
-- Messages that are cut and appended to.
use agentic_kit.Base.{◌≡◌, refl, [], ◌∷◌, ◌++◌, none, some}
use agentic_kit.History.{user, assistant}
use agentic_kit.Messages.{MessageDto, NewMessage, append_message, list_messages, delete_from}
use agentic_kit.Messages.Cutting.{delete_from-append_message}

abbrev asked : MessageDto
asked = record {
  id = "m1";
  thread_id = "t";
  agent_id = none;
  role = user;
  content = "hi";
  created_at = 1;
}

abbrev answered : MessageDto
answered = record {
  id = "m2";
  thread_id = "t";
  agent_id = none;
  role = assistant;
  content = "ho";
  created_at = 2;
}

abbrev edited : NewMessage
edited = record { new_agent_id = none; new_role = user; new_content = "hey" }

delete_from-append_message_example :
    let rows = (asked ∷ []) ++ (answered ∷ []) in
    let (kept, gone) = delete_from rows "m2" in
    let (rows', dto) = append_message kept "t" "m3" 5 edited in
    (kept ≡ asked ∷ [])
    × (gone ≡ 1)
    × (list_messages rows' (some none) ≡ list_messages (asked ∷ []) (some none) ++ (dto ∷ []))
    × (delete_from (asked ∷ []) "m2" ≡ (asked ∷ [], 0))
delete_from-append_message_example =
    delete_from-append_message (asked ∷ []) [] answered "t" "m3" 5 edited refl
