-- ===== src/Messages/Cutting.antt =====
-- What an edit leaves of a thread.
use agentic_kit.Base.{
  ℕ, suc, ◌≡◌, refl, ap, ◌∙◌, false, List, [], ◌∷◌, ◌++◌, Option, none, some, String, str_eq,
  keep_if, keep_if-append, length, any, arith, Bool-cases, inl, inr, str_eq-eq_of,
}
use agentic_kit.Messages.{
  MessageDto, NewMessage, message_of, append_message, is_of, list_messages, delete_from,
}

delete_from-none :
    (rows : List MessageDto) (id : String)
    → any (λ r. str_eq r.id id) rows ≡ false
    → delete_from rows id ≡ (rows, 0)
unfolding delete_from
delete_from-none [] id h = refl
delete_from-none (m ∷ ms) id h = elim (Bool-cases (str_eq m.id id)) [
  | inl e ↦ absurd (ground (arith, e, h))
  | inr e ↦ rw e (rw (delete_from-none ms id (rw e at h)) refl)
]

cut :
    (before after : List MessageDto) (m : MessageDto)
    → any (λ r. str_eq r.id m.id) before ≡ false
    → delete_from (before ++ (m ∷ after)) m.id ≡ (before, suc (length after))
unfolding delete_from
cut [] after m h = rw (str_eq-eq_of {s = m.id} {t = m.id} refl) refl
cut (x ∷ xs) after m h = elim (Bool-cases (str_eq x.id m.id)) [
  | inl e ↦ absurd (ground (arith, e, h))
  | inr e ↦ rw e (rw (cut xs after m (rw e at h)) refl)
]

-- Deleting from a message on, where no earlier one has its id, keeps the earlier messages alone and
-- tells how many went; an id that no message has deletes nothing. A message that is appended then
-- comes last, and its agent's list has it behind the kept messages of that agent.
pub delete_from-append_message :
    (before after : List MessageDto) (m : MessageDto) (thread fresh_id : String) (now : ℕ)
    (new : NewMessage)
    → any (λ r. str_eq r.id m.id) before ≡ false
    → let rows = before ++ (m ∷ after) in
      let (kept, gone) = delete_from rows m.id in
      let (rows', dto) = append_message kept thread fresh_id now new in
      (kept ≡ before)
      × (gone ≡ suc (length after))
      × (list_messages rows' (some new.new_agent_id)
          ≡ list_messages before (some new.new_agent_id) ++ (dto ∷ []))
      × (delete_from before m.id ≡ (before, 0))
unfolding append_message list_messages
delete_from-append_message before after m thread fresh_id now new h =
    let c = cut before after m h in
    (
      ap (λ r. r.0) c,
      ap (λ r. r.1) c,
      ap (λ r. keep_if (is_of new.new_agent_id) (r.0 ++ (message_of thread fresh_id now new ∷ [])))
            c
          ∙ keep_if-append (is_of new.new_agent_id) before (message_of thread fresh_id now new ∷ [])
          ∙ ap (λ xs. keep_if (is_of new.new_agent_id) before ++ xs)
              (own new.new_agent_id (message_of thread fresh_id now new) refl),
      delete_from-none before m.id h,
    )
  where
    own :
        (a : Option String) (d : MessageDto) → d.agent_id ≡ a → keep_if (is_of a) (d ∷ []) ≡ d ∷ []
    own none d e = rw e refl
    own (some a) d e = rw e (rw (str_eq-eq_of {s = a} {t = a} refl) refl)
