-- ===== src/Publish/Routing.antt =====
-- Where an app's own event goes.
use agentic_kit.Base.{
  ℕ, ◌≡◌, ◌⊎◌, refl, Bool, true, false, ◌||◌, [], ◌∷◌, ◌++◌, Option, none, some, String, str_eq,
  if◌then◌else◌, Bool-cases, Option-cases, inl, inr, arith,
}
use agentic_kit.Events.{AgentEvent, append}
use agentic_kit.Segment.{SegmentStream, other_type, forward, translate, push}
use agentic_kit.StreamEvents.{custom}
use agentic_kit.Publish.{
  Notice, Outlets, reserved_event_types, is_in, to_segment, record_notice, publish_notice,
  publish_event, run_of,
}

-- It is on the bus and not on the stream, or on the stream and not on the bus.
abbrev pub IsDelivered : Outlets → Outlets → AgentEvent → Notice → Type 0
IsDelivered o o' event n =
    ((o'.bus ≡ o.bus ++ (event ∷ [])) × (o'.segment ≡ o.segment))
    ⊎ ((s : SegmentStream) × (o.segment ≡ some s)
        × (o'.bus ≡ o.bus)
        × (o'.rows ≡ o.rows)
        × (o'.segment ≡ some (push s (custom n.type_name n.payload ∷ []))))

notice-IsDelivered :
    (o : Outlets) (now : ℕ) (thread : String) (n : Notice) (name value : String) (reserved : Bool)
    → is_in n.type_name reserved_event_types ≡ false
    → n.shape ≡ other_type name value reserved
    → IsDelivered o (publish_notice o now thread n).0 (publish_notice o now thread n).1 n
unfolding publish_notice to_segment forward translate
notice-IsDelivered o now thread n name value reserved h e = elim (Option-cases o.segment) [
  | inl a ↦ rw a (inl (refl, refl))
  | inr (s, a) ↦ rw (a, h) (inr (s, refl, refl, refl, rw (e, h) refl))
]

record-IsDelivered :
    (o : Outlets) (now : ℕ) (thread : String) (n : Notice) (run_id : Option String)
    → is_in n.type_name reserved_event_types ≡ false
    → IsDelivered o
        (record_notice o now thread n run_id).0
        (record_notice o now thread n run_id).1
        n
unfolding record_notice
record-IsDelivered o now thread n run_id h = rw h (inl (refl, refl))

kept_rows :
    (o : Outlets) (now : ℕ) (thread : String) (n : Notice) (run_id : Option String)
    → is_in n.type_name reserved_event_types ≡ false
    → (record_notice o now thread n run_id).0.rows
      ≡ o.rows ++ ((record_notice o now thread n run_id).1 ∷ [])
unfolding record_notice append
kept_rows o now thread n run_id h = rw h refl

notice_rows :
    (o : Outlets) (now : ℕ) (thread : String) (n : Notice)
    → (publish_notice o now thread n).0.rows ≡ o.rows
unfolding publish_notice to_segment
notice_rows o now thread n = ground arith

-- An app's event is refused exactly when it has no type or one of the platform's. One that is not
-- refused is sent once: on the bus, or, when it is not kept and a run has a stream open, as one
-- custom event on the stream; and a kept one is the last entry of the thread record.
pub publish_event_once :
    (o : Outlets) (now : ℕ) (thread : String) (n : Notice) (durable : Bool) (name value : String)
    (reserved : Bool)
    → n.shape ≡ other_type name value reserved
    → ((publish_event o now thread n durable ≡ none)
        × ((str_eq n.type_name "" || is_in n.type_name reserved_event_types) ≡ true))
      ⊎ (((str_eq n.type_name "" || is_in n.type_name reserved_event_types) ≡ false)
          × (o' : Outlets) × (event : AgentEvent) × (publish_event o now thread n durable
              ≡ some (o', event))
          × IsDelivered o o' event n
          × (o'.rows ≡ (if durable then o.rows ++ (event ∷ []) else o.rows)))
unfolding publish_event
publish_event_once o now thread n durable name value reserved e =
    elim (Bool-cases (str_eq n.type_name "" || is_in n.type_name reserved_event_types)) [
      | inl h ↦ inl (rw h refl, h)
      | inr h ↦ inr (sent durable h)
    ]
  where
    reserved_not : (a b : Bool) → (a || b) ≡ false → b ≡ false
    reserved_not a b h = ground (arith, h)

    sent :
        (durable : Bool)
        → (str_eq n.type_name "" || is_in n.type_name reserved_event_types) ≡ false
        → ((str_eq n.type_name "" || is_in n.type_name reserved_event_types) ≡ false)
          × (o' : Outlets) × (event : AgentEvent) × (publish_event o now thread n durable
              ≡ some (o', event))
          × IsDelivered o o' event n
          × (o'.rows ≡ (if durable then o.rows ++ (event ∷ []) else o.rows))
    sent true h =
        let r = reserved_not (str_eq n.type_name "") (is_in n.type_name reserved_event_types) h in
        let (o', event) = record_notice o now thread n (run_of n none) in
        (
          h,
          o',
          event,
          rw h refl,
          record-IsDelivered o now thread n (run_of n none) r,
          kept_rows o now thread n (run_of n none) r,
        )
    sent false h =
        let r = reserved_not (str_eq n.type_name "") (is_in n.type_name reserved_event_types) h in
        let (o', event) = publish_notice o now thread n in
        (
          h,
          o',
          event,
          rw h refl,
          notice-IsDelivered o now thread n name value reserved r e,
          notice_rows o now thread n,
        )
