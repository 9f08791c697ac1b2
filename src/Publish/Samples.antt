-- ===== src/Publish/Samples.antt =====
-- Events published with and without a run's stream open.
use agentic_kit.Base.{
  ◌≡◌, ◌⊎◌, ◌||◌, ◌++◌, refl, true, false, [], ◌∷◌, none, some, if◌then◌else◌, str_eq,
}
use agentic_kit.Events.{AgentEvent}
use agentic_kit.Segment.{Deps, init, other_type}
use agentic_kit.Publish.{Notice, Outlets, is_in, reserved_event_types, publish_event}
use agentic_kit.Publish.Routing.{IsDelivered, publish_event_once}

abbrev settings : Deps
settings = record { stream_flush_ms = 50; stream_flush_events = 8; parse_json = λ t. none }

abbrev streaming : Outlets
streaming = record { rows = []; bus = []; segment = some (init settings) }

abbrev progress : Notice
progress = record {
  type_name = "PROGRESS";
  payload = "{}";
  named_run = none;
  resumed_run = none;
  shape = other_type "PROGRESS" "{}" false;
}

publish_event_once_example :
    ((publish_event streaming 1 "t" progress false ≡ none)
      × ((str_eq "PROGRESS" "" || is_in "PROGRESS" reserved_event_types) ≡ true))
    ⊎ (((str_eq "PROGRESS" "" || is_in "PROGRESS" reserved_event_types) ≡ false)
        × (o' : Outlets) × (event : AgentEvent) × (publish_event streaming 1 "t" progress false
            ≡ some (o', event))
        × IsDelivered streaming o' event progress
        × (o'.rows ≡ (if false then [] ++ (event ∷ []) else [])))
publish_event_once_example =
    publish_event_once streaming 1 "t" progress false "PROGRESS" "{}" false refl
