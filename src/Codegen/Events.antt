-- ===== src/Codegen/Events.antt =====
-- `Context::process_events` of codegen/src/lib.rs: the type of any event.
use qapi_rs.Prelude.{String, List, [], ◌∷◌, if◌then◌else◌}
use qapi_rs.Schema.Types.{Event, is_empty}
use qapi_rs.Codegen.{event_identifier}
use qapi_rs.Codegen.Context.{Gen, ◌>>=◌, ◌>>◌, gets, each, Output, emit}

module _ {W : Type 0} (x : Output W) where
  abbrev event_variant : Event → List String
  event_variant v =
      let id = event_identifier v.id in
      "\t#[serde(rename = \""
      ∷ v.id
      ∷ "\")] "
      ∷ id
      ∷ " {\n        "
      ∷ (if is_empty v.body then "#[serde(default)] " else "")
      ∷ " data: "
      ∷ id
      ∷ ",\n        timestamp: ::qapi_spec::Timestamp,\n    },\n"
      ∷ []

  abbrev event_arm : Event → List String
  event_arm v = "Event::" ∷ event_identifier v.id ∷ " { timestamp, .. } => timestamp,\n" ∷ []

  -- `Context::process_events`
  unfoldable pub process_events : Gen W (Unit {0})
  process_events = do
    emit x (
        "\n#[derive(Debug, Clone, Serialize, Deserialize)]\n#[serde(tag = \"event\")]\npub enum Event {\n"
        ∷ [])
    events ← gets (λ c. c.events)
    each (λ v. emit x (event_variant v)) events
    emit x ("}\n" ∷ [])
    emit x (
        "\nimpl Event {\n    pub fn timestamp(&self) -> ::qapi_spec::Timestamp {\n        match *self {\n"
        ∷ [])
    each (λ v. emit x (event_arm v)) events
    emit x ("\n        }\n    }\n}\n" ∷ [])
