-- ===== src/Schema/Payload.antt =====
-- `EventPayload` of src/schemas/events.rs as JSON. What a variant holds is a struct or a tagged enum,
-- which serde writes as an object; its fields are an argument. `F` is the type of f64.
use analytics_hub.Prelude.{String, Bool}

mutual
  pub data Value (F : Type 0) : Type 0 where
    null : Value F
    boolean : Bool → Value F
    number : F → Value F
    text : String → Value F
    array : Items F → Value F
    object : Fields F → Value F

  pub data Items (F : Type 0) : Type 0 where
    no_items : Items F
    item : Value F → Items F → Items F

  pub data Fields (F : Type 0) : Type 0 where
    no_fields : Fields F
    field : String → Value F → Fields F → Fields F

pub data EventPayload (F : Type 0) : Type 0 where
  telemetry : Fields F → EventPayload F
  security : Fields F → EventPayload F
  cost : Fields F → EventPayload F
  governance : Fields F → EventPayload F
  custom : Fields F → EventPayload F

module _ {F : Type 0} where
  -- `#[serde(tag = "payload_type", content = "data")]`
  abbrev pub tagged : String → Fields F → Value F
  tagged name inner =
      object (field "data" (object inner) (field "payload_type" (text name) no_fields))

  -- `serde_json::to_value`
  unfoldable pub to_value : EventPayload F → Value F
  to_value (telemetry inner) = tagged "telemetry" inner
  to_value (security inner) = tagged "security" inner
  to_value (cost inner) = tagged "cost" inner
  to_value (governance inner) = tagged "governance" inner
  to_value (custom inner) = tagged "custom" inner
