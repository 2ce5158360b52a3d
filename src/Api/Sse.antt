-- ===== src/Api/Sse.antt =====
-- Server-sent events in src/models/api.rs. How a number is written is the formatter's, an argument.
use analytics_hub.Prelude.{ℕ, String, Option, none, some}
use analytics_hub.Prelude.Text.{◌++◌}

pub record SseMessage : Type 0 where
  pub event : Option String
  pub data_text : String
  pub id : Option String
  pub retry : Option ℕ

-- `SseMessage::data`, `SseMessage::event`
abbrev pub data_message : String → SseMessage
data_message text = record { event = none; data_text = text; id = none; retry = none }

abbrev pub event_message : String → String → SseMessage
event_message event text = record { event = some event; data_text = text; id = none; retry = none }

abbrev pub with_id : String → SseMessage → SseMessage
with_id id m = record m { id = some id }

-- A line of a field that may be missing, and what follows it.
abbrev pub field_line : String → Option String → String → String
field_line name none rest = rest
field_line name (some value) rest = name ++ value ++ "\n" ++ rest

abbrev pub shown : (ℕ → String) → Option ℕ → Option String
shown show none = none
shown show (some n) = some (show n)

unfoldable pub to_string : (ℕ → String) → SseMessage → String
to_string show m = field_line "event: " m.event (
    field_line "id: " m.id
      (field_line "retry: " (shown show m.retry) ("data: " ++ m.data_text ++ "\n\n")))
