-- ===== src/Ingestor/Validator.antt =====
-- payload-validator.ts: the least that an event of each type must have.
use mathlib.Core.List.{List}
use discord_bot_backend.Prelude.{
  String, Bool, true, false, Option, none, some, ◌==◌, not, is_empty, trim, if◌then◌else◌,
}
use discord_bot_backend.Ingestor.{Json, text, Payload, field, RawEventDto}

-- `hasNonEmptyString`, of the value that the key has.
unfoldable pub has_non_empty_string : Option Json → Bool
unfolding trim
has_non_empty_string (some (text s)) = not (is_empty (trim s))
has_non_empty_string _ = false

-- `top ?? payload[key]`
unfoldable pub top_or_field : Option String → String → Payload → Option Json
unfolding field
top_or_field (some top) key p = some (text top)
top_or_field none key p = field key p

abbrev pub payload_of : Option Payload → Payload
payload_of none = List.[]
payload_of (some p) = p

-- Whether the event is valid; the reason is only logged.
unfoldable pub validate_payload : RawEventDto → Bool
unfolding has_non_empty_string top_or_field
validate_payload d =
    let p = payload_of d.payload in
    if d.event_type == "MESSAGE_CREATE"
    then has_non_empty_string (top_or_field d.channel_id "channelId" p)
    else if d.event_type == "INTERACTION_CREATE"
    then has_non_empty_string (top_or_field d.command_name "commandName" p)
    else true
