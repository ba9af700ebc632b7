-- ===== src/Ingestor.antt =====
-- apps/ingestor-worker/src/ingestor: from a queued Discord event to a row of ClickHouse. This file
-- has the data; the children model one source file each, and prove.
pub mod Buffer
pub mod Accounting
pub mod Validator
pub mod Voice
pub mod Consumer
pub mod Retries
pub mod Minutes
pub mod Pushes
pub mod Producer
pub mod Row
pub mod Retention
mod Tests
use discord_bot_backend.Prelude.{
  ℕ, String, Bool, Option, none, some, List, [], ◌∷◌, ◌==◌, if◌then◌else◌,
}

-- A value of a payload. One that is neither a text nor null comes with its text, by `String()`, and
-- is told by its truth value.
pub data Json : Type 0 where
  null : Json
  text : String → Json
  falsy : String → Json
  truthy : String → Json

abbrev pub Payload : Type 0
Payload = List (String × Json)

unfoldable pub field : String → Payload → Option Json
field key [] = none
field key ((k, v) ∷ rest) = if k == key then some v else field key rest

-- The event of a queue job, after `plainToInstance`; null and undefined are both `none`.
pub record RawEventDto : Type 0 where
  pub event_id : String
  pub event_type : String
  pub event_time : ℕ
  pub guild_id : String
  pub discord_guild_id : String
  pub user_id : Option String
  pub discord_user_id : Option String
  pub channel_id : Option String
  pub plan_tier : Option String
  pub payload : Option Payload
  pub role_id : Option String
  pub command_name : Option String
  pub is_bot_generated : Option Bool

-- An event of the buffer. Times are milliseconds since 1970.
pub record RawEvent : Type 0 where
  pub event_id : String
  pub event_time : ℕ
  pub event_type : String
  pub guild_id : String
  pub discord_guild_id : String
  pub user_id : Option String
  pub discord_user_id : Option String
  pub channel_id : Option String
  pub role_id : Option String
  pub command_name : Option String
  pub plan_tier : String
  pub is_bot_generated : Bool
  pub payload : Payload
  pub is_historical : Bool
  pub anonymize_user_data : Bool

-- `GuildSettingsEnrichment`
pub record Enrichment : Type 0 where
  pub plan_tier : String
  pub anonymize_user_data : Bool
