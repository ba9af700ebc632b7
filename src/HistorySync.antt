-- ===== src/HistorySync.antt =====
-- apps/ingestor-worker/src/ingestor/history-sync/history-sync.service.ts: the messages that a guild
-- already has at Discord, copied into ClickHouse. This file has the data; Fetch is the reading of a
-- channel, Batches the writing of rows, Run the whole; the others prove.
pub mod Fetch
pub mod Paging
pub mod Batches
pub mod Coverage
pub mod Run
pub mod Fresh
pub mod Channels
pub mod Stored
pub mod Identity
pub mod Again
pub mod Complete
mod Tests
use discord_bot_backend.Prelude.{ℕ, String, Bool, Option}

pub record Author : Type 0 where
  pub id : String
  pub bot : Option Bool
  pub username : Option String
  pub discriminator : Option String
  pub global_name : Option String
  pub avatar : Option String

-- `DiscordMessage`; its time stamp is in milliseconds.
pub record Message : Type 0 where
  pub id : String
  pub channel_id : String
  pub author : Option Author
  pub content : Option String
  pub timestamp : ℕ

pub record DiscordChannel : Type 0 where
  pub id : String
  pub type : ℕ
