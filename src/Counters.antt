-- ===== src/Counters.antt =====
-- Counters: channels whose names show a number. This file has the rows of
-- libs/shared/src/database/entities/counter.entity.ts and the tables; Template is
-- libs/shared/src/counters, Service is apps/frontend-api/src/counters, and Consumer is
-- apps/bot-service/src/counters-consumer; the other children prove.
pub mod Template
pub mod Service
pub mod Consumer
pub mod Events
pub mod Jobs
pub mod RateLimit
pub mod Roles
pub mod Status
mod Tests
pub mod Names
pub mod Removal
pub mod Reactivation
use discord_bot_backend.Prelude.{ℕ, String, Option, none, some, List, Bool, true, false, ◌==◌, ◌||◌}
use discord_bot_backend.Orm.{Orm}

-- A text that the program cuts: its UTF-16 units, as JavaScript counts them.
abbrev pub Units : Type 0
Units = List ℕ

pub data CounterType : Type 0 where
  stat goal clock : CounterType

pub data CounterMetric : Type 0 where
  members messages voice online idle dnd offline bots role : CounterMetric

pub data CounterStatus : Type 0 where
  active inactive error : CounterStatus

-- Numbers of a `bigint` column stay numbers.
pub record Counter : Type 0 where
  pub id : String
  pub guild_id : String
  pub channel_id : String
  pub channel_name : Units
  pub type : CounterType
  pub metric : Option CounterMetric
  pub role_id : Option String
  pub template : Units
  pub status : CounterStatus
  pub current_value : Option ℕ
  pub target : Option ℕ
  pub timezone : Option String
  pub date_format : Option String
  pub created_at : ℕ
  pub updated_at : ℕ

-- The columns of a guild that counters read.
pub record Guild : Type 0 where
  pub id : String
  pub discord_guild_id : String
  pub member_count : ℕ
  pub online_members : Option ℕ

abbrev pub counter_id : Counter → String
counter_id c = c.id

abbrev pub guild_key : Guild → String
guild_key g = g.id

-- A job of the queue `workers-queue-counters-update`.
pub data CounterJob : Type 0 where
  update_job :
      (counter guild channel : String)
      → CounterType
      → Option CounterMetric
      → Option String
      → CounterJob
  delete_job : (counter guild channel : String) → CounterJob

-- The tables, and the jobs that were queued, the last one first.
pub record CountersDb (orm : Orm) : Type 0 where
  pub counters : orm.Table Counter
  pub guilds : orm.Table Guild
  pub queue : List CounterJob

abbrev pub is_role : Option CounterMetric → Bool
is_role (some role) = true
is_role _ = false
