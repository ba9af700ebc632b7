-- ===== src/GuildSync.antt =====
-- apps/bot-service/src/guild-sync and internal/guild-sync-internal.service.ts: the stored state of a
-- guild against what Discord tells. This file has the state; Internal is `syncGuild`, Updates what the
-- events of a guild do, Reconcile the job that compares all guilds; the others have proofs.
pub mod Internal
pub mod Updates
pub mod Reconcile
pub mod Effects
pub mod Lock
pub mod Listing
pub mod Passes
pub mod Membership
pub mod Customs
mod Tests
use discord_bot_backend.Prelude.{ℕ, String, Bool, Option, List, ◌∷◌, ◌==◌}
use discord_bot_backend.Orm.{Orm}
use discord_bot_backend.Redis.{Redis}
use discord_bot_backend.Entities.{Guild, ServerSettings}

-- The value of a `GuildStateEventPayload`.
pub data StateValue : Type 0 where
  flag : Bool → StateValue
  word : String → StateValue
  number : ℕ → StateValue
  info : String → Option String → Option String → StateValue

-- What is published of a guild; its direction is always `set` here.
pub record GuildStateEvent : Type 0 where
  pub guild_id : String
  pub discord_guild_id : String
  pub parameter : String
  pub value : StateValue

pub record FirstContactPayload : Type 0 where
  pub discord_guild_id : String
  pub guild_name : String
  pub discord_owner_id : String

-- `DiscordGuildResponse`
pub record DiscordGuildResponse : Type 0 where
  pub name : Option String
  pub icon : Option String
  pub banner : Option String
  pub approximate_member_count : Option ℕ
  pub approximate_presence_count : Option ℕ

-- How Discord answers a request for a guild: 404, another status that is not ok, or with the guild.
pub data GuildReply : Type 0 where
  not_found : GuildReply
  refused : ℕ → GuildReply
  found : DiscordGuildResponse → GuildReply

-- What the service finds outside: the key of stored tokens, the bot's token, Discord, a printer of
-- times and the prefix of keys in Redis.
pub record Surroundings : Type 0 where
  pub decrypt : String → Option String
  pub main_token : Option String
  pub discord_guild : (token guild : String) → GuildReply
  pub iso : ℕ → String
  pub prefix : String

-- The tables, the Redis store, and what was published and queued, the last first.
pub record BotState (orm : Orm) (redis : Redis) : Type 0 where
  pub guilds : orm.Table Guild
  pub settings : orm.Table ServerSettings
  pub store : redis.Store
  pub published : List GuildStateEvent
  pub setups : List FirstContactPayload

abbrev pub guild_id : Guild → String
guild_id g = g.id

abbrev pub settings_id : ServerSettings → String
settings_id s = s.guild_id

abbrev pub unordered {ℓ} : {A : Type ℓ} → A → ℕ
unordered a = 0

module _ (orm : Orm) (redis : Redis) where
  abbrev pub guild_by_discord_id : String → BotState orm redis → Option Guild
  guild_by_discord_id d w = orm.find_one guild_id (λ g. g.discord_guild_id == d) w.guilds

  abbrev pub settings_of : String → BotState orm redis → Option ServerSettings
  settings_of id w = orm.find_one settings_id (λ s. s.guild_id == id) w.settings

  abbrev pub save_guild : Guild → BotState orm redis → BotState orm redis
  save_guild g w = record w { guilds = orm.save guild_id g w.guilds }

  abbrev pub save_settings : ServerSettings → BotState orm redis → BotState orm redis
  save_settings s w = record w { settings = orm.save settings_id s w.settings }

  -- `publishGuildStateEvent`
  abbrev pub publish :
      String → String → String → StateValue → BotState orm redis → BotState orm redis
  publish guild discord_guild parameter value w = record w {
    published =
        record {
          guild_id = guild;
          discord_guild_id = discord_guild;
          parameter = parameter;
          value = value;
        }
        ∷ w.published;
  }
