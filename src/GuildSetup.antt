-- ===== src/GuildSetup.antt =====
-- apps/ingestor-worker/src/ingestor/guild-setup/guild-setup.consumer.ts: the first contact with a guild,
-- and guild-settings-enrichment.service.ts, which reads its settings. The call of the bot's `syncGuild`
-- at the end of a job, whose errors are dropped, is another process's.
pub mod Twice
mod Tests
use Prim.Native.String.{◌++◌ as append}
use discord_bot_backend.Prelude.{
  ℕ, zero, suc, ◌-◌, String, Bool, true, false, Option, none, some, ◌==◌, ◌||◌, is_empty, or_else,
  if◌then◌else◌, trim, codes, List, [], ◌∷◌, length,
}
use discord_bot_backend.Orm.{Orm}
use discord_bot_backend.Entities.{
  User, UserPlan, UserStatus, user_id, Guild, GuildStatus, GuildSubscriptionTier, HistorySyncStatus,
  ServerSettings,
}
use discord_bot_backend.Ingestor.{Enrichment}
use discord_bot_backend.HistorySync.Fetch.{text_from}
use discord_bot_backend.GuildSync.{FirstContactPayload, guild_id, settings_id}

-- What `GET /users/…` gives; nothing of it where the request fails.
pub record DiscordUser : Type 0 where
  pub username : Option String
  pub discriminator : Option String
  pub avatar : Option String

pub record HistorySyncJob : Type 0 where
  pub guild_id : String
  pub discord_guild_id : String

-- The tables, and the jobs that were queued, the last first.
pub record SetupDb (orm : Orm) : Type 0 where
  pub guilds : orm.Table Guild
  pub settings : orm.Table ServerSettings
  pub users : orm.Table User
  pub history_jobs : List HistorySyncJob

pub data JobResult : Type 0 where
  done failed : JobResult

-- `id.slice(-8)`
abbrev pub last_eight : String → String
last_eight id = text_from (length (codes id) - 8) id

abbrev pub avatar_url : String → Option String → Option String
avatar_url id none = none
avatar_url id (some hash) =
    if is_empty hash
    then none
    else some
        (append "https://cdn.discordapp.com/avatars/" (append id (append "/" (append hash ".png"))))

-- `guildName?.trim() || DEFAULT_GUILD_NAME`
unfoldable pub server_name_of : String → String
unfolding trim
server_name_of name = if is_empty (trim name) then "Server" else trim name

-- `discord_id = value` in a `where`.
abbrev pub is_discord_id : String → Option String → Bool
is_discord_id id none = false
is_discord_id id (some other) = other == id

abbrev pub tier_text : GuildSubscriptionTier → String
tier_text GuildSubscriptionTier.free = "free"
tier_text GuildSubscriptionTier.pro = "pro"
tier_text GuildSubscriptionTier.enterprise = "enterprise"

-- `token` is the bot's; `discord_user` is Discord's answer for a token and a user.
module _ (orm : Orm) (token : Option String) (discord_user : String → String → DiscordUser) where
  unfoldable pub new_user : String → String → ℕ → SetupDb orm → User
  new_user token' owner now db =
      let answer = discord_user token' owner in
      record {
        id = orm.new_key user_id db.users;
        discord_id = some owner;
        username = or_else answer.username (append "user_" (last_eight owner));
        discriminator = answer.discriminator;
        avatar_url = avatar_url owner answer.avatar;
        email = none;
        password_hash = none;
        plan = UserPlan.free;
        status = UserStatus.active;
        created_at = now;
        last_login_at = none;
      }

  unfoldable pub new_guild : FirstContactPayload → String → ℕ → SetupDb orm → Guild
  unfolding server_name_of
  new_guild job owner now db = record {
    id = orm.new_key guild_id db.guilds;
    discord_guild_id = job.discord_guild_id;
    name = server_name_of job.guild_name;
    icon_url = none;
    banner = none;
    owner_id = owner;
    status = GuildStatus.active;
    subscription_tier = GuildSubscriptionTier.free;
    member_count = 0;
    message_count = 0;
    online_members = none;
    last_activity = none;
    shard_id = none;
    is_bot_in_guild = true;
    created_at = now;
    history_sync_status = HistorySyncStatus.pending;
  }

  unfoldable pub new_settings : String → String → ServerSettings
  new_settings guild name = record {
    guild_id = guild;
    server_name = name;
    server_description = none;
    language = "en";
    timezone = "UTC";
    bot_token_encrypted = none;
    bot_connected = false;
    bot_user_id = none;
    last_connected = none;
    last_sync_at = none;
    data_retention_days = 0;
    anonymize_user_data = false;
    share_analytics = true;
    allow_public_widgets = true;
  }

  abbrev pub queue_history : String → String → SetupDb orm → SetupDb orm
  queue_history guild discord_guild db = record db {
    history_jobs = record { guild_id = guild; discord_guild_id = discord_guild } ∷ db.history_jobs;
  }

  -- The part of a job after its owner is found or saved.
  unfoldable pub set_up : FirstContactPayload → String → ℕ → SetupDb orm → SetupDb orm
  unfolding new_guild new_settings
  set_up job owner now db =
      let g = new_guild job owner now db in
      queue_history g.id job.discord_guild_id (record db {
        guilds = orm.save guild_id g db.guilds;
        settings = orm.save settings_id (new_settings g.id g.name) db.settings;
      })

  abbrev pub stored_guild : String → SetupDb orm → Option Guild
  stored_guild discord_guild db =
      orm.find_one guild_id (λ g. g.discord_guild_id == discord_guild) db.guilds

  unfoldable pub process_job : FirstContactPayload → ℕ → SetupDb orm → JobResult × SetupDb orm
  unfolding set_up new_user
  process_job job now db =
      if is_empty job.discord_guild_id || is_empty job.discord_owner_id
      then (done, db)
      else (elim (stored_guild job.discord_guild_id db) [
        | some g ↦ (done, queue_history g.id job.discord_guild_id db)
        | none ↦ elim token [
          | none ↦ (failed, db)
          | some t ↦
              if is_empty t
              then (failed, db)
              else (elim (orm.find_one user_id
                  (λ u. is_discord_id job.discord_owner_id u.discord_id) db.users) [
                    | some u ↦ (done, set_up job u.id now db)
                    | none ↦ (
                      done,
                      set_up job (new_user t job.discord_owner_id now db).id now (record db {
                        users = orm.save user_id (new_user t job.discord_owner_id now db) db.users;
                      }),
                    )
                  ])
        ]
      ])

  -- `getSettings`
  unfoldable pub get_settings : String → SetupDb orm → Enrichment
  get_settings guild db = record {
    anonymize_user_data = (elim (orm.find_one settings_id (λ s. s.guild_id == guild) db.settings) [
      | none ↦ false
      | some s ↦ s.anonymize_user_data
    ]);
    plan_tier = (elim (orm.find_one guild_id (λ g. g.id == guild) db.guilds) [
      | none ↦ "free"
      | some g ↦ tier_text g.subscription_tier
    ]);
  }
