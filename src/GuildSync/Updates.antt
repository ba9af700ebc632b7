-- ===== src/GuildSync/Updates.antt =====
-- guild-sync.updates.ts and guild-sync.service.ts of apps/bot-service/src/guild-sync: what the events
-- of a guild do. One reading of the clock stands for those within an event.
use discord_bot_backend.Prelude.{
  ℕ, String, Bool, true, false, Option, none, some, ◌==◌, is_empty, if◌then◌else◌, ◌∷◌,
}
use discord_bot_backend.Orm.{Orm}
use discord_bot_backend.Redis.{Redis}
use discord_bot_backend.Entities.{Guild, GuildStatus}
use discord_bot_backend.GuildSync.{
  BotState, Surroundings, FirstContactPayload, guild_id, guild_by_discord_id, settings_of,
  save_guild, save_settings, publish, flag, word, info,
}
use discord_bot_backend.GuildSync.Internal.{or_stored, sync_guild}

pub record SyncOnReadyOptions : Type 0 where
  pub bot_user_id : String
  pub guild_id_uuid : Option String
  pub is_custom_token : Bool

pub record SyncOnGuildCreateOptions : Type 0 where
  pub discord_guild_id : String
  pub guild_name : String
  pub shard_id : ℕ
  pub discord_owner_id : Option String

pub data Created : Type 0 where
  first_contact : FirstContactPayload → Created
  synced : String → Created
  nothing : Created

-- A text that is not empty.
abbrev pub truthy : Option String → Option String
truthy none = none
truthy (some s) = if is_empty s then none else some s

module _ (orm : Orm) (redis : Redis) where
  unfoldable pub sync_on_ready : SyncOnReadyOptions → ℕ → BotState orm redis → BotState orm redis
  sync_on_ready options now w =
      if options.is_custom_token
      then (elim (truthy options.guild_id_uuid) [
        | none ↦ w
        | some id ↦ elim (settings_of orm redis id w) [
          | none ↦ w
          | some s ↦
              save_settings orm redis
                (record s {
                  bot_connected = true;
                  bot_user_id = some options.bot_user_id;
                  last_connected = some now;
                })
                w
        ]
      ])
      else w

  -- The settings of a guild, where it has any, once the bot is connected or no longer so.
  abbrev pub connect : String → ℕ → BotState orm redis → BotState orm redis
  connect id now w = elim (settings_of orm redis id w) [
    | none ↦ w
    | some s ↦
        save_settings orm redis (record s { bot_connected = true; last_connected = some now }) w
  ]

  abbrev pub disconnect : String → BotState orm redis → BotState orm redis
  disconnect id w = elim (settings_of orm redis id w) [
    | none ↦ w
    | some s ↦ save_settings orm redis (record s { bot_connected = false }) w
  ]

  abbrev pub joined : ℕ → Guild → Guild
  joined shard g = record g { is_bot_in_guild = true; shard_id = some shard }

  abbrev pub left : Guild → Guild
  left g = record g { status = GuildStatus.inactive; is_bot_in_guild = false }

  unfoldable pub sync_on_guild_create :
      SyncOnGuildCreateOptions → ℕ → BotState orm redis → Created × BotState orm redis
  sync_on_guild_create options now w =
      elim (guild_by_discord_id orm redis options.discord_guild_id w) [
        | none ↦ elim (truthy options.discord_owner_id) [
          | none ↦ (nothing, w)
          | some owner ↦ (
            first_contact (record {
              discord_guild_id = options.discord_guild_id;
              guild_name = options.guild_name;
              discord_owner_id = owner;
            }),
            w,
          )
        ]
        | some g ↦
            (synced g.id, connect g.id now (save_guild orm redis (joined options.shard_id g) w))
      ]

  unfoldable pub sync_on_guild_delete : String → BotState orm redis → BotState orm redis
  sync_on_guild_delete discord_guild w = elim (guild_by_discord_id orm redis discord_guild w) [
    | none ↦ w
    | some g ↦ disconnect g.id (save_guild orm redis (left g) w)
  ]

  unfoldable pub on_ready : SyncOnReadyOptions → ℕ → BotState orm redis → BotState orm redis
  unfolding sync_on_ready
  on_ready options now w =
      let after = sync_on_ready options now w in
      if options.is_custom_token
      then (elim (truthy options.guild_id_uuid) [
        | none ↦ after
        | some id ↦ elim (orm.find_one guild_id (λ g. g.id == id) after.guilds) [
          | none ↦ after
          | some g ↦
              if is_empty g.discord_guild_id
              then after
              else publish orm redis g.id g.discord_guild_id "bot_status" (word "installed")
                  (publish orm redis g.id g.discord_guild_id "botConnected" (flag true) after)
        ]
      ])
      else after

  -- `publishBotDisconnected`
  unfoldable pub publish_bot_disconnected :
      String → String → BotState orm redis → BotState orm redis
  publish_bot_disconnected id discord_guild w =
      if is_empty discord_guild
      then w
      else publish orm redis id discord_guild "botConnected" (flag false) w

  unfoldable pub on_guild_delete : String → BotState orm redis → BotState orm redis
  unfolding sync_on_guild_delete
  on_guild_delete discord_guild w =
      let after = sync_on_guild_delete discord_guild w in
      elim (guild_by_discord_id orm redis discord_guild w) [
        | none ↦ after
        | some g ↦
            if is_empty g.id
            then after
            else publish orm redis g.id discord_guild "botConnected" (flag false) (
                publish orm redis g.id discord_guild "isBotInGuild" (flag false)
                  (publish orm redis g.id discord_guild "bot_status" (word "not_installed") after))
      ]

  unfoldable pub on_guild_update :
      String → String → Option String → Option String → BotState orm redis → BotState orm redis
  on_guild_update discord_guild name icon banner w =
      elim (guild_by_discord_id orm redis discord_guild w) [
        | none ↦ w
        | some g ↦
            let icon' = or_stored icon g.icon_url in
            let banner' = or_stored banner g.banner in
            publish orm redis g.id g.discord_guild_id "guildInfo" (info name icon' banner') (
              save_guild orm redis (record g { name = name; icon_url = icon'; banner = banner' }) w)
      ]

  module _ (out : Surroundings) where
    -- What `onGuildCreate` does with the result; an error of `syncGuild` or of the queue is dropped.
    unfoldable pub follow : String → ℕ → Created × BotState orm redis → BotState orm redis
    unfolding sync_guild
    follow d now (nothing, after) = after
    follow d now (first_contact contact, after) = record after { setups = contact ∷ after.setups }
    follow d now (synced id, after) =
        (sync_guild orm redis out id now (
          publish orm redis id d "bot_status" (word "installed") (
            publish orm redis id d "botConnected" (flag true)
              (publish orm redis id d "isBotInGuild" (flag true) after)))).1

    unfoldable pub on_guild_create :
        SyncOnGuildCreateOptions → ℕ → BotState orm redis → BotState orm redis
    unfolding sync_on_guild_create follow
    on_guild_create options now w =
        follow options.discord_guild_id now (sync_on_guild_create options now w)
