-- ===== src/GuildSync/Internal.antt =====
-- `syncGuild` of apps/bot-service/src/internal/guild-sync-internal.service.ts, under a lock in Redis.
use Prim.Native.String.{◌++◌ as append}
use discord_bot_backend.Prelude.{
  ℕ, String, Option, none, some, or_else, is_empty, ◌==◌, if◌then◌else◌, HttpError, ok, throw,
  Action,
}
use discord_bot_backend.Orm.{Orm}
use discord_bot_backend.Redis.{Redis}
use discord_bot_backend.Entities.{Guild, ServerSettings}
use discord_bot_backend.HistorySync.Run.{resolve_token}
use discord_bot_backend.GuildSync.{
  BotState, Surroundings, DiscordGuildResponse, not_found, refused, found, guild_id, settings_of,
  save_guild, save_settings, publish, word, number, info,
}

abbrev pub guild_not_found : HttpError
guild_not_found = record { status = 404; code = "GUILD_NOT_FOUND" }

abbrev pub sync_in_progress : HttpError
sync_in_progress = record { status = 409; code = "SYNC_IN_PROGRESS" }

abbrev pub discord_unavailable : HttpError
discord_unavailable = record { status = 503; code = "DISCORD_UNAVAILABLE" }

abbrev pub lock_key : String → String
lock_key guild = append "bot-service:guild-sync:" guild

abbrev pub online_members_key : String → String → String
online_members_key prefix guild =
    append prefix (append "bot-service:guild-state:online-members:" guild)

-- A picture at Discord's CDN, or the one that is stored.
abbrev pub picture : String → String → Option String → Option String → Option String
picture folder guild none stored = stored
picture folder guild (some image) stored =
    if is_empty image
    then stored
    else some (
        append "https://cdn.discordapp.com/"
          (append folder (append "/" (append guild (append "/" (append image ".png"))))))

abbrev pub or_stored {ℓ} : {A : Type ℓ} → Option A → Option A → Option A
or_stored none stored = stored
or_stored (some a) stored = some a

unfoldable pub refreshed : DiscordGuildResponse → Guild → Guild
refreshed answer g = record g {
  name = or_else answer.name g.name;
  icon_url = picture "icons" g.discord_guild_id answer.icon g.icon_url;
  banner = picture "banners" g.discord_guild_id answer.banner g.banner;
  member_count = or_else answer.approximate_member_count g.member_count;
  online_members = or_stored answer.approximate_presence_count g.online_members;
}

abbrev pub stored_token : Option ServerSettings → Option String
stored_token none = none
stored_token (some s) = s.bot_token_encrypted

module _ (orm : Orm) (redis : Redis) (out : Surroundings) where
  -- What follows the answer of Discord.
  unfoldable pub store_answer : Guild → ℕ → BotState orm redis → BotState orm redis
  store_answer g now w =
      let saved = save_guild orm redis g w in
      let told =
        publish orm redis g.id g.discord_guild_id "guildInfo" (info g.name g.icon_url g.banner) in
      let online = or_else g.online_members 0 in
      let stamped : BotState orm redis = (elim (settings_of orm redis g.id saved) [
        | none ↦ told saved
        | some s ↦
            publish orm redis g.id g.discord_guild_id "lastSyncAt" (word (out.iso now))
              (told (save_settings orm redis (record s { last_sync_at = some now }) saved))
      ]) in
      let counted =
        publish orm redis g.id g.discord_guild_id "onlineMembers" (number online) stamped in
      record counted { store = redis.set (online_members_key out.prefix g.id) online counted.store }

  -- The body of the `try`.
  unfoldable pub sync_locked : Guild → ℕ → Action (BotState orm redis) String
  unfolding store_answer refreshed
  sync_locked g now w =
      elim (resolve_token out.decrypt (stored_token (settings_of orm redis g.id w))
        out.main_token) [
          | none ↦ (throw discord_unavailable, w)
          | some token ↦ elim (out.discord_guild token g.discord_guild_id) [
            | not_found ↦ (throw guild_not_found, w)
            | refused status ↦ (throw discord_unavailable, w)
            | found answer ↦ (ok (out.iso now), store_answer (refreshed answer g) now w)
          ]
        ]

  -- `SET NX`, and `DEL` in the `finally`.
  unfoldable pub sync_guild : String → ℕ → Action (BotState orm redis) String
  unfolding sync_locked
  sync_guild id now w = elim (orm.find_one guild_id (λ g. g.id == id) w.guilds) [
    | none ↦ (throw guild_not_found, w)
    | some g ↦ elim (redis.get (lock_key id) w.store) [
      | some held ↦ (throw sync_in_progress, w)
      | none ↦
          let (outcome, after) =
            sync_locked g now (record w { store = redis.set (lock_key id) 1 w.store }) in
          (outcome, record after { store = redis.del (lock_key id) after.store })
    ]
  ]
