-- ===== src/GuildSync/Reconcile.antt =====
-- apps/bot-service/src/guild-sync/guild-reconciliation.service.ts: every 15 minutes, the stored guilds
-- against the list of the main bot's guilds at Discord and the caches of the custom clients.
use discord_bot_backend.Prelude.{
  ℕ, String, Bool, true, false, Option, none, some, ◌==◌, ◌&&◌, ◌||◌, not, ltb, is_empty, is_some,
  if◌then◌else◌, List, [], ◌∷◌, ◌++◌, map, any, length, keep_if,
}
use discord_bot_backend.Orm.{Orm}
use discord_bot_backend.Redis.{Redis}
use discord_bot_backend.Entities.{Guild, ServerSettings}
use discord_bot_backend.GuildSync.{
  BotState, Surroundings, guild_id, settings_id, unordered, guild_by_discord_id,
}
use discord_bot_backend.GuildSync.Updates.{truthy, on_guild_create, on_guild_delete}

abbrev pub guilds_page_limit : ℕ
guilds_page_limit = 200

-- How Discord answers a request for a page of the guilds: with 401 or 403, with 429, with a list, or
-- in a way that is an error.
pub data Answer : Type 0 where
  unauthorized rate_limited granting broken : Answer

-- The ids, an error, or a loop that still waits for an answer.
pub data Listed : Type 0 where
  ids : List String → Listed
  failing : Listed
  waiting : Listed

abbrev pub last_of : Option String → List String → Option String
last_of after [] = after
last_of after (id ∷ page) = last_of (some id) page

-- `fetchMainBotGuildIds`. `page` are the ids that Discord sends after a given one; each request takes
-- the next answer. At a 429 the loop goes on to its condition, `while (after)`.
module _ (page : Option String → List String) where
  unfoldable pub fetch_loop : List Answer → Option String → List String → Listed
  fetch_loop [] after result = waiting
  fetch_loop (unauthorized ∷ answers) after result = failing
  fetch_loop (broken ∷ answers) after result = failing
  fetch_loop (rate_limited ∷ answers) after result =
      let again = fetch_loop answers after result in
      if is_some (truthy after) then again else ids result
  fetch_loop (granting ∷ answers) after result =
      let sent = page (truthy after) in
      let next = last_of none sent in
      let more = fetch_loop answers next (result ++ sent) in
      if ltb (length sent) guilds_page_limit
      then ids (result ++ sent)
      else if is_some (truthy next)
      then more
      else ids (result ++ sent)

  unfoldable pub fetch_main_bot_guild_ids : List Answer → Listed
  fetch_main_bot_guild_ids answers = fetch_loop answers none []

-- What the job finds outside: its settings, the pages of guilds and the answers, the map from guilds
-- with a client of their own to their ids at Discord, and whether the client's cache has the guild.
pub record Job : Type 0 where
  pub enabled : Option String
  pub page : Option String → List String
  pub answers : List Answer
  pub custom_guild_ids : List (String × String)
  pub is_guild_in_cache : String → Bool

abbrev pub has : String → List String → Bool
has id xs = any (λ x. x == id) xs

abbrev pub second : String × String → String
second e = e.1

abbrev pub owner_of : ServerSettings → String
owner_of s = s.guild_id

abbrev pub non_empty : String → Bool
non_empty s = not (is_empty s)

module _ (orm : Orm) (redis : Redis) (out : Surroundings) (now : ℕ) where
  abbrev pub delete_guild : String → BotState orm redis → BotState orm redis
  delete_guild = on_guild_delete orm redis

  abbrev pub create_guild : Guild → BotState orm redis → BotState orm redis
  create_guild g =
      on_guild_create orm redis out
        (record {
          discord_guild_id = g.discord_guild_id;
          guild_name = g.name;
          shard_id = 0;
          discord_owner_id = none;
        })
        now

  -- The guilds with a stored token, and the guilds of the main bot.
  unfoldable pub custom_token_guild_ids : BotState orm redis → List String
  custom_token_guild_ids w = keep_if non_empty (
      map owner_of (orm.find settings_id (λ s. is_some s.bot_token_encrypted) unordered w.settings))

  unfoldable pub main_bot_guilds : List String → BotState orm redis → List Guild
  main_bot_guilds [] w = orm.find guild_id (λ g. g.is_bot_in_guild) unordered w.guilds
  main_bot_guilds (id ∷ own) w =
      orm.find guild_id (λ g. g.is_bot_in_guild && not (has g.id (id ∷ own))) unordered w.guilds

  module _ (customs api : List String) where
    unfoldable pub mark_left : List Guild → BotState orm redis → BotState orm redis
    mark_left [] w = w
    mark_left (g ∷ guilds) w = mark_left guilds (
        if has g.discord_guild_id customs || has g.discord_guild_id api
        then w
        else delete_guild g.discord_guild_id w)

    abbrev pub join_if : Option Guild → BotState orm redis → BotState orm redis
    join_if none w = w
    join_if (some g) w = if g.is_bot_in_guild then w else create_guild g w

    unfoldable pub mark_joined : List String → BotState orm redis → BotState orm redis
    mark_joined [] w = w
    mark_joined (id ∷ listed) w =
        mark_joined listed
          (if has id customs then w else join_if (guild_by_discord_id orm redis id w) w)

  -- `none` while Discord has not answered; nothing is written before.
  unfoldable pub reconcile_main_bot : Job → BotState orm redis → Option (BotState orm redis)
  unfolding fetch_main_bot_guild_ids custom_token_guild_ids main_bot_guilds mark_left mark_joined
  reconcile_main_bot job w = elim (truthy out.main_token) [
    | none ↦ some w
    | some token ↦ elim (fetch_main_bot_guild_ids job.page job.answers) [
      | failing ↦ some w
      | waiting ↦ none
      | ids api ↦
          let customs = map second job.custom_guild_ids in
          let guilds = main_bot_guilds (custom_token_guild_ids w) w in
          some (mark_joined customs api api (mark_left customs api guilds w))
    ]
  ]

  -- A guild with a client of its own against the client's cache.
  abbrev pub mark_custom : Bool → Option Guild → BotState orm redis → BotState orm redis
  mark_custom in_cache none w = w
  mark_custom true (some g) w = if g.is_bot_in_guild then w else create_guild g w
  mark_custom false (some g) w = if g.is_bot_in_guild then delete_guild g.discord_guild_id w else w

  unfoldable pub reconcile_custom :
      (String → Bool) → List (String × String) → BotState orm redis → BotState orm redis
  reconcile_custom in_cache [] w = w
  reconcile_custom in_cache ((uuid, id) ∷ customs) w =
      reconcile_custom in_cache customs
        (mark_custom (in_cache uuid) (guild_by_discord_id orm redis id w) w)

  abbrev pub is_disabled : Option String → Bool
  is_disabled none = false
  is_disabled (some s) = s == "false" || s == "0"

  unfoldable pub reconcile : Job → BotState orm redis → BotState orm redis
  unfolding reconcile_main_bot reconcile_custom
  reconcile job w = if is_disabled job.enabled then w else (elim (reconcile_main_bot job w) [
    | none ↦ w
    | some after ↦ reconcile_custom job.is_guild_in_cache job.custom_guild_ids after
  ])
