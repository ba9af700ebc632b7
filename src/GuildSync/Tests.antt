-- ===== src/GuildSync/Tests.antt =====
-- Reconciliations of a small table, and the theorems at them.
use discord_bot_backend.Prelude.{
  String, Bool, true, false, Option, none, some, ◌≡◌, refl, ap, sym, ◌∙◌, ◌==◌, eq_iff,
  if◌then◌else◌, List, [], ◌∷◌, ◌++◌, take, length, length-append, Bool-cases, inl, inr, or_else,
  arith,
}
use discord_bot_backend.Orm.Memory.{memory, get, scan, collect}
use discord_bot_backend.Redis as Keys
use discord_bot_backend.Redis.{blank}
use discord_bot_backend.Entities.{
  Guild, GuildStatus, GuildSubscriptionTier, HistorySyncStatus, ServerSettings,
}
use discord_bot_backend.HistorySync.Run.{configured, resolve_token}
use discord_bot_backend.GuildSync.{
  BotState, Surroundings, found, not_found, DiscordGuildResponse, guild_id,
}
use discord_bot_backend.GuildSync.Internal.{
  sync_guild, sync_locked, store_answer, refreshed, lock_key,
}
use discord_bot_backend.GuildSync.Updates.{
  on_guild_create, on_guild_delete, on_guild_update, on_ready, sync_on_ready, sync_on_guild_create,
  sync_on_guild_delete, follow,
}
use discord_bot_backend.GuildSync.Reconcile.{
  Answer, rate_limited, granting, Job, fetch_loop, fetch_main_bot_guild_ids, custom_token_guild_ids,
  main_bot_guilds, mark_left, mark_joined, reconcile_main_bot, reconcile_custom, reconcile,
}
use discord_bot_backend.GuildSync.Effects.{Membership, view, HasUniqueGuilds}
use discord_bot_backend.GuildSync.Listing.{Lists}
use discord_bot_backend.GuildSync.Lock.{sync_guild_lock}
use discord_bot_backend.GuildSync.Membership.{reconcile-Lists, reconcile-rate_limited}
use discord_bot_backend.GuildSync.Customs.{reconcile-custom}

abbrev guild : String → String → Bool → Guild
guild id discord present = record {
  id = id;
  discord_guild_id = discord;
  name = "Guild";
  icon_url = none;
  banner = none;
  owner_id = "u";
  status = GuildStatus.active;
  subscription_tier = GuildSubscriptionTier.free;
  member_count = 0;
  message_count = 0;
  online_members = none;
  last_activity = none;
  shard_id = none;
  is_bot_in_guild = present;
  created_at = 0;
  history_sync_status = HistorySyncStatus.pending;
}

abbrev settings : ServerSettings
settings = record {
  guild_id = "c";
  server_name = "Guild";
  server_description = none;
  language = "en";
  timezone = "UTC";
  bot_token_encrypted = some "secret";
  bot_connected = false;
  bot_user_id = none;
  last_connected = none;
  last_sync_at = none;
  data_retention_days = 0;
  anonymize_user_data = false;
  share_analytics = true;
  allow_public_widgets = true;
}

-- A guild that the bot has left unseen, one that it has joined unseen, and one with its own bot.
abbrev world : BotState memory Keys.memory
world = record {
  guilds = guild "a" "1" true ∷ guild "b" "2" false ∷ guild "c" "3" false ∷ [];
  settings = settings ∷ [];
  store = blank;
  published = [];
  setups = [];
}

abbrev answer : DiscordGuildResponse
answer = record {
  name = some "Renamed";
  icon = none;
  banner = none;
  approximate_member_count = some 7;
  approximate_presence_count = some 3;
}

abbrev out : Surroundings
out = record {
  decrypt = λ s. some s;
  main_token = some "main";
  discord_guild = λ token d. if d == "2" then found answer else not_found;
  iso = λ n. "1970-01-01T00:00:00.000Z";
  prefix = "";
}

abbrev after : String → List String → List String
after id [] = []
after id (x ∷ xs) = if x == id then xs else after id xs

abbrev head : List String → String
head [] = ""
head (x ∷ xs) = x

abbrev tail : List String → List String
tail [] = []
tail (x ∷ xs) = xs

abbrev page : Option String → List String
page none = take 200 ("2" ∷ [])
page (some id) = take 200 (after id ("2" ∷ []))

abbrev job : List Answer → Job
job answers = record {
  enabled = none;
  page = page;
  answers = answers;
  custom_guild_ids = ("c", "3") ∷ [];
  is_guild_in_cache = λ id. id == "c";
}

guild_sync : Unit {0}
unfolding get scan collect configured resolve_token sync_guild sync_locked store_answer refreshed
    on_guild_create on_guild_delete on_guild_update on_ready sync_on_ready sync_on_guild_create
    sync_on_guild_delete follow fetch_loop fetch_main_bot_guild_ids custom_token_guild_ids
    main_bot_guilds mark_left mark_joined reconcile_main_bot reconcile_custom reconcile
guild_sync = tt

abbrev after_job : List Answer → BotState memory Keys.memory
after_job answers = reconcile memory Keys.memory out 5 (job answers) world

reconciled :
    (view memory Keys.memory "a" (after_job (granting ∷ [])) ≡ some ("1", false))
    × (view memory Keys.memory "b" (after_job (granting ∷ [])) ≡ some ("2", true))
    × (view memory Keys.memory "c" (after_job (granting ∷ [])) ≡ some ("3", true))
    × (view memory Keys.memory "b" (after_job (rate_limited ∷ [])) ≡ some ("2", false))
unfolding guild_sync
reconciled = (refl, refl, refl, refl)

-- The status stays inactive when the bot comes back.
returned :
    memory.get guild_id "a"
      (on_guild_create memory Keys.memory out
        (record {
          discord_guild_id = "1";
          guild_name = "Guild";
          shard_id = 0;
          discord_owner_id = none;
        })
        5
        (on_guild_delete memory Keys.memory "1" world)).guilds
    ≡ some (record (guild "a" "1" true) { status = GuildStatus.inactive; shard_id = some 0 })
unfolding guild_sync
returned = refl

abbrev key_of : Membership → String
key_of none = ""
key_of (some (d, b)) = if d == "1" then "a" else if d == "2" then "b" else "c"

key_of-view :
    (k d : String) (b : Bool)
    → view memory Keys.memory k world ≡ some (d, b)
    → k ≡ key_of (view memory Keys.memory k world)
unfolding get
key_of-view k d b h = elim (Bool-cases ("a" == k)) [
  | inl a ↦ rw a (sym ((eq_iff "a" k).0 a))
  | inr na ↦ elim (Bool-cases ("b" == k)) [
    | inl b' ↦ rw (na, b') (sym ((eq_iff "b" k).0 b'))
    | inr nb ↦ elim (Bool-cases ("c" == k)) [
      | inl c ↦ rw (na, nb, c) (sym ((eq_iff "c" k).0 c))
      | inr nc ↦ absurd (ground (arith, na, nb, nc, h))
    ]
  ]
]

key_of-same : (d : String) (b c : Bool) → key_of (some (d, b)) ≡ key_of (some (d, c))
key_of-same d b c = refl

world-HasUniqueGuilds : HasUniqueGuilds memory Keys.memory world
world-HasUniqueGuilds j k d b c hj hk =
    key_of-view j d b hj ∙ ap key_of hj ∙ sym (ap key_of hk) ∙ sym (key_of-view k d c hk)

page-Lists : Lists page ("2" ∷ [])
page-Lists = record { first = refl; next = next; named = refl }
  where
    next :
        (before : List String) (id : String) (later : List String)
        → "2" ∷ [] ≡ before ++ id ∷ later
        → page (some id) ≡ take 200 later
    next [] id later e = rw⁻¹ (ap head e) (rw⁻¹ (ap tail e) refl)
    next (x ∷ before) id later e =
        absurd (omega (arith, ap length e, length-append before (id ∷ later)))

sync_guild_lock_example :
    Keys.memory.get (lock_key "b") (sync_guild memory Keys.memory out "b" 5 world).1.store ≡ none
sync_guild_lock_example = sync_guild_lock memory Keys.memory out "b" 5 world

reconcile-Lists_example : view memory Keys.memory "b" (after_job (granting ∷ [])) ≡ some ("2", true)
unfolding guild_sync
reconcile-Lists_example =
    reconcile-Lists memory Keys.memory out 5 (job (granting ∷ [])) "main" [] ("2" ∷ [])
      (guild "b" "2" false) world world-HasUniqueGuilds refl refl page-Lists refl tt (omega arith)
      refl refl refl

reconcile-rate_limited_example :
    view memory Keys.memory "a" (after_job (rate_limited ∷ [])) ≡ some ("1", false)
unfolding guild_sync
reconcile-rate_limited_example =
    reconcile-rate_limited memory Keys.memory out 5 (job (rate_limited ∷ [])) "main" []
      (guild "a" "1" true) world world-HasUniqueGuilds refl refl refl refl refl refl

abbrev after_main : BotState memory Keys.memory
after_main = or_else (reconcile_main_bot memory Keys.memory out 5 (job (granting ∷ [])) world) world

reconcile-custom_example :
    view memory Keys.memory "c" (after_job (granting ∷ [])) ≡ some ("3", true)
unfolding guild_sync
reconcile-custom_example =
    reconcile-custom memory Keys.memory out 5 (job (granting ∷ [])) (guild "c" "3" false) world
      after_main [] [] "c" world-HasUniqueGuilds refl refl refl refl refl
