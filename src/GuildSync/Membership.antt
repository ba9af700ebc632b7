-- ===== src/GuildSync/Membership.antt =====
-- The reconciliation against the guilds that the bot is in.
use discord_bot_backend.Prelude.{
  ℕ, suc, ◌*◌, ◌<◌, String, Bool, true, false, Option, none, some, ◌≡◌, refl, ap, sym, ◌∙◌, ◌==◌,
  eq_iff, eq_refl, if◌then◌else◌, Bool-cases, inl, inr, List, [], ◌∷◌, ◌++◌, map, length, arith,
}
use discord_bot_backend.Orm.{Orm}
use discord_bot_backend.Redis.{Redis}
use discord_bot_backend.Entities.{Guild}
use discord_bot_backend.GuildSync.{BotState, Surroundings, guild_id, unordered}
use discord_bot_backend.GuildSync.Updates.{truthy}
use discord_bot_backend.GuildSync.Effects.{Membership, membership, view, HasUniqueGuilds}
use discord_bot_backend.GuildSync.Passes.{
  settled, among, after_left, after_joined, after_custom, view-mark_left, view-mark_joined,
  view-reconcile_custom,
}
use discord_bot_backend.GuildSync.Reconcile.{
  Answer, rate_limited, granting, ids, Job, has, second, fetch_main_bot_guild_ids,
  custom_token_guild_ids, main_bot_guilds, mark_left, mark_joined, reconcile_main_bot, reconcile,
  is_disabled,
}
use discord_bot_backend.GuildSync.Listing.{
  Lists, IsCalm, granted, fetch_main_bot_guild_ids_complete, fetch_main_bot_guild_ids-rate_limited,
}

abbrev name_in : String → Membership → String
name_in e none = e
name_in e (some (f, c)) = f

unsettled :
    (h : String → Bool → Bool) (m : Membership) (e : String) (c : Bool)
    → settled h m ≡ some (e, c)
    → (p : Bool) × (m ≡ some (e, p))
unsettled h none e c eq = cc
unsettled h (some (f, p)) e c eq = (p, ap (λ (x : String). some (x, p)) (ap (name_in e) eq))

after_custom-other :
    (in_cache : String → Bool) (customs : List (String × String)) (e : String) (c : Bool)
    → has e (map second customs) ≡ false
    → after_custom in_cache customs e c ≡ c
after_custom-other in_cache [] e c h = refl
after_custom-other in_cache ((uuid, id) ∷ customs) e c h =
    let differs : (e == id) ≡ false = ground (arith, h, eq_iff e id, eq_iff id e) in
    rw differs (after_custom-other in_cache customs e c (ground (arith, h)))

pub after_custom-last :
    (in_cache : String → Bool) (earlier : List (String × String)) (uuid e : String)
    (later : List (String × String)) (c : Bool)
    → has e (map second later) ≡ false
    → after_custom in_cache (earlier ++ (uuid, e) ∷ later) e c ≡ in_cache uuid
after_custom-last in_cache [] uuid e later c h =
    after_custom-other in_cache later e (if e == e then in_cache uuid else c) h
    ∙ ground (arith, eq_refl e)
after_custom-last in_cache ((u, id) ∷ earlier) uuid e later c h =
    after_custom-last in_cache earlier uuid e later (if e == id then in_cache u else c) h

module _ (orm : Orm) (redis : Redis) (out : Surroundings) (now : ℕ) where
  pub HasUniqueGuilds-settled :
      (h : String → Bool → Bool) (w w' : BotState orm redis)
      → HasUniqueGuilds orm redis w
      → ((k : String) → view orm redis k w' ≡ settled h (view orm redis k w))
      → HasUniqueGuilds orm redis w'
  HasUniqueGuilds-settled h w w' unique eq j k e x y hj hk =
      let (p, hp) = unsettled h (view orm redis j w) e x (sym (eq j) ∙ hj) in
      let (q, hq) = unsettled h (view orm redis k w) e y (sym (eq k) ∙ hk) in unique j k e p q hp hq

  -- A guild of the main bot is among those that the first pass goes through.
  among-main_bot_guilds :
      (own : List String) (w : BotState orm redis) (g : Guild)
      → orm.get guild_id g.id w.guilds ≡ some g
      → has g.id own ≡ false
      → g.is_bot_in_guild ≡ true
      → among (main_bot_guilds orm redis out now own w) g.discord_guild_id ≡ true
  unfolding main_bot_guilds
  among-main_bot_guilds [] w g stored free present =
      orm.find-any guild_id _ unordered _ w.guilds g stored present (eq_refl g.discord_guild_id)
  among-main_bot_guilds (id ∷ own) w g stored free present =
      orm.find-any guild_id _ unordered _ w.guilds g stored (ground (arith, free, present))
        (eq_refl g.discord_guild_id)

  abbrev pub customs_of : Job → List String
  customs_of job = map second job.custom_guild_ids

  abbrev pub guilds_of : BotState orm redis → List Guild
  guilds_of w = main_bot_guilds orm redis out now (custom_token_guild_ids orm redis out now w) w

  -- Both passes over the guilds of the main bot.
  abbrev pub marked_main : Job → List String → BotState orm redis → BotState orm redis
  marked_main job api w =
      mark_joined orm redis out now (customs_of job) api api
        (mark_left orm redis out now (customs_of job) api (guilds_of w) w)

  abbrev pub after_main : Job → List String → List Guild → String → Bool → Bool
  after_main job api guilds e c =
      after_joined (customs_of job) api e (after_left (customs_of job) api guilds e c)

  settled-settled :
      (h j : String → Bool → Bool) (m : Membership)
      → settled h (settled j m) ≡ settled (λ e c. h e (j e c)) m
  settled-settled h j none = refl
  settled-settled h j (some (e, c)) = refl

  pub view-marked_main :
      (job : Job) (api : List String) (k : String) (w : BotState orm redis)
      → HasUniqueGuilds orm redis w
      → view orm redis k (marked_main job api w)
        ≡ settled (after_main job api (guilds_of w)) (view orm redis k w)
  view-marked_main job api k w unique =
      let customs = customs_of job in
      let guilds = guilds_of w in
      let first = mark_left orm redis out now customs api guilds w in
      let effect : (j : String)
          → view orm redis j first ≡ settled (after_left customs api guilds) (view orm redis j w) =
        λ j. view-mark_left orm redis out now customs api guilds j w unique in
      view-mark_joined orm redis out now customs api api k first
        (HasUniqueGuilds-settled (after_left customs api guilds) w first unique effect)
      ∙ ap (settled (after_joined customs api)) (effect k)
      ∙ settled-settled (after_joined customs api) (after_left customs api guilds)
          (view orm redis k w)

  pub reconcile_main_bot-ids :
      (job : Job) (token : String) (api : List String) (w : BotState orm redis)
      → truthy out.main_token ≡ some token
      → fetch_main_bot_guild_ids job.page job.answers ≡ ids api
      → reconcile_main_bot orm redis out now job w ≡ some (marked_main job api w)
  unfolding reconcile_main_bot
  reconcile_main_bot-ids job token api w some_token listed =
      rw (some_token, listed, reconcile_main_bot) refl

  pub view-reconcile :
      (job : Job) (k : String) (w w' : BotState orm redis)
      → is_disabled orm redis out now job.enabled ≡ false
      → reconcile_main_bot orm redis out now job w ≡ some w'
      → HasUniqueGuilds orm redis w'
      → view orm redis k (reconcile orm redis out now job w)
        ≡ settled (after_custom job.is_guild_in_cache job.custom_guild_ids) (view orm redis k w')
  unfolding reconcile
  view-reconcile job k w w' enabled main unique =
      rw (enabled, main, reconcile)
        (view-reconcile_custom orm redis out now job.is_guild_in_cache job.custom_guild_ids k w'
          unique)

  after_main-listed :
      (job : Job) (api : List String) (g : Guild) (w : BotState orm redis)
      → orm.get guild_id g.id w.guilds ≡ some g
      → has g.id (custom_token_guild_ids orm redis out now w) ≡ false
      → has g.discord_guild_id (customs_of job) ≡ false
      → after_main job api (guilds_of w) g.discord_guild_id g.is_bot_in_guild
        ≡ has g.discord_guild_id api
  after_main-listed job api g w stored free main = elim (Bool-cases g.is_bot_in_guild) [
    | inr absent ↦ ground (arith, absent, main)
    | inl present ↦
        let met =
          among-main_bot_guilds (custom_token_guild_ids orm redis out now w) w g stored free
            present in
        ground (arith, present, main, met)
  ]

  -- The stored membership of a guild of the main bot, once the list of guilds is read.
  reconcile-ids :
      (job : Job) (token : String) (api : List String) (g : Guild) (w : BotState orm redis)
      → HasUniqueGuilds orm redis w
      → is_disabled orm redis out now job.enabled ≡ false
      → truthy out.main_token ≡ some token
      → fetch_main_bot_guild_ids job.page job.answers ≡ ids api
      → orm.get guild_id g.id w.guilds ≡ some g
      → has g.id (custom_token_guild_ids orm redis out now w) ≡ false
      → has g.discord_guild_id (customs_of job) ≡ false
      → view orm redis g.id (reconcile orm redis out now job w)
        ≡ some (g.discord_guild_id, has g.discord_guild_id api)
  reconcile-ids job token api g w unique enabled some_token listed stored free main =
      let effect : (k : String)
          → view orm redis k (marked_main job api w)
            ≡ settled (after_main job api (guilds_of w)) (view orm redis k w) =
        λ k. view-marked_main job api k w unique in
      let customs = job.custom_guild_ids in
      let d = g.discord_guild_id in
      view-reconcile job g.id w (marked_main job api w) enabled
        (reconcile_main_bot-ids job token api w some_token listed)
        (HasUniqueGuilds-settled (after_main job api (guilds_of w)) w (marked_main job api w) unique
          effect)
      ∙ ap (settled (after_custom job.is_guild_in_cache customs)) (
          effect g.id
          ∙ ap (λ (o : Option Guild). settled (after_main job api (guilds_of w)) (membership o))
              stored
          ∙ ap (λ b. some (d, b)) (after_main-listed job api g w stored free main))
      ∙ ap (λ b. some (d, b)) (after_custom-other job.is_guild_in_cache customs d (has d api) main)

  -- A stored guild that has no bot of its own: after a reconciliation whose first request is granted
  -- and whose requests are never refused for good, the bot is stored as in the guild just if Discord
  -- lists the guild, whatever was stored before.
  pub reconcile-Lists :
      (job : Job) (token : String) (answers : List Answer) (all : List String) (g : Guild)
      (w : BotState orm redis)
      → HasUniqueGuilds orm redis w
      → is_disabled orm redis out now job.enabled ≡ false
      → truthy out.main_token ≡ some token
      → Lists job.page all
      → job.answers ≡ granting ∷ answers
      → IsCalm answers
      → length all < 200 * suc (granted answers)
      → orm.get guild_id g.id w.guilds ≡ some g
      → has g.id (custom_token_guild_ids orm redis out now w) ≡ false
      → has g.discord_guild_id (customs_of job) ≡ false
      → view orm redis g.id (reconcile orm redis out now job w)
        ≡ some (g.discord_guild_id, has g.discord_guild_id all)
  reconcile-Lists job token answers all g w unique enabled some_token lists first calm enough stored
        free main =
      reconcile-ids job token all g w unique enabled some_token
        (ap (fetch_main_bot_guild_ids job.page) first
          ∙ fetch_main_bot_guild_ids_complete job.page all lists answers calm enough)
        stored free main

  -- Where Discord answers 429 to the first request for the list, the reconciliation stores of every
  -- guild without a bot of its own that the bot has left it, although no guild was listed.
  pub reconcile-rate_limited :
      (job : Job) (token : String) (answers : List Answer) (g : Guild) (w : BotState orm redis)
      → HasUniqueGuilds orm redis w
      → is_disabled orm redis out now job.enabled ≡ false
      → truthy out.main_token ≡ some token
      → job.answers ≡ rate_limited ∷ answers
      → orm.get guild_id g.id w.guilds ≡ some g
      → has g.id (custom_token_guild_ids orm redis out now w) ≡ false
      → has g.discord_guild_id (customs_of job) ≡ false
      → view orm redis g.id (reconcile orm redis out now job w) ≡ some (g.discord_guild_id, false)
  reconcile-rate_limited job token answers g w unique enabled some_token first stored free main =
      reconcile-ids job token [] g w unique enabled some_token
        (ap (fetch_main_bot_guild_ids job.page) first
          ∙ fetch_main_bot_guild_ids-rate_limited job.page answers)
        stored free main
