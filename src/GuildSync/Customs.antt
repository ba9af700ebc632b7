-- ===== src/GuildSync/Customs.antt =====
-- The reconciliation against the guilds that have a bot of their own.
use mathlib.Core.Path.{subst}
use mathlib.Core.Option.{some-injective}
use discord_bot_backend.Prelude.{
  ℕ, String, Bool, false, Option, none, some, ◌≡◌, refl, ap, sym, ◌∙◌, Option-cases, ◌⊎◌, inl, inr,
  List, ◌∷◌, ◌++◌, map,
}
use discord_bot_backend.Orm.{Orm}
use discord_bot_backend.Redis.{Redis}
use discord_bot_backend.Entities.{Guild}
use discord_bot_backend.GuildSync.{BotState, Surroundings, guild_id}
use discord_bot_backend.GuildSync.Updates.{truthy}
use discord_bot_backend.GuildSync.Effects.{membership, view, HasUniqueGuilds}
use discord_bot_backend.GuildSync.Passes.{settled, settled-same, after_custom}
use discord_bot_backend.GuildSync.Reconcile.{
  Listed, ids, failing, waiting, Job, has, second, fetch_main_bot_guild_ids, reconcile_main_bot,
  reconcile, is_disabled,
}
use discord_bot_backend.GuildSync.Membership.{
  HasUniqueGuilds-settled, reconcile_main_bot-ids, view-reconcile, view-marked_main, marked_main,
  after_main, guilds_of, after_custom-last,
}

Listed-cases : (l : Listed) → ((api : List String) × (l ≡ ids api)) ⊎ (l ≡ failing) ⊎ (l ≡ waiting)
Listed-cases (ids api) = inl (api, refl)
Listed-cases failing = inr (inl refl)
Listed-cases waiting = inr (inr refl)

module _ (orm : Orm) (redis : Redis) (out : Surroundings) (now : ℕ) where
  abbrev IsSettled : BotState orm redis → BotState orm redis → Type 0
  IsSettled w w' =
      (h : (String → Bool → Bool)) × ((k : String)
        → view orm redis k w' ≡ settled h (view orm redis k w))

  unchanged : (w : BotState orm redis) → IsSettled w w
  unchanged w = ((λ e c. c), λ k. settled-same (view orm redis k w))

  -- The main bot's part changes memberships only, guild by guild.
  reconcile_main_bot-IsSettled :
      (job : Job) (w w' : BotState orm redis)
      → HasUniqueGuilds orm redis w
      → reconcile_main_bot orm redis out now job w ≡ some w'
      → IsSettled w w'
  unfolding reconcile_main_bot
  reconcile_main_bot-IsSettled job w w' unique main =
      let from : (v : BotState orm redis)
          → reconcile_main_bot orm redis out now job w ≡ some v
          → IsSettled w v
          → IsSettled w w' =
        λ v e. subst (IsSettled w) (some-injective v w' (sym e ∙ main)) in
      elim (Option-cases (truthy out.main_token)) [
        | inl no_token ↦ from w (rw (no_token, reconcile_main_bot) refl) (unchanged w)
        | inr (token, some_token) ↦
            elim (Listed-cases (fetch_main_bot_guild_ids job.page job.answers)) [
              | inl (api, e) ↦
                  from (marked_main orm redis out now job api w)
                    (reconcile_main_bot-ids orm redis out now job token api w some_token e)
                    (
                      after_main orm redis out now job api (guilds_of orm redis out now w),
                      λ k. view-marked_main orm redis out now job api k w unique,
                    )
              | inr (inl e) ↦ from w (rw (some_token, e, reconcile_main_bot) refl) (unchanged w)
              | inr (inr e) ↦
                  let waits : reconcile_main_bot orm redis out now job w ≡ none =
                    rw (some_token, e, reconcile_main_bot) refl in
                  cc
            ]
      ]

  -- A stored guild that has a bot of its own, to be found under its id at Discord in the last entry of
  -- the map with that id: after a reconciliation, the bot is stored as in the guild just if the cache
  -- of that bot's client has the guild; also where the list of the main bot's guilds failed.
  pub reconcile-custom :
      (job : Job) (g : Guild) (w w' : BotState orm redis) (earlier later : List (String × String))
      (uuid : String)
      → HasUniqueGuilds orm redis w
      → is_disabled orm redis out now job.enabled ≡ false
      → reconcile_main_bot orm redis out now job w ≡ some w'
      → orm.get guild_id g.id w.guilds ≡ some g
      → job.custom_guild_ids ≡ earlier ++ (uuid, g.discord_guild_id) ∷ later
      → has g.discord_guild_id (map second later) ≡ false
      → view orm redis g.id (reconcile orm redis out now job w)
        ≡ some (g.discord_guild_id, job.is_guild_in_cache uuid)
  reconcile-custom job g w w' earlier later uuid unique enabled main stored entry last =
      let (h, effect) = reconcile_main_bot-IsSettled job w w' unique main in
      let d = g.discord_guild_id in
      view-reconcile orm redis out now job g.id w w' enabled main
        (HasUniqueGuilds-settled orm redis out now h w w' unique effect)
      ∙ ap (settled (after_custom job.is_guild_in_cache job.custom_guild_ids))
          (effect g.id ∙ ap (λ (o : Option Guild). settled h (membership o)) stored)
      ∙ ap
          (λ (customs : List (String × String)).
            some (d, after_custom job.is_guild_in_cache customs d (h d g.is_bot_in_guild)))
          entry
      ∙ ap (λ b. some (d, b))
          (after_custom-last job.is_guild_in_cache earlier uuid d later (h d g.is_bot_in_guild)
            last)
