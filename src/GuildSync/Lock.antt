-- ===== src/GuildSync/Lock.antt =====
-- `syncGuild` against its lock in Redis, and against the membership of the guilds.
use discord_bot_backend.Prelude.{
  ℕ, String, true, Option, some, ◌≡◌, refl, ap, sym, ◌∙◌, ◌==◌, eq_refl, ◌⊎◌, Option-cases, inl,
  inr, arith,
}
use discord_bot_backend.Orm.{Orm}
use discord_bot_backend.Redis.{Redis}
use discord_bot_backend.Entities.{Guild}
use discord_bot_backend.HistorySync.Run.{resolve_token}
use discord_bot_backend.GuildSync.{
  BotState, Surroundings, DiscordGuildResponse, GuildReply, found, not_found, refused, guild_id,
  guild_by_discord_id, settings_of, save_guild,
}
use discord_bot_backend.GuildSync.Internal.{
  lock_key, refreshed, stored_token, store_answer, sync_locked, sync_guild,
}
use discord_bot_backend.GuildSync.Updates.{
  SyncOnGuildCreateOptions, joined, connect, truthy, sync_on_guild_create, on_guild_create, follow,
  Created, synced,
}
use discord_bot_backend.GuildSync.Effects.{
  marked, view, HasUniqueGuilds, view-save_guild, view-connect, marked-stored,
  HasUniqueGuilds-marked, guild_by_discord_id-some, guild_by_discord_id-none,
}

GuildReply-cases :
    (reply : GuildReply)
    → (reply ≡ not_found)
      ⊎ ((status : ℕ) × (reply ≡ refused status))
      ⊎ ((answer : DiscordGuildResponse) × (reply ≡ found answer))
GuildReply-cases not_found = inl refl
GuildReply-cases (refused status) = inr (inl (status, refl))
GuildReply-cases (found answer) = inr (inr (answer, refl))

module _ (orm : Orm) (redis : Redis) (out : Surroundings) where
  view-store_answer :
      (k : String) (g : Guild) (now : ℕ) (w : BotState orm redis)
      → view orm redis k (store_answer orm redis out g now w)
        ≡ view orm redis k (save_guild orm redis g w)
  unfolding store_answer
  view-store_answer k g now w =
      elim (Option-cases (settings_of orm redis g.id (save_guild orm redis g w))) [
        | inl nothing ↦ rw (nothing, store_answer) refl
        | inr (s, there) ↦ rw (there, store_answer) refl
      ]

  abbrev token_of : Guild → BotState orm redis → Option String
  token_of g w =
      resolve_token out.decrypt (stored_token (settings_of orm redis g.id w)) out.main_token

  view-refreshed :
      (k : String) (g : Guild) (answer : DiscordGuildResponse) (w : BotState orm redis)
      → orm.get guild_id g.id w.guilds ≡ some g
      → HasUniqueGuilds orm redis w
      → view orm redis k (save_guild orm redis (refreshed answer g) w) ≡ view orm redis k w
  unfolding refreshed
  view-refreshed k g answer w stored unique =
      view-save_guild orm redis k g (refreshed answer g) w stored (eq_refl g.id) refl unique
      ∙ marked-stored orm redis k g w stored unique

  view-sync_locked :
      (k : String) (g : Guild) (now : ℕ) (w : BotState orm redis)
      → orm.get guild_id g.id w.guilds ≡ some g
      → HasUniqueGuilds orm redis w
      → view orm redis k (sync_locked orm redis out g now w).1 ≡ view orm redis k w
  unfolding sync_locked
  view-sync_locked k g now w stored unique = elim (Option-cases (token_of g w)) [
    | inl nothing ↦ rw (nothing, sync_locked) refl
    | inr (token, there) ↦ elim (GuildReply-cases (out.discord_guild token g.discord_guild_id)) [
      | inl e ↦ rw (there, e, sync_locked) refl
      | inr (inl (status, e)) ↦ rw (there, e, sync_locked) refl
      | inr (inr (answer, e)) ↦
          rw (there, e, sync_locked)
            (view-store_answer k (refreshed answer g) now w
              ∙ view-refreshed k g answer w stored unique)
    ]
  ]

  -- `syncGuild` does not change which guilds the bot is in.
  pub view-sync_guild :
      (k id : String) (now : ℕ) (w : BotState orm redis)
      → HasUniqueGuilds orm redis w
      → view orm redis k (sync_guild orm redis out id now w).1 ≡ view orm redis k w
  unfolding sync_guild
  view-sync_guild k id now w unique =
      elim (Option-cases (orm.find_one guild_id (λ (g : Guild). g.id == id) w.guilds)) [
        | inl nothing ↦ rw (nothing, sync_guild) refl
        | inr (g, there) ↦ elim (Option-cases (redis.get (lock_key id) w.store)) [
          | inr (n, held) ↦ rw (there, held, sync_guild) refl
          | inl free ↦
              rw (there, free, sync_guild)
                (view-sync_locked k g now (record w { store = redis.set (lock_key id) 1 w.store })
                  (orm.find_one-eq-some guild_id _ w.guilds g there).0 unique)
        ]
      ]

  -- However `syncGuild` ends, the lock of the guild is afterwards what it was before: a lock that the
  -- call took is given back, one that another call holds is kept.
  pub sync_guild_lock :
      (id : String) (now : ℕ) (w : BotState orm redis)
      → redis.get (lock_key id) (sync_guild orm redis out id now w).1.store
        ≡ redis.get (lock_key id) w.store
  unfolding sync_guild
  sync_guild_lock id now w =
      elim (Option-cases (orm.find_one guild_id (λ (g : Guild). g.id == id) w.guilds)) [
        | inl nothing ↦ rw (nothing, sync_guild) refl
        | inr (g, there) ↦ elim (Option-cases (redis.get (lock_key id) w.store)) [
          | inr (n, held) ↦ rw (there, held, sync_guild) held
          | inl free ↦
              rw (there, free, sync_guild)
                (redis.get-del (lock_key id) (lock_key id) _
                  ∙ ground (arith, eq_refl (lock_key id)))
        ]
      ]

  view-joined :
      (k d : String) (shard now : ℕ) (g : Guild) (w : BotState orm redis)
      → guild_by_discord_id orm redis d w ≡ some g
      → HasUniqueGuilds orm redis w
      → view orm redis k
          (connect orm redis g.id now (save_guild orm redis (joined orm redis shard g) w))
        ≡ marked d true (view orm redis k w)
  view-joined k d shard now g w there unique =
      let (stored, same) = guild_by_discord_id-some orm redis d w g there in
      view-connect orm redis k g.id now (save_guild orm redis (joined orm redis shard g) w)
      ∙ view-save_guild orm redis k g (joined orm redis shard g) w stored (eq_refl g.id) refl unique
      ∙ ap (λ e. marked e true (view orm redis k w)) same

  -- A guild that the bot has joined.
  pub view-on_guild_create :
      (k : String) (options : SyncOnGuildCreateOptions) (now : ℕ) (w : BotState orm redis)
      → HasUniqueGuilds orm redis w
      → view orm redis k (on_guild_create orm redis out options now w)
        ≡ marked options.discord_guild_id true (view orm redis k w)
  unfolding on_guild_create follow sync_on_guild_create
  view-on_guild_create k options now w unique =
      let d = options.discord_guild_id in
      elim (Option-cases (guild_by_discord_id orm redis d w)) [
        | inl nothing' ↦
            let unseen = sym (guild_by_discord_id-none orm redis d k true w nothing') in
            elim (Option-cases (truthy options.discord_owner_id)) [
              | inl no_owner ↦ rw (nothing', no_owner, sync_on_guild_create) unseen
              | inr (owner, an_owner) ↦ rw (nothing', an_owner, sync_on_guild_create) unseen
            ]
        | inr (g, there) ↦
            let after =
              connect orm redis g.id now
                (save_guild orm redis (joined orm redis options.shard_id g) w) in
            let effect : (j : String)
                → view orm redis j after ≡ marked d true (view orm redis j w) =
              λ j. view-joined j d options.shard_id now g w there unique in
            let result : sync_on_guild_create orm redis options now w ≡ (synced g.id, after) =
              rw (there, sync_on_guild_create) refl in
            ap
              (λ (r : Created × BotState orm redis).
                view orm redis k (follow orm redis out d now r))
              result
            ∙ view-sync_guild k g.id now _
                (HasUniqueGuilds-marked orm redis d true w after unique effect)
            ∙ effect k
      ]
