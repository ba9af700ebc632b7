-- ===== src/GuildSync/Effects.antt =====
-- The part of a stored guild that the reconciliation is about, its id at Discord and whether the bot is
-- in it, and what the events of a guild do to that part.
use discord_bot_backend.Prelude.{
  ℕ, String, Bool, true, false, Option, none, some, ◌≡◌, refl, ap, sym, ◌∙◌, ◌==◌, eq_iff, eq_refl,
  is_empty, if◌then◌else◌, Bool-cases, Option-cases, inl, inr, arith,
}
use discord_bot_backend.Orm.{Orm}
use discord_bot_backend.Redis.{Redis}
use discord_bot_backend.Entities.{Guild}
use discord_bot_backend.GuildSync.{BotState, guild_id, guild_by_discord_id, settings_of, save_guild}
use discord_bot_backend.GuildSync.Updates.{
  left, connect, disconnect, sync_on_guild_delete, on_guild_delete,
}

abbrev pub Membership : Type 0
Membership = Option (String × Bool)

abbrev pub membership : Option Guild → Membership
membership none = none
membership (some g) = some (g.discord_guild_id, g.is_bot_in_guild)

-- Set for the guild with an id at Discord.
abbrev pub marked : String → Bool → Membership → Membership
marked d b none = none
marked d b (some (e, c)) = some (e, if e == d then b else c)

abbrev first : String → Membership → String
first e none = e
first e (some (f, c)) = f

unmarked :
    (d : String) (b : Bool) (m : Membership) (e : String) (c : Bool)
    → marked d b m ≡ some (e, c)
    → (p : Bool) × (m ≡ some (e, p))
unmarked d b none e c h = cc
unmarked d b (some (f, p)) e c h = (p, ap (λ (x : String). some (x, p)) (ap (first e) h))

module _ (orm : Orm) (redis : Redis) where
  abbrev pub view : String → BotState orm redis → Membership
  view k w = membership (orm.get guild_id k w.guilds)

  -- The column of the ids at Discord is unique.
  abbrev pub HasUniqueGuilds : BotState orm redis → Type 0
  HasUniqueGuilds w =
      (j k d : String) (b c : Bool) → view j w ≡ some (d, b) → view k w ≡ some (d, c) → j ≡ k

  -- A guild that is saved with the same ids.
  pub view-save_guild :
      (k : String) (g h : Guild) (w : BotState orm redis)
      → orm.get guild_id g.id w.guilds ≡ some g
      → (h.id == g.id) ≡ true
      → h.discord_guild_id ≡ g.discord_guild_id
      → HasUniqueGuilds w
      → view k (save_guild orm redis h w) ≡ marked g.discord_guild_id h.is_bot_in_guild (view k w)
  view-save_guild k g h w stored i d unique = elim (Bool-cases (h.id == k)) [
    | inl same ↦
        let there : orm.get guild_id k w.guilds ≡ some g =
          ap (λ j. orm.get guild_id j w.guilds)
            (sym ((eq_iff h.id k).0 same) ∙ (eq_iff h.id g.id).0 i)
          ∙ stored in
        ground
          (arith, orm.get-save guild_id k h w.guilds, same, there, d, eq_refl g.discord_guild_id)
    | inr other ↦ elim (Option-cases (orm.get guild_id k w.guilds)) [
      | inl nothing ↦ ground (arith, orm.get-save guild_id k h w.guilds, other, nothing)
      | inr (r, there) ↦ elim (Bool-cases (r.discord_guild_id == g.discord_guild_id)) [
        | inr differs ↦ ground (arith, orm.get-save guild_id k h w.guilds, other, there, differs)
        | inl agrees ↦
            let here : view k w ≡ some (g.discord_guild_id, r.is_bot_in_guild) =
              ap membership there
              ∙ ap (λ (e : String). some (e, r.is_bot_in_guild))
                  ((eq_iff r.discord_guild_id g.discord_guild_id).0 agrees) in
            let key : k ≡ g.id =
              unique k g.id g.discord_guild_id r.is_bot_in_guild g.is_bot_in_guild here
                (ap membership stored) in
            absurd (ground (arith, other, i, key))
      ]
    ]
  ]

  pub view-connect :
      (k id : String) (now : ℕ) (w : BotState orm redis)
      → view k (connect orm redis id now w) ≡ view k w
  view-connect k id now w = elim (Option-cases (settings_of orm redis id w)) [
    | inl nothing ↦ rw (nothing, connect) refl
    | inr (s, there) ↦ rw (there, connect) refl
  ]

  view-disconnect :
      (k id : String) (w : BotState orm redis) → view k (disconnect orm redis id w) ≡ view k w
  view-disconnect k id w = elim (Option-cases (settings_of orm redis id w)) [
    | inl nothing ↦ rw (nothing, disconnect) refl
    | inr (s, there) ↦ rw (there, disconnect) refl
  ]

  -- The guild that is found by its id at Discord.
  pub guild_by_discord_id-some :
      (d : String) (w : BotState orm redis) (g : Guild)
      → guild_by_discord_id orm redis d w ≡ some g
      → (orm.get guild_id g.id w.guilds ≡ some g) × (g.discord_guild_id ≡ d)
  guild_by_discord_id-some d w g h =
      let (stored, same) = orm.find_one-eq-some guild_id _ w.guilds g h in
      (stored, (eq_iff g.discord_guild_id d).0 same)

  pub guild_by_discord_id-none :
      (d k : String) (b : Bool) (w : BotState orm redis)
      → guild_by_discord_id orm redis d w ≡ none
      → marked d b (view k w) ≡ view k w
  guild_by_discord_id-none d k b w h = elim (Option-cases (orm.get guild_id k w.guilds)) [
    | inl nothing ↦ rw nothing refl
    | inr (r, there) ↦ ground (arith, there, orm.find_one-eq-none guild_id _ w.guilds k r h there)
  ]

  view-sync_on_guild_delete :
      (k d : String) (w : BotState orm redis)
      → HasUniqueGuilds w
      → view k (sync_on_guild_delete orm redis d w) ≡ marked d false (view k w)
  unfolding sync_on_guild_delete
  view-sync_on_guild_delete k d w unique = elim (Option-cases (guild_by_discord_id orm redis d w)) [
    | inl nothing ↦
        rw (nothing, sync_on_guild_delete) (sym (guild_by_discord_id-none d k false w nothing))
    | inr (g, there) ↦
        let (stored, same) = guild_by_discord_id-some d w g there in
        rw (there, sync_on_guild_delete)
          (view-disconnect k g.id (save_guild orm redis (left orm redis g) w)
            ∙ view-save_guild k g (left orm redis g) w stored (eq_refl g.id) refl unique
            ∙ ap (λ e. marked e false (view k w)) same)
  ]

  -- A guild that the bot has left.
  pub view-on_guild_delete :
      (k d : String) (w : BotState orm redis)
      → HasUniqueGuilds w
      → view k (on_guild_delete orm redis d w) ≡ marked d false (view k w)
  unfolding on_guild_delete
  view-on_guild_delete k d w unique = elim (Option-cases (guild_by_discord_id orm redis d w)) [
    | inl nothing ↦ rw (nothing, on_guild_delete) (view-sync_on_guild_delete k d w unique)
    | inr (g, there) ↦ elim (Bool-cases (is_empty g.id)) [
      | inl empty ↦ rw (there, empty, on_guild_delete) (view-sync_on_guild_delete k d w unique)
      | inr named ↦ rw (there, named, on_guild_delete) (view-sync_on_guild_delete k d w unique)
    ]
  ]

  -- To mark a stored guild as what it is changes nothing.
  pub marked-stored :
      (k : String) (g : Guild) (w : BotState orm redis)
      → orm.get guild_id g.id w.guilds ≡ some g
      → HasUniqueGuilds w
      → marked g.discord_guild_id g.is_bot_in_guild (view k w) ≡ view k w
  marked-stored k g w stored unique = elim (Option-cases (orm.get guild_id k w.guilds)) [
    | inl nothing ↦ rw nothing refl
    | inr (r, there) ↦ elim (Bool-cases (r.discord_guild_id == g.discord_guild_id)) [
      | inr differs ↦ ground (arith, there, differs)
      | inl agrees ↦
          let same = (eq_iff r.discord_guild_id g.discord_guild_id).0 agrees in
          let here : view k w ≡ some (g.discord_guild_id, r.is_bot_in_guild) =
            ap membership there ∙ ap (λ (e : String). some (e, r.is_bot_in_guild)) same in
          let key : k ≡ g.id =
            unique k g.id g.discord_guild_id r.is_bot_in_guild g.is_bot_in_guild here
              (ap membership stored) in
          let found : view k w ≡ some (g.discord_guild_id, g.is_bot_in_guild) =
            ap membership (ap (λ j. orm.get guild_id j w.guilds) key ∙ stored) in
          ground (arith, found, eq_refl g.discord_guild_id)
    ]
  ]

  pub HasUniqueGuilds-marked :
      (d : String) (b : Bool) (w w' : BotState orm redis)
      → HasUniqueGuilds w
      → ((k : String) → view k w' ≡ marked d b (view k w))
      → HasUniqueGuilds w'
  HasUniqueGuilds-marked d b w w' unique h j k e x y hj hk =
      let (p, hp) = unmarked d b (view j w) e x (sym (h j) ∙ hj) in
      let (q, hq) = unmarked d b (view k w) e y (sym (h k) ∙ hk) in unique j k e p q hp hq
