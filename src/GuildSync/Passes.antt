-- ===== src/GuildSync/Passes.antt =====
-- What each pass of the reconciliation does to the membership of the guilds.
use mathlib.Core.Path.{subst}
use discord_bot_backend.Prelude.{
  ℕ, String, Bool, true, false, Option, none, some, ◌≡◌, refl, ap, sym, ◌∙◌, ◌==◌, ◌&&◌, ◌||◌, not,
  eq_iff, if◌then◌else◌, Bool-cases, Option-cases, inl, inr, List, [], ◌∷◌, any, arith,
}
use discord_bot_backend.Orm.{Orm}
use discord_bot_backend.Redis.{Redis}
use discord_bot_backend.Entities.{Guild}
use discord_bot_backend.GuildSync.{guild_id, BotState, Surroundings, guild_by_discord_id}
use discord_bot_backend.GuildSync.Effects.{
  Membership, marked, view, HasUniqueGuilds, HasUniqueGuilds-marked, view-on_guild_delete,
  marked-stored, guild_by_discord_id-some, guild_by_discord_id-none,
}
use discord_bot_backend.GuildSync.Lock.{view-on_guild_create}
use discord_bot_backend.GuildSync.Reconcile.{
  has, mark_left, mark_joined, join_if, mark_custom, reconcile_custom, delete_guild, create_guild,
}

-- Membership by the id at Discord and what it was.
abbrev pub settled : (String → Bool → Bool) → Membership → Membership
settled h none = none
settled h (some (e, c)) = some (e, h e c)

abbrev pub among : List Guild → String → Bool
among guilds e = any (λ g. g.discord_guild_id == e) guilds

abbrev pub after_left : List String → List String → List Guild → String → Bool → Bool
after_left customs api guilds e c =
    if among guilds e && not (has e customs || has e api) then false else c

abbrev pub after_joined : List String → List String → String → Bool → Bool
after_joined customs listed e c = if has e listed && not (has e customs) then true else c

abbrev pub after_custom : (String → Bool) → List (String × String) → String → Bool → Bool
after_custom in_cache [] e c = c
after_custom in_cache ((uuid, id) ∷ customs) e c =
    after_custom in_cache customs e (if e == id then in_cache uuid else c)

pub settled-same : (m : Membership) → m ≡ settled (λ e c. c) m
settled-same none = refl
settled-same (some (e, c)) = refl

joined_step :
    (customs : List String) (id : String) (listed : List String) (m : Membership)
    → has id customs ≡ false
    → settled (after_joined customs listed) (marked id true m)
      ≡ settled (after_joined customs (id ∷ listed)) m
joined_step customs id listed none h = refl
joined_step customs id listed (some (e, c)) h = elim (Bool-cases (e == id)) [
  | inl same ↦
      let here : has e customs ≡ false = ap (λ x. has x customs) ((eq_iff e id).0 same) ∙ h in
      let met : (id == e) ≡ true = (eq_iff id e).1 (sym ((eq_iff e id).0 same)) in
      ground (arith, same, here, met)
  | inr other ↦ ground (arith, other, eq_iff e id, eq_iff id e)
]

joined_skip :
    (customs : List String) (id : String) (listed : List String) (m : Membership)
    → has id customs ≡ true
    → settled (after_joined customs listed) m ≡ settled (after_joined customs (id ∷ listed)) m
joined_skip customs id listed none h = refl
joined_skip customs id listed (some (e, c)) h = elim (Bool-cases (id == e)) [
  | inl same ↦
      let here : has e customs ≡ true = ap (λ x. has x customs) (sym ((eq_iff id e).0 same)) ∙ h in
      ground (arith, same, here)
  | inr other ↦ ground (arith, other)
]

custom_step :
    (in_cache : String → Bool) (uuid id : String) (customs : List (String × String))
    (m : Membership)
    → settled (after_custom in_cache customs) (marked id (in_cache uuid) m)
      ≡ settled (after_custom in_cache ((uuid, id) ∷ customs)) m
custom_step in_cache uuid id customs none = refl
custom_step in_cache uuid id customs (some (e, c)) = refl

left_step :
    (customs api : List String) (g : Guild) (guilds : List Guild) (m : Membership)
    → (has g.discord_guild_id customs || has g.discord_guild_id api) ≡ false
    → settled (after_left customs api guilds) (marked g.discord_guild_id false m)
      ≡ settled (after_left customs api (g ∷ guilds)) m
left_step customs api g guilds none h = refl
left_step customs api g guilds (some (e, c)) h = elim (Bool-cases (e == g.discord_guild_id)) [
  | inl same ↦
      let here : (has e customs || has e api) ≡ false =
        ap (λ x. has x customs || has x api) ((eq_iff e g.discord_guild_id).0 same) ∙ h in
      let met : (g.discord_guild_id == e) ≡ true =
        (eq_iff g.discord_guild_id e).1 (sym ((eq_iff e g.discord_guild_id).0 same)) in
      ground (arith, same, here, met)
  | inr other ↦ ground (arith, other, eq_iff e g.discord_guild_id, eq_iff g.discord_guild_id e)
]

left_skip :
    (customs api : List String) (g : Guild) (guilds : List Guild) (m : Membership)
    → (has g.discord_guild_id customs || has g.discord_guild_id api) ≡ true
    → settled (after_left customs api guilds) m ≡ settled (after_left customs api (g ∷ guilds)) m
left_skip customs api g guilds none h = refl
left_skip customs api g guilds (some (e, c)) h = elim (Bool-cases (g.discord_guild_id == e)) [
  | inl same ↦
      let here : (has e customs || has e api) ≡ true =
        ap (λ x. has x customs || has x api) (sym ((eq_iff g.discord_guild_id e).0 same)) ∙ h in
      ground (arith, same, here)
  | inr other ↦ ground (arith, other)
]

module _ (orm : Orm) (redis : Redis) (out : Surroundings) (now : ℕ) where
  pub view-mark_left :
      (customs api : List String) (guilds : List Guild) (k : String) (w : BotState orm redis)
      → HasUniqueGuilds orm redis w
      → view orm redis k (mark_left orm redis out now customs api guilds w)
        ≡ settled (after_left customs api guilds) (view orm redis k w)
  unfolding mark_left
  view-mark_left customs api [] k w unique = settled-same (view orm redis k w)
  view-mark_left customs api (g ∷ guilds) k w unique =
      let d = g.discord_guild_id in
      elim (Bool-cases (has d customs || has d api)) [
        | inl kept ↦
            rw (kept, mark_left)
              (view-mark_left customs api guilds k w unique
                ∙ left_skip customs api g guilds (view orm redis k w) kept)
        | inr gone ↦
            let effect : (j : String)
                → view orm redis j (delete_guild orm redis out now d w)
                  ≡ marked d false (view orm redis j w) =
              λ j. view-on_guild_delete orm redis j d w unique in
            rw (gone, mark_left)
              (view-mark_left customs api guilds k (delete_guild orm redis out now d w) (
                  HasUniqueGuilds-marked orm redis d false w (delete_guild orm redis out now d w)
                    unique effect)
                ∙ ap (settled (after_left customs api guilds)) (effect k)
                ∙ left_step customs api g guilds (view orm redis k w) gone)
      ]

  view-create_guild :
      (k : String) (g : Guild) (w : BotState orm redis)
      → HasUniqueGuilds orm redis w
      → view orm redis k (create_guild orm redis out now g w)
        ≡ marked g.discord_guild_id true (view orm redis k w)
  view-create_guild k g w unique = view-on_guild_create orm redis out k _ now w unique

  view-join_if :
      (customs api : List String) (id k : String) (w : BotState orm redis)
      → HasUniqueGuilds orm redis w
      → view orm redis k
          (join_if orm redis out now customs api (guild_by_discord_id orm redis id w) w)
        ≡ marked id true (view orm redis k w)
  view-join_if customs api id k w unique =
      elim (Option-cases (guild_by_discord_id orm redis id w)) [
        | inl nothing ↦
            rw (nothing, join_if) (sym (guild_by_discord_id-none orm redis id k true w nothing))
        | inr (g, there) ↦
            let (stored, same) = guild_by_discord_id-some orm redis id w g there in
            elim (Bool-cases g.is_bot_in_guild) [
              | inr absent ↦
                  rw (there, absent, join_if)
                    (view-create_guild k g w unique
                      ∙ ap (λ d. marked d true (view orm redis k w)) same)
              | inl present ↦
                  rw (there, present, join_if)
                    (sym (marked-stored orm redis k g w stored unique)
                      ∙ ap (λ b. marked g.discord_guild_id b (view orm redis k w)) present
                      ∙ ap (λ d. marked d true (view orm redis k w)) same)
            ]
      ]

  pub view-mark_joined :
      (customs api listed : List String) (k : String) (w : BotState orm redis)
      → HasUniqueGuilds orm redis w
      → view orm redis k (mark_joined orm redis out now customs api listed w)
        ≡ settled (after_joined customs listed) (view orm redis k w)
  unfolding mark_joined
  view-mark_joined customs api [] k w unique = settled-same (view orm redis k w)
  view-mark_joined customs api (id ∷ listed) k w unique =
      let next = join_if orm redis out now customs api (guild_by_discord_id orm redis id w) w in
      elim (Bool-cases (has id customs)) [
        | inl kept ↦
            rw (kept, mark_joined)
              (view-mark_joined customs api listed k w unique
                ∙ joined_skip customs id listed (view orm redis k w) kept)
        | inr main ↦
            let effect : (j : String)
                → view orm redis j next ≡ marked id true (view orm redis j w) =
              λ j. view-join_if customs api id j w unique in
            rw (main, mark_joined)
              (view-mark_joined customs api listed k next
                  (HasUniqueGuilds-marked orm redis id true w next unique effect)
                ∙ ap (settled (after_joined customs listed)) (effect k)
                ∙ joined_step customs id listed (view orm redis k w) main)
      ]

  view-mark_one :
      (in_cache : Bool) (g : Guild) (k : String) (w : BotState orm redis)
      → orm.get guild_id g.id w.guilds ≡ some g
      → HasUniqueGuilds orm redis w
      → view orm redis k (mark_custom orm redis out now in_cache (some g) w)
        ≡ marked g.discord_guild_id in_cache (view orm redis k w)
  view-mark_one true g k w stored unique = elim (Bool-cases g.is_bot_in_guild) [
    | inr absent ↦ rw (absent, mark_custom) (view-create_guild k g w unique)
    | inl present ↦
        rw (present, mark_custom)
          (sym (marked-stored orm redis k g w stored unique)
            ∙ ap (λ b. marked g.discord_guild_id b (view orm redis k w)) present)
  ]
  view-mark_one false g k w stored unique = elim (Bool-cases g.is_bot_in_guild) [
    | inl present ↦
        rw (present, mark_custom) (view-on_guild_delete orm redis k g.discord_guild_id w unique)
    | inr absent ↦
        rw (absent, mark_custom)
          (sym (marked-stored orm redis k g w stored unique)
            ∙ ap (λ b. marked g.discord_guild_id b (view orm redis k w)) absent)
  ]

  view-mark_custom :
      (in_cache : Bool) (id k : String) (w : BotState orm redis)
      → HasUniqueGuilds orm redis w
      → view orm redis k
          (mark_custom orm redis out now in_cache (guild_by_discord_id orm redis id w) w)
        ≡ marked id in_cache (view orm redis k w)
  view-mark_custom in_cache id k w unique =
      elim (Option-cases (guild_by_discord_id orm redis id w)) [
        | inl nothing ↦
            rw (nothing, mark_custom)
              (sym (guild_by_discord_id-none orm redis id k in_cache w nothing))
        | inr (g, there) ↦
            let (stored, same) = guild_by_discord_id-some orm redis id w g there in
            subst
              (λ (o : Option Guild).
                view orm redis k (mark_custom orm redis out now in_cache o w)
                ≡ marked id in_cache (view orm redis k w))
              (sym there)
              (subst
                (λ d.
                  view orm redis k (mark_custom orm redis out now in_cache (some g) w)
                  ≡ marked d in_cache (view orm redis k w))
                same (view-mark_one in_cache g k w stored unique))
      ]

  pub view-reconcile_custom :
      (in_cache : String → Bool) (customs : List (String × String)) (k : String)
      (w : BotState orm redis)
      → HasUniqueGuilds orm redis w
      → view orm redis k (reconcile_custom orm redis out now in_cache customs w)
        ≡ settled (after_custom in_cache customs) (view orm redis k w)
  unfolding reconcile_custom
  view-reconcile_custom in_cache [] k w unique = settled-same (view orm redis k w)
  view-reconcile_custom in_cache ((uuid, id) ∷ customs) k w unique =
      let next =
        mark_custom orm redis out now (in_cache uuid) (guild_by_discord_id orm redis id w) w in
      let effect : (j : String)
          → view orm redis j next ≡ marked id (in_cache uuid) (view orm redis j w) =
        λ j. view-mark_custom (in_cache uuid) id j w unique in
      view-reconcile_custom in_cache customs k next
        (HasUniqueGuilds-marked orm redis id (in_cache uuid) w next unique effect)
      ∙ ap (settled (after_custom in_cache customs)) (effect k)
      ∙ custom_step in_cache uuid id customs (view orm redis k w)
