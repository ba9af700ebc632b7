-- ===== src/Counters/Status.antt =====
-- counters.service.ts: what an update or a removal finds and changes.
use discord_bot_backend.Prelude.{
  ℕ, String, Bool, true, false, Option, none, some, ◌≡◌, ◌≢◌, refl, ap, sym, ◌∙◌, ◌==◌, ◌&&◌, inl,
  inr, Bool-cases, Option-cases, Outcome, ok, throw, arith, eq_iff, or_else,
}
use discord_bot_backend.Orm.{Orm}
use discord_bot_backend.Counters.{
  Units, Counter, CounterMetric, is_role, Guild, CountersDb, CounterJob, update_job, delete_job,
  counter_id, guild_key,
}
use discord_bot_backend.Counters.Service.{
  PatchCounterDto, patched, patch_metric, patch_role, patch_template, is_uuid, find_guild,
  find_counter, update, remove, save_counter, add_counter_update, enqueue, Change, keep, assign,
}

abbrev value_or : {A : Type 0} → A → Outcome A → A
value_or d (ok a) = a
value_or d (throw e) = d

-- A counter keeps its key and its guild.
abbrev pub KeepsPlace : Counter → Counter → Type 0
KeepsPlace c d = (d.id ≡ c.id) × (d.guild_id ≡ c.guild_id)

patch_metric-KeepsPlace :
    (m : Change CounterMetric) (r : Change String) (c : Counter) → KeepsPlace c (patch_metric m r c)
unfolding patch_metric
patch_metric-KeepsPlace keep r c = (refl, refl)
patch_metric-KeepsPlace (assign m) r c = (refl, refl)

patch_role-KeepsPlace : (r : Change String) (c : Counter) → KeepsPlace c (patch_role r c)
unfolding patch_role
patch_role-KeepsPlace keep c = (refl, refl)
patch_role-KeepsPlace (assign r) c = elim (Bool-cases (is_role c.metric)) [
  | inl e ↦ rw e (refl, refl)
  | inr e ↦ rw e (refl, refl)
]

patch_template-KeepsPlace :
    (t : Option Units) (today : Units) (c : Counter) → KeepsPlace c (patch_template t today c)
unfolding patch_template
patch_template-KeepsPlace none today c = (refl, refl)
patch_template-KeepsPlace (some t) today c = (refl, refl)

pub patched-KeepsPlace :
    (dto : PatchCounterDto) (today : Units) (now : ℕ) (c : Counter)
    → KeepsPlace c (patched dto today now c)
unfolding patched
patched-KeepsPlace dto today now c =
    let moved = record c {
      channel_id = or_else dto.channel_id c.channel_id;
      type = or_else dto.type c.type;
    } in
    let m = patch_metric-KeepsPlace dto.metric dto.role_id moved in
    let r = patch_role-KeepsPlace dto.role_id (patch_metric dto.metric dto.role_id moved) in
    let t =
      patch_template-KeepsPlace dto.template today
        (patch_role dto.role_id (patch_metric dto.metric dto.role_id moved)) in
    (t.0 ∙ r.0 ∙ m.0, t.1 ∙ r.1 ∙ m.1)

module _ (orm : Orm) where
  pub enqueue-counters :
      (queued : Bool) (job : CounterJob) (db : CountersDb orm)
      → (enqueue orm queued job db).counters ≡ db.counters
  enqueue-counters true job db = refl
  enqueue-counters false job db = refl

  pub find_by_key :
      {Row : Type 0} (key : Row → String) (k : String) (t : orm.Table Row) (r : Row)
      → orm.get key k t ≡ some r
      → orm.find_one key (λ q. key q == k) t ≡ some r
  find_by_key key k t r e = elim (Option-cases (orm.find_one key (λ q. key q == k) t)) [
    | inl f ↦ ground (
      arith,
      orm.find_one-eq-none key (λ q. key q == k) t k r f e,
      orm.get-key key k t r e,
      eq_iff (key r) k,
    )
    | inr (q, f) ↦
        let found = orm.find_one-eq-some key (λ q. key q == k) t q f in
        f ∙ sym found.0 ∙ ap (λ j. orm.get key j t) ((eq_iff (key q) k).0 found.1) ∙ e
  ]

  -- What an update that succeeds has found and done.
  pub record Updated (guild id : String) (dto : PatchCounterDto) (today : Units) (now : ℕ)
      (queued : Bool) (db : CountersDb orm) (c : Counter) (db' : CountersDb orm) : Type 0 where
    pub server : Guild
    pub old : Counter
    pub known : find_guild orm guild db ≡ some server
    pub stored : find_counter orm id server.id db ≡ some old
    pub value : c ≡ patched dto today now old
    pub after : db' ≡ add_counter_update orm queued c (save_counter orm c db)

  pub update-Updated :
      (guild id : String) (dto : PatchCounterDto) (today : Units) (now : ℕ) (queued : Bool)
      (db db' : CountersDb orm) (c : Counter)
      → update orm guild id dto today now queued db ≡ (ok c, db')
      → Updated guild id dto today now queued db c db'
  unfolding update
  update-Updated guild id dto today now queued db db' c h =
      elim (Option-cases (find_guild orm guild db)) [
        | inl e ↦ ground (arith, e)
        | inr (g, e) ↦ elim (Option-cases (find_counter orm id g.id db)) [
          | inl f ↦ ground (arith, e, f)
          | inr (d, f) ↦
              let p = patched dto today now d in
              let ran : update orm guild id dto today now queued db
                  ≡ (ok p, add_counter_update orm queued p (save_counter orm p db)) =
                rw (e, f) refl in
              let same = sym ran ∙ h in
              let value = sym (ap (λ r. value_or c r.0) same) in
              record {
                server = g;
                old = d;
                known = e;
                stored = f;
                value = value;
                after =
                    sym (ap (λ r. r.1) same)
                    ∙ ap (λ x. add_counter_update orm queued x (save_counter orm x db)) (sym value);
              }
        ]
      ]

  pub find_guild-get :
      (id : String) (db : CountersDb orm) (g : Guild)
      → find_guild orm id db ≡ some g
      → orm.get guild_key g.id db.guilds ≡ some g
  unfolding find_guild
  find_guild-get id db g e = elim (Bool-cases (is_uuid id)) [
    | inl y ↦ (orm.find_one-eq-some guild_key (λ q. q.id == id) db.guilds g (rw y at e)).0
    | inr n ↦
        (orm.find_one-eq-some guild_key (λ q. q.discord_guild_id == id) db.guilds g (rw n at e)).0
  ]

  pub find_counter-get :
      (id guild : String) (db : CountersDb orm) (c : Counter)
      → find_counter orm id guild db ≡ some c
      → (orm.get counter_id id db.counters ≡ some c) × (c.id ≡ id) × (c.guild_id ≡ guild)
  unfolding find_counter
  find_counter-get id guild db c e =
      let found =
        orm.find_one-eq-some counter_id (λ d. d.id == id && d.guild_id == guild) db.counters c e in
      let same : c.id ≡ id = ground (arith, found.1, eq_iff c.id id) in
      (
        ap (λ k. orm.get counter_id k db.counters) (sym same) ∙ found.0,
        same,
        ground (arith, found.1, eq_iff c.guild_id guild),
      )

  -- A request for a guild, whether it succeeds or not, leaves the counters of all other guilds as
  -- they are: an update and a removal keep each stored counter whose guild is not the one requested.
  pub update-remove-keeps_others :
      (guild id : String) (dto : PatchCounterDto) (today : Units) (now : ℕ) (queued : Bool)
      (db : CountersDb orm) (k : String) (c : Counter)
      → orm.get counter_id k db.counters ≡ some c
      → ((g : Guild) → find_guild orm guild db ≡ some g → c.guild_id ≢ g.id)
      → (orm.get counter_id k (update orm guild id dto today now queued db).1.counters ≡ some c)
        × (orm.get counter_id k (remove orm guild id queued db).1.counters ≡ some c)
  unfolding update remove
  update-remove-keeps_others guild id dto today now queued db k c stored foreign =
      elim (Option-cases (find_guild orm guild db)) [
        | inl e ↦ (rw e stored, rw e stored)
        | inr (g, e) ↦ elim (Option-cases (find_counter orm id g.id db)) [
          | inl f ↦ (rw (e, f) stored, rw (e, f) stored)
          | inr (d, f) ↦
              let at = find_counter-get id g.id db d f in
              let p = patched dto today now d in
              let other : (d.id == k) ≡ false =
                ground (arith, at, stored, foreign g e, eq_iff d.id k) in
              (
                rw (e, f)
                    (rw
                      (enqueue-counters queued
                        (update_job p.id p.guild_id p.channel_id p.type p.metric p.role_id)
                        (save_counter orm p db))
                      (orm.get-save counter_id k p db.counters
                        ∙ rw ((patched-KeepsPlace dto today now d).0, other) stored)),
                rw (e, f, enqueue-counters queued (delete_job d.id d.guild_id d.channel_id) db)
                    (orm.get-remove counter_id k d.id db.counters ∙ rw other stored),
              )
        ]
      ]
