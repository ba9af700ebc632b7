-- ===== src/GuildSetup/Twice.antt =====
-- A job for a guild that was set up before, and the settings of a guild that was set up.
use discord_bot_backend.Prelude.{
  ℕ, String, false, Option, some, ◌≡◌, refl, ap, ◌∙◌, ◌==◌, ◌||◌, eq_refl, is_empty, Bool-cases,
  Option-cases, inl, inr, arith,
}
use discord_bot_backend.Orm.{Orm}
use discord_bot_backend.Orm.Keys.{find_one-get}
use discord_bot_backend.Entities.{Guild, ServerSettings, user_id}
use discord_bot_backend.GuildSync.{FirstContactPayload, guild_id, settings_id}
use discord_bot_backend.GuildSetup.{
  DiscordUser, SetupDb, JobResult, done, stored_guild, is_discord_id, new_user, new_guild,
  new_settings, set_up, process_job, get_settings,
}

module _ (orm : Orm) (token : Option String) (discord_user : String → String → DiscordUser) where
  abbrev process : FirstContactPayload → ℕ → SetupDb orm → JobResult × SetupDb orm
  process = process_job orm token discord_user

  abbrev stored_of : String → SetupDb orm → Option Guild
  stored_of = stored_guild orm token discord_user

  -- A guild is stored after it was set up.
  set_up-stored :
      (job : FirstContactPayload) (owner : String) (now : ℕ) (db : SetupDb orm)
      → (g : Guild) × (stored_of job.discord_guild_id
            (set_up orm token discord_user job owner now db)
          ≡ some g)
  unfolding set_up new_guild
  set_up-stored job owner now db =
      let g = new_guild orm token discord_user job owner now db in
      elim (Option-cases
        (stored_of job.discord_guild_id (set_up orm token discord_user job owner now db))) [
          | inr (h, there) ↦ (h, there)
          | inl nothing ↦
              let missed =
                orm.find_one-eq-none guild_id (λ h. h.discord_guild_id == job.discord_guild_id)
                  (orm.save guild_id g db.guilds) g.id g nothing
                  (orm.get-save guild_id g.id g db.guilds ∙ ground (arith, eq_refl g.id)) in
              absurd (ground (arith, missed, eq_refl job.discord_guild_id))
        ]

  -- The same tables.
  abbrev pub HasSameTables : SetupDb orm → SetupDb orm → Type 0
  HasSameTables a b = (a.guilds ≡ b.guilds) × (a.settings ≡ b.settings) × (a.users ≡ b.users)

  -- A job for a stored guild writes no table.
  process_job-stored :
      (job : FirstContactPayload) (now : ℕ) (db : SetupDb orm) (g : Guild)
      → stored_of job.discord_guild_id db ≡ some g
      → HasSameTables (process job now db).1 db
  unfolding process_job
  process_job-stored job now db g there =
      elim (Bool-cases (is_empty job.discord_guild_id || is_empty job.discord_owner_id)) [
        | inl missing ↦ rw (missing, process_job) (refl, refl, refl)
        | inr named ↦ rw (named, there, process_job) (refl, refl, refl)
      ]

  after_set_up :
      (job : FirstContactPayload) (owner : String) (now later : ℕ) (db db' : SetupDb orm)
      → (process job now db).1 ≡ set_up orm token discord_user job owner now db'
      → HasSameTables (process job later (process job now db).1).1 (process job now db).1
  after_set_up job owner now later db db' e =
      let (g, there) = set_up-stored job owner now db' in
      process_job-stored job later (process job now db).1 g
        (ap (stored_of job.discord_guild_id) e ∙ there)

  -- A job that is done once more, at whatever time, after it was done, writes no table: the guild is set
  -- up once, with one owner and one row of settings.
  pub process_job-again :
      (job : FirstContactPayload) (now later : ℕ) (db : SetupDb orm)
      → (process job now db).0 ≡ done
      → HasSameTables (process job later (process job now db).1).1 (process job now db).1
  unfolding process_job
  process_job-again job now later db h =
      elim (Bool-cases (is_empty job.discord_guild_id || is_empty job.discord_owner_id)) [
        | inl missing ↦ rw (missing, process_job) (refl, refl, refl)
        | inr named ↦ elim (Option-cases (stored_of job.discord_guild_id db)) [
          | inr (g, there) ↦
              let same : (process job now db).1.guilds ≡ db.guilds =
                (process_job-stored job now db g there).0 in
              process_job-stored job later (process job now db).1 g (
                ap
                  (λ t.
                    orm.find_one guild_id
                      (λ (g : Guild). g.discord_guild_id == job.discord_guild_id) t)
                  same
                ∙ there)
          | inl nothing ↦ elim (Option-cases token) [
            | inl no_token ↦ absurd (ground (arith, named, nothing, no_token, h))
            | inr (t, some_token) ↦ elim (Bool-cases (is_empty t)) [
              | inl empty ↦ absurd (ground (arith, named, nothing, some_token, empty, h))
              | inr set ↦
                  elim (Option-cases (
                    orm.find_one user_id (λ u. is_discord_id job.discord_owner_id u.discord_id)
                      db.users)) [
                        | inr (u, known) ↦
                            after_set_up job u.id now later db db
                              (rw (named, nothing, some_token, set, known, process_job) refl)
                        | inl unknown ↦
                            let u = new_user orm token discord_user t job.discord_owner_id now db in
                            after_set_up job u.id now later db
                              (record db { users = orm.save user_id u db.users })
                              (rw (named, nothing, some_token, set, unknown, process_job) refl)
                      ]
            ]
          ]
        ]
      ]

  -- A guild that was just set up does not anonymize its users and has the free plan.
  pub get_settings-set_up :
      (job : FirstContactPayload) (owner : String) (now : ℕ) (db : SetupDb orm)
      → get_settings orm token discord_user
          (new_guild orm token discord_user job owner now db).id
          (set_up orm token discord_user job owner now db)
        ≡ record { anonymize_user_data = false; plan_tier = "free" }
  unfolding get_settings set_up new_guild new_settings
  get_settings-set_up job owner now db =
      let g = new_guild orm token discord_user job owner now db in
      let s = new_settings orm token discord_user g.id g.name in
      let guild : orm.find_one guild_id (λ (h : Guild). h.id == g.id)
            (orm.save guild_id g db.guilds)
          ≡ some g =
        find_one-get orm guild_id g.id (orm.save guild_id g db.guilds)
        ∙ orm.get-save guild_id g.id g db.guilds
        ∙ ground (arith, eq_refl g.id) in
      let settings : orm.find_one settings_id (λ (r : ServerSettings). r.guild_id == g.id)
            (orm.save settings_id s db.settings)
          ≡ some s =
        find_one-get orm settings_id g.id (orm.save settings_id s db.settings)
        ∙ orm.get-save settings_id g.id s db.settings
        ∙ ground (arith, eq_refl g.id) in
      rw (guild, settings) refl
