-- ===== src/Counters/Roles.antt =====
-- counters.service.ts: the role of a counter, over any requests and jobs.
use discord_bot_backend.Prelude.{
  ℕ, String, Bool, true, false, Option, none, some, ◌≡◌, refl, ◌==◌, ◌&&◌, inl, inr, Bool-cases,
  Option-cases, arith, eq_iff, List, [], ◌∷◌,
}
use discord_bot_backend.Orm.{Orm}
use discord_bot_backend.Redis.{Redis}
use discord_bot_backend.Counters.{
  Units, Counter, CounterMetric, CountersDb, CounterJob, update_job, delete_job, counter_id,
  is_role,
}
use discord_bot_backend.Counters.Service.{
  CreateCounterDto, PatchCounterDto, Change, keep, assign, patched, patch_metric, patch_role,
  patch_template, find_guild, find_counter, new_counter, create, update, remove, save_counter,
  enqueue,
}
use discord_bot_backend.Counters.Consumer.{
  World, process_job, rename_channel, Readings, Discord, Clock, Renaming, renamed, refused,
  is_rate_limited, set_channel_name, get_metric_value,
}
use discord_bot_backend.Counters.Jobs.{process_job-Attempt, process_job-cases}
use discord_bot_backend.Counters.Events.{
  Event, creating, updating, removing, working, handle, handle_all,
}

-- A counter that does not count the members of a role names no role.
abbrev pub HasRoleOnlyForRole : Counter → Type 0
HasRoleOnlyForRole c = is_role c.metric ≡ false → c.role_id ≡ none

patch_metric-HasRoleOnlyForRole :
    (m : Change CounterMetric) (r : Change String) (c : Counter)
    → HasRoleOnlyForRole c
    → HasRoleOnlyForRole (patch_metric m r c)
unfolding patch_metric
patch_metric-HasRoleOnlyForRole keep r c h = h
patch_metric-HasRoleOnlyForRole (assign m) r c h = λ e. rw e refl

patch_role-HasRoleOnlyForRole :
    (r : Change String) (c : Counter) → HasRoleOnlyForRole c → HasRoleOnlyForRole (patch_role r c)
unfolding patch_role
patch_role-HasRoleOnlyForRole keep c h = h
patch_role-HasRoleOnlyForRole (assign r) c h = elim (Bool-cases (is_role c.metric)) [
  | inl e ↦ rw e (λ f. absurd (ground (arith, e, f)))
  | inr e ↦ rw e h
]

patch_template-HasRoleOnlyForRole :
    (t : Option Units) (today : Units) (c : Counter)
    → HasRoleOnlyForRole c
    → HasRoleOnlyForRole (patch_template t today c)
unfolding patch_template
patch_template-HasRoleOnlyForRole none today c h = h
patch_template-HasRoleOnlyForRole (some t) today c h = h

pub patched-HasRoleOnlyForRole :
    (dto : PatchCounterDto) (today : Units) (now : ℕ) (c : Counter)
    → HasRoleOnlyForRole c
    → HasRoleOnlyForRole (patched dto today now c)
unfolding patched
patched-HasRoleOnlyForRole dto today now c h =
    patch_template-HasRoleOnlyForRole dto.template today _ (
      patch_role-HasRoleOnlyForRole dto.role_id _
        (patch_metric-HasRoleOnlyForRole dto.metric dto.role_id _ h))

module _ (orm : Orm) where
  abbrev pub HasRoles : CountersDb orm → Type 0
  HasRoles db =
      (k : String) (c : Counter) → orm.get counter_id k db.counters ≡ some c → HasRoleOnlyForRole c

  save_counter-HasRoles :
      (c : Counter) (db : CountersDb orm)
      → HasRoleOnlyForRole c
      → HasRoles db
      → HasRoles (save_counter orm c db)
  save_counter-HasRoles c db h hs k d e f =
      ground (arith, orm.get-save counter_id k c db.counters, e, f, h, hs k d)

  find_counter-get :
      (id guild : String) (db : CountersDb orm) (c : Counter)
      → find_counter orm id guild db ≡ some c
      → (orm.get counter_id c.id db.counters ≡ some c) × (c.id ≡ id) × (c.guild_id ≡ guild)
  unfolding find_counter
  find_counter-get id guild db c e =
      let found =
        orm.find_one-eq-some counter_id (λ d. d.id == id && d.guild_id == guild) db.counters c e in
      (
        found.0,
        ground (arith, found.1, eq_iff c.id id),
        ground (arith, found.1, eq_iff c.guild_id guild),
      )

  enqueue-counters :
      (queued : Bool) (job : CounterJob) (db : CountersDb orm)
      → (enqueue orm queued job db).counters ≡ db.counters
  enqueue-counters true job db = refl
  enqueue-counters false job db = refl

  enqueue-HasRoles :
      (queued : Bool) (job : CounterJob) (db : CountersDb orm)
      → HasRoles db
      → HasRoles (enqueue orm queued job db)
  enqueue-HasRoles true job db h = h
  enqueue-HasRoles false job db h = h

  create-HasRoles :
      (guild : String) (dto : CreateCounterDto) (today : Units) (now created_at : ℕ) (queued : Bool)
      (db : CountersDb orm)
      → HasRoles db
      → HasRoles (create orm guild dto today now created_at queued db).1
  unfolding create new_counter
  create-HasRoles guild dto today now created_at queued db h =
      elim (Option-cases (find_guild orm guild db)) [
        | inl e ↦ rw e h
        | inr (g, e) ↦
            let c = new_counter orm g.id dto today now created_at db in
            rw e (
              enqueue-HasRoles queued _ (save_counter orm c db)
                (save_counter-HasRoles c db (λ f. rw f refl) h))
      ]

  update-HasRoles :
      (guild id : String) (dto : PatchCounterDto) (today : Units) (now : ℕ) (queued : Bool)
      (db : CountersDb orm)
      → HasRoles db
      → HasRoles (update orm guild id dto today now queued db).1
  unfolding update
  update-HasRoles guild id dto today now queued db h =
      elim (Option-cases (find_guild orm guild db)) [
        | inl e ↦ rw e h
        | inr (g, e) ↦ elim (Option-cases (find_counter orm id g.id db)) [
          | inl f ↦ rw (e, f) h
          | inr (c, f) ↦
              let d = patched dto today now c in
              let good =
                patched-HasRoleOnlyForRole dto today now c
                  (h c.id c (find_counter-get id g.id db c f).0) in
              rw (e, f)
                (enqueue-HasRoles queued _ (save_counter orm d db)
                  (save_counter-HasRoles d db good h))
        ]
      ]

  remove-HasRoles :
      (guild id : String) (queued : Bool) (db : CountersDb orm)
      → HasRoles db
      → HasRoles (remove orm guild id queued db).1
  unfolding remove
  remove-HasRoles guild id queued db h = elim (Option-cases (find_guild orm guild db)) [
    | inl e ↦ rw e h
    | inr (g, e) ↦ elim (Option-cases (find_counter orm id g.id db)) [
      | inl f ↦ rw (e, f) h
      | inr (c, f) ↦
          let at = λ (k : String). orm.get-remove counter_id k c.id db.counters in
          rw (e, f, enqueue-counters queued (delete_job c.id c.guild_id c.channel_id) db)
            λ k d g i. ground (arith, at k, g, i, h k d)
    ]
  ]

  module _ (redis : Redis) (prefix : String) (number : ℕ → Units)
      (date : Option String → Option String → Units) where
    rename_channel-HasRoles :
        (r : Renaming) (channel : String) (c : Counter) (value : ℕ) (clock : Clock)
        (w : World orm redis)
        → HasRoleOnlyForRole c
        → HasRoles w.db
        → HasRoles (rename_channel orm redis prefix number date r channel c value clock w).1.db
    unfolding rename_channel
    rename_channel-HasRoles renamed channel c value clock w h hs = save_counter-HasRoles _ w.db h hs
    rename_channel-HasRoles (refused status) channel c value clock w h hs =
        elim (Bool-cases (is_rate_limited status)) [
          | inl e ↦ rw e hs
          | inr e ↦ rw e (save_counter-HasRoles _ w.db h hs)
        ]

    process_job-HasRoles :
        (job : CounterJob) (readings : Readings) (discord : Discord) (clock : Clock)
        (w : World orm redis)
        → HasRoles w.db
        → HasRoles (process_job orm redis prefix number date job readings discord clock w).1.db
    unfolding process_job
    process_job-HasRoles (delete_job id guild channel) readings discord clock w h = h
    process_job-HasRoles (update_job id guild channel type metric role_id) readings discord clock w
          h =
        elim (process_job-cases orm redis prefix number date id guild channel type metric role_id
          readings discord clock w) [
            | inl e ↦ rw e h
            | inr a ↦
                rw
                  (process_job-Attempt orm redis prefix number date id guild channel type metric
                    role_id readings discord clock w a)
                  (rename_channel-HasRoles (set_channel_name discord) channel a.counter
                    (get_metric_value readings a.counter.metric a.counter.role_id a.server) clock w
                    (h a.counter.id a.counter
                      (orm.find_one-eq-some counter_id (λ c. c.id == id) w.db.counters a.counter
                        a.stored).0)
                    h)
          ]

    handle-HasRoles :
        (e : Event) (w : World orm redis)
        → HasRoles w.db
        → HasRoles (handle orm redis prefix number date e w).db
    unfolding handle
    handle-HasRoles (creating guild dto today now created_at queued) w h =
        create-HasRoles guild dto today now created_at queued w.db h
    handle-HasRoles (updating guild id dto today now queued) w h =
        update-HasRoles guild id dto today now queued w.db h
    handle-HasRoles (removing guild id queued) w h = remove-HasRoles guild id queued w.db h
    handle-HasRoles (working job readings discord clock) w h =
        process_job-HasRoles job readings discord clock w h

    -- Whatever requests and jobs come, in any order: if every stored counter that does not count a
    -- role's members names no role, so it is afterwards.
    pub handle_all-HasRoles :
        (events : List Event) (w : World orm redis)
        → HasRoles w.db
        → HasRoles (handle_all orm redis prefix number date events w).db
    unfolding handle_all
    handle_all-HasRoles [] w h = h
    handle_all-HasRoles (e ∷ events) w h =
        handle_all-HasRoles events (handle orm redis prefix number date e w) (handle-HasRoles e w h)
