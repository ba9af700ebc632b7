-- ===== src/Counters/Removal.antt =====
-- counters.service.ts and counters-consumer.service.ts: requests and jobs after a removal.
use discord_bot_backend.Prelude.{
  ℕ, String, Bool, true, false, Option, none, some, ◌≡◌, refl, ap, sym, ◌∙◌, ◌==◌, ok, throw, arith,
  eq_iff, Option-cases, inl, inr,
}
use discord_bot_backend.Orm.{Orm}
use discord_bot_backend.Redis.{Redis}
use discord_bot_backend.Counters.{
  Units, CounterType, CounterMetric, Guild, CountersDb, CounterJob, update_job, delete_job,
  counter_id,
}
use discord_bot_backend.Counters.Service.{
  PatchCounterDto, find_guild, find_counter, update, remove, counter_not_found, enqueue,
}
use discord_bot_backend.Counters.Consumer.{World, process_job, Readings, Discord, Clock, done}
use discord_bot_backend.Counters.Jobs.{process_job-cases}
use discord_bot_backend.Counters.Status.{find_counter-get}

module _ (orm : Orm) where
  enqueue-find_guild :
      (queued : Bool) (job : CounterJob) (guild : String) (db : CountersDb orm)
      → find_guild orm guild (enqueue orm queued job db) ≡ find_guild orm guild db
  unfolding find_guild
  enqueue-find_guild true job guild db = refl
  enqueue-find_guild false job guild db = refl

  remove-get :
      (guild id : String) (queued : Bool) (db db' : CountersDb orm)
      → remove orm guild id queued db ≡ (ok tt, db')
      → (orm.get counter_id id db'.counters ≡ none)
        × ((g : Guild) × (find_guild orm guild db' ≡ some g))
  unfolding remove find_guild
  remove-get guild id queued db db' h = elim (Option-cases (find_guild orm guild db)) [
    | inl e ↦ ground (arith, e)
    | inr (g, e) ↦ elim (Option-cases (find_counter orm id g.id db)) [
      | inl f ↦ ground (arith, e, f)
      | inr (c, f) ↦
          let job = delete_job c.id c.guild_id c.channel_id in
          let after = record (enqueue orm queued job db) {
            counters = orm.remove counter_id c.id (enqueue orm queued job db).counters;
          } in
          let ran : remove orm guild id queued db ≡ (ok tt, after) = rw (e, f) refl in
          let same = sym ran ∙ h in
          let here = find_counter-get orm id g.id db c f in
          (
            sym (ap (λ r. orm.get counter_id id r.1.counters) same)
                ∙ orm.get-remove counter_id id c.id (enqueue orm queued job db).counters
                ∙ rw ((eq_iff c.id id).1 here.1) refl,
            (
              g,
              sym (ap (λ r. find_guild orm guild r.1) same)
                  ∙ enqueue-find_guild queued job guild db
                  ∙ e,
            ),
          )
    ]
  ]

  -- After a removal that succeeds, an update or a removal of that counter is answered
  -- COUNTER_NOT_FOUND and changes nothing, and a job that was queued for it before changes nothing,
  -- in the tables, in Redis or at Discord.
  pub remove-ends :
      (redis : Redis) (prefix : String) (number : ℕ → Units)
      (date : Option String → Option String → Units) (guild id : String) (queued : Bool)
      (db : CountersDb orm) (w : World orm redis) (dto : PatchCounterDto) (today : Units) (now : ℕ)
      (again : Bool) (server channel : String) (type : CounterType) (metric : Option CounterMetric)
      (role_id : Option String) (readings : Readings) (discord : Discord) (clock : Clock)
      → remove orm guild id queued db ≡ (ok tt, w.db)
      → (update orm guild id dto today now again w.db ≡ (throw counter_not_found, w.db))
        × (remove orm guild id again w.db ≡ (throw counter_not_found, w.db))
        × (process_job orm redis prefix number date
              (update_job id server channel type metric role_id)
              readings
              discord
              clock
              w
            ≡ (done, w))
  unfolding update remove
  remove-ends redis prefix number date guild id queued db w dto today now again server channel type
        metric role_id readings discord clock h =
      let gone = remove-get guild id queued db w.db h in
      let missing : find_counter orm id gone.1.0.id w.db ≡ none =
        elim (Option-cases (find_counter orm id gone.1.0.id w.db)) [
          | inl e ↦ e
          | inr (c, e) ↦
              absurd (ground (arith, gone.0, (find_counter-get orm id gone.1.0.id w.db c e).0))
        ] in
      (
        rw (gone.1.1, missing) refl,
        rw (gone.1.1, missing) refl,
        elim (process_job-cases orm redis prefix number date id server channel type metric role_id
            readings discord clock w) [
              | inl e ↦ e
              | inr a ↦
                  let found =
                    orm.find_one-eq-some counter_id (λ c. c.id == id) w.db.counters a.counter
                      a.stored in
                  absurd (ground (arith, gone.0, found.0, (eq_iff a.counter.id id).0 found.1))
            ],
      )
