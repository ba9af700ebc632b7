-- ===== src/Counters/Reactivation.antt =====
-- counters.service.ts and counters-consumer.service.ts: an update, and the job that it queues.
use discord_bot_backend.Prelude.{
  ℕ, String, Bool, true, false, Option, some, ◌≡◌, refl, ap, ◌∙◌, ok, eq_refl, ◌∷◌, is_empty,
}
use discord_bot_backend.Orm.{Orm}
use discord_bot_backend.Redis.{Redis}
use discord_bot_backend.Counters.{
  Units, Counter, Guild, CountersDb, CounterJob, update_job, counter_id, guild_key, active,
  inactive,
}
use discord_bot_backend.Counters.Service.{PatchCounterDto, patched, update}
use discord_bot_backend.Counters.Consumer.{
  World, process_job, rename_channel, Readings, Discord, Clock, Renaming, renamed, set_channel_name,
  get_metric_value, check_rate_limit, rate_limit_key,
}
use discord_bot_backend.Counters.Jobs.{process_job-Attempt, Attempt}
use discord_bot_backend.Counters.Status.{
  find_by_key, Updated, update-Updated, find_guild-get, find_counter-get, patched-KeepsPlace,
}

abbrev pub job_of : Counter → CounterJob
job_of c = update_job c.id c.guild_id c.channel_id c.type c.metric c.role_id

module _ (orm : Orm) (redis : Redis) (prefix : String) (number : ℕ → Units)
    (date : Option String → Option String → Units) where
  Updated-guild_id :
      (guild id : String) (dto : PatchCounterDto) (today : Units) (now : ℕ) (queued : Bool)
      (db db' : CountersDb orm) (c : Counter)
      (u : Updated orm guild id dto today now queued db c db')
      → c.guild_id ≡ u.server.id
  Updated-guild_id guild id dto today now queued db db' c u =
      ap (λ x. x.guild_id) u.value
      ∙ (patched-KeepsPlace dto today now u.old).1
      ∙ (find_counter-get orm id u.server.id db u.old u.stored).2

  abbrev Named : CountersDb orm → Type 0
  Named db =
      (k : String) (g : Guild)
      → orm.get guild_key k db.guilds ≡ some g
      → is_empty g.discord_guild_id ≡ false

  -- What an update has queued comes to Discord, if nothing comes between and the rate limit allows.
  Updated-Attempt :
      (guild id : String) (dto : PatchCounterDto) (today : Units) (now : ℕ) (db : CountersDb orm)
      (c : Counter) (clock : Clock) (w : World orm redis)
      → Updated orm guild id dto today now true db c w.db
      → Named db
      → check_rate_limit orm redis
          (rate_limit_key orm redis prefix c.channel_id)
          clock.checked
          w.cache
        ≡ true
      → (a : Attempt orm redis prefix number date c.id c.guild_id c.channel_id clock w) × (a.counter
          ≡ c)
  Updated-Attempt guild id dto today now db c clock w u named allowed =
      let placed = Updated-guild_id guild id dto today now true db w.db c u in
      let stored : orm.get counter_id c.id w.db.counters ≡ some c =
        ap (λ (d : CountersDb orm). orm.get counter_id c.id d.counters) u.after
        ∙ orm.get-save counter_id c.id c db.counters
        ∙ rw (eq_refl c.id) refl in
      let server : orm.get guild_key c.guild_id w.db.guilds ≡ some u.server =
        ap (λ (d : CountersDb orm). orm.get guild_key c.guild_id d.guilds) u.after
        ∙ ap (λ k. orm.get guild_key k db.guilds) placed
        ∙ find_guild-get orm guild db u.server u.known in
      (
        record {
          counter = c;
          server = u.server;
          stored = find_by_key orm counter_id c.id w.db.counters c stored;
          known = find_by_key orm guild_key c.guild_id w.db.guilds u.server server;
          named = named u.server.id u.server (find_guild-get orm guild db u.server u.known);
          allowed = allowed;
        },
        refl,
      )

  -- An update that makes a counter inactive queues a job; when the worker takes it next, the rate
  -- limit allows a change of name and Discord takes it, the stored counter is active again; given
  -- that the queue takes the job and that stored guilds have an id at Discord.
  pub update-reactivates :
      (guild id : String) (dto : PatchCounterDto) (today : Units) (now : ℕ) (db : CountersDb orm)
      (c : Counter) (readings : Readings) (discord : Discord) (clock : Clock) (w : World orm redis)
      → update orm guild id dto today now true db ≡ (ok c, w.db)
      → dto.status ≡ some inactive
      → Named db
      → check_rate_limit orm redis
          (rate_limit_key orm redis prefix c.channel_id)
          clock.checked
          w.cache
        ≡ true
      → set_channel_name discord ≡ renamed
      → let w' = (process_job orm redis prefix number date (job_of c) readings discord clock w).1 in
        (c.status ≡ inactive)
        × (w.db.queue ≡ job_of c ∷ db.queue)
        × ((c' : Counter) × (orm.get counter_id c.id w'.db.counters ≡ some c')
            × (c'.status ≡ active))
  unfolding rename_channel patched
  update-reactivates guild id dto today now db c readings discord clock w h status named allowed
        taken =
      let u = update-Updated orm guild id dto today now true db w.db c h in
      let attempt = Updated-Attempt guild id dto today now db c clock w u named allowed in
      let a = attempt.0 in
      let run =
        process_job-Attempt orm redis prefix number date c.id c.guild_id c.channel_id c.type
          c.metric c.role_id readings discord clock w a in
      let value = get_metric_value readings c.metric c.role_id a.server in
      let after = λ (x : Counter) (r : Renaming).
        orm.get counter_id c.id
          (rename_channel orm redis prefix number date r c.channel_id x
            (get_metric_value readings x.metric x.role_id a.server) clock w).1.db.counters in
      let c' = record c { current_value = some value; status = active; updated_at = clock.saved } in
      (
        ap (λ x. x.status) u.value ∙ rw status refl,
        ap (λ (d : CountersDb orm). d.queue) u.after,
        (
          c',
          ap (λ r. orm.get counter_id c.id r.1.db.counters) run
              ∙ ap (after a.counter) taken
              ∙ ap (λ x. after x renamed) attempt.1
              ∙ orm.get-save counter_id c.id c' w.db.counters
              ∙ rw (eq_refl c.id) refl,
          refl,
        ),
      )
