-- ===== src/Counters/Jobs.antt =====
-- counters-consumer.service.ts: the ways through a job.
use discord_bot_backend.Prelude.{
  ℕ, String, true, false, Option, some, ◌≡◌, refl, ◌==◌, ◌⊎◌, inl, inr, Bool-cases, Option-cases,
  is_empty,
}
use discord_bot_backend.Orm.{Orm}
use discord_bot_backend.Redis.{Redis}
use discord_bot_backend.Counters.{
  Units, Counter, CounterMetric, CounterType, Guild, update_job, counter_id, guild_key,
}
use discord_bot_backend.Counters.Consumer.{
  World, process_job, rename_channel, Readings, Discord, Clock, set_channel_name, get_metric_value,
  check_rate_limit, rate_limit_key, done,
}

module _ (orm : Orm) (redis : Redis) (prefix : String) (number : ℕ → Units)
    (date : Option String → Option String → Units) where
  -- Why a job came to Discord.
  pub record Attempt (id guild channel : String) (clock : Clock) (w : World orm redis)
      : Type 0 where
    pub counter : Counter
    pub server : Guild
    pub stored : orm.find_one counter_id (λ c. c.id == id) w.db.counters ≡ some counter
    pub known : orm.find_one guild_key (λ g. g.id == guild) w.db.guilds ≡ some server
    pub named : is_empty server.discord_guild_id ≡ false
    pub allowed :
        check_rate_limit orm redis (rate_limit_key orm redis prefix channel) clock.checked w.cache
        ≡ true

  pub process_job-Attempt :
      (id guild channel : String) (type : CounterType) (metric : Option CounterMetric)
      (role_id : Option String) (readings : Readings) (discord : Discord) (clock : Clock)
      (w : World orm redis) (a : Attempt id guild channel clock w)
      → process_job orm redis prefix number date
          (update_job id guild channel type metric role_id)
          readings
          discord
          clock
          w
        ≡ rename_channel orm redis prefix number date
            (set_channel_name discord)
            channel
            a.counter
            (get_metric_value readings a.counter.metric a.counter.role_id a.server)
            clock
            w
  unfolding process_job
  process_job-Attempt id guild channel type metric role_id readings discord clock w a =
      rw (a.stored, process_job) (rw (a.known) (rw (a.named, a.allowed) refl))

  pub process_job-cases :
      (id guild channel : String) (type : CounterType) (metric : Option CounterMetric)
      (role_id : Option String) (readings : Readings) (discord : Discord) (clock : Clock)
      (w : World orm redis)
      → (process_job orm redis prefix number date
            (update_job id guild channel type metric role_id)
            readings
            discord
            clock
            w
          ≡ (done, w))
        ⊎ Attempt id guild channel clock w
  unfolding process_job
  process_job-cases id guild channel type metric role_id readings discord clock w =
      elim (Option-cases (orm.find_one counter_id (λ c. c.id == id) w.db.counters)) [
        | inl e ↦ inl (rw (e, process_job) refl)
        | inr (c, e) ↦
            elim (Option-cases (orm.find_one guild_key (λ g. g.id == guild) w.db.guilds)) [
              | inl f ↦ inl (rw (e, process_job) (rw f refl))
              | inr (g, f) ↦ elim (Bool-cases (is_empty g.discord_guild_id)) [
                | inl i ↦ inl (rw (e, process_job) (rw f (rw i refl)))
                | inr i ↦
                    elim (Bool-cases (
                      check_rate_limit orm redis (rate_limit_key orm redis prefix channel)
                        clock.checked w.cache)) [
                          | inl j ↦ inr (record {
                            counter = c;
                            server = g;
                            stored = e;
                            known = f;
                            named = i;
                            allowed = j;
                          })
                          | inr j ↦ inl (rw (e, process_job) (rw f (rw (i, j) refl)))
                        ]
              ]
            ]
      ]
