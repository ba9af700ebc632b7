-- ===== src/Counters/Consumer.antt =====
-- counters-consumer.service.ts: one job of the queue of counters. What Redis, ClickHouse and Discord
-- answer are readings; the rate limit is kept in Redis.
use Prim.Native.String.{◌++◌ as append}
use discord_bot_backend.Prelude.{
  ℕ, ◌+◌, String, Bool, false, Option, none, some, ◌==◌, not, ltb, ◌=?◌, is_empty, if◌then◌else◌,
  List, ◌∷◌, keep_if, length, or_else,
}
use discord_bot_backend.Orm.{Orm}
use discord_bot_backend.Redis.{Redis}
use discord_bot_backend.Counters.{
  Units, Counter, CounterMetric, members, messages, voice, online, idle, dnd, offline, bots, role,
  CounterStatus, active, error, Guild, CountersDb, CounterJob, update_job, delete_job, counter_id,
  guild_key,
}
use discord_bot_backend.Counters.Service.{save_counter}
use discord_bot_backend.Counters.Template.{format_counter_channel_name}

abbrev pub rate_limit_window_sec : ℕ
rate_limit_window_sec = 600

abbrev pub rate_limit_max_updates : ℕ
rate_limit_max_updates = 2

-- Cached numbers are `none` where the cache has no number; a failed query of messages has none.
pub record Readings : Type 0 where
  pub cached_role : Option ℕ
  pub fetched_role : ℕ
  pub cached_members : Option ℕ
  pub total_messages : Option ℕ
  pub online_count : ℕ
  pub idle_count : ℕ
  pub dnd_count : ℕ
  pub offline_count : ℕ

abbrev pub has_role : Option String → Bool
has_role none = false
has_role (some id) = not (is_empty id)

-- `getMetricValue`, for a guild whose id at Discord is known.
unfoldable pub get_metric_value : Readings → Option CounterMetric → Option String → Guild → ℕ
get_metric_value r none role_id g = 0
get_metric_value r (some role) role_id g =
    if has_role role_id then or_else r.cached_role r.fetched_role else 0
get_metric_value r (some members) role_id g = or_else r.cached_members g.member_count
get_metric_value r (some messages) role_id g = or_else r.total_messages 0
get_metric_value r (some online) role_id g =
    let visible = r.online_count + r.idle_count + r.dnd_count in
    if ltb 0 visible then visible else or_else g.online_members 0
get_metric_value r (some idle) role_id g = r.idle_count
get_metric_value r (some dnd) role_id g = r.dnd_count
get_metric_value r (some offline) role_id g = r.offline_count
get_metric_value r (some voice) role_id g = 0
get_metric_value r (some bots) role_id g = 0

-- What Discord does with a change of name: `channel` tells whether the guild's own client finds the
-- channel, `set_name` whether that client's call succeeds, `token` whether the bot's token is set,
-- `patch` is the status of the answer to the request, if one comes.
pub record Discord : Type 0 where
  pub channel : Bool
  pub set_name : Bool
  pub token : Bool
  pub patch : Option ℕ

-- A refusal with the status of its answer, where the error has one.
pub data Renaming : Type 0 where
  renamed : Renaming
  refused : Option ℕ → Renaming

-- `setChannelName`
unfoldable pub set_channel_name : Discord → Renaming
set_channel_name d =
    if d.channel
    then (if d.set_name then renamed else refused none)
    else if not d.token
    then refused none
    else (elim d.patch [
      | none ↦ refused none
      | some status ↦ if status =? 200 then renamed else refused (some status)
    ])

abbrev pub is_rate_limited : Option ℕ → Bool
is_rate_limited none = false
is_rate_limited (some status) = status =? 429

-- A name that Discord has taken, at a time in seconds.
pub record Rename : Type 0 where
  pub channel : String
  pub name : Units
  pub at : ℕ

-- The clock of one job: seconds at the check, at the change of name and at its record, and the
-- milliseconds of `updatedAt`.
pub record Clock : Type 0 where
  pub checked : ℕ
  pub renamed_at : ℕ
  pub recorded : ℕ
  pub saved : ℕ

-- The tables, Redis, and the changes of name that Discord has made, the last one first.
pub record World (orm : Orm) (redis : Redis) : Type 0 where
  pub db : CountersDb orm
  pub cache : redis.Store
  pub renames : List Rename

pub data JobResult : Type 0 where
  done failed : JobResult

-- Whether a time lies in the window that ends now.
abbrev pub is_recent : ℕ → ℕ → Bool
is_recent now t = ltb now (t + rate_limit_window_sec)

module _ (orm : Orm) (redis : Redis) where
  unfoldable pub check_rate_limit : String → ℕ → redis.Store → Bool
  check_rate_limit key now s =
      ltb (length (keep_if (is_recent now) (redis.lrange key s))) rate_limit_max_updates

  unfoldable pub record_rate_limit : String → ℕ → redis.Store → redis.Store
  record_rate_limit key now s = redis.ltrim key rate_limit_max_updates (redis.lpush key now s)

  abbrev pub rate_limit_key : String → String → String
  rate_limit_key prefix channel = append prefix (append "bot-service:ratelimit:channel:" channel)

  abbrev pub save_status : CounterStatus → ℕ → Counter → World orm redis → World orm redis
  save_status status now c w = record w {
    db = save_counter orm (record c { status = status; updated_at = now }) w.db;
  }

  -- `prefix` is Redis's; `number` and `date` print a number and the date of the job.
  module _ (prefix : String) (number : ℕ → Units)
      (date : Option String → Option String → Units) where
    -- The name that a counter's channel gets.
    abbrev pub counter_name : Counter → ℕ → Units
    counter_name c value =
        format_counter_channel_name c.template (number value) (date c.timezone c.date_format)

    -- The part of `processJob` after the check of the rate limit.
    unfoldable pub rename_channel :
        Renaming → String → Counter → ℕ → Clock → World orm redis → JobResult × World orm redis
    rename_channel renamed channel c value clock w = (
      done,
      save_status active clock.saved (record c { current_value = some value })
          (record w {
            cache = record_rate_limit (rate_limit_key prefix channel) clock.recorded w.cache;
            renames =
                record { channel = channel; name = counter_name c value; at = clock.renamed_at }
                ∷ w.renames;
          }),
    )
    rename_channel (refused status) channel c value clock w =
        if is_rate_limited status then (failed, w) else (failed, save_status error clock.saved c w)

    -- `processJob`
    unfoldable pub process_job :
        CounterJob → Readings → Discord → Clock → World orm redis → JobResult × World orm redis
    process_job (delete_job counter guild channel) readings discord clock w = (done, w)
    process_job (update_job counter guild channel type metric role_id) readings discord clock w =
        elim (orm.find_one counter_id (λ c. c.id == counter) w.db.counters) [
          | none ↦ (done, w)
          | some c ↦ elim (orm.find_one guild_key (λ g. g.id == guild) w.db.guilds) [
            | none ↦ (done, w)
            | some g ↦
                if is_empty g.discord_guild_id
                then (done, w)
                else if not (check_rate_limit (rate_limit_key prefix channel) clock.checked w.cache)
                then (done, w)
                else rename_channel (set_channel_name discord) channel c
                    (get_metric_value readings c.metric c.role_id g) clock w
          ]
        ]
