-- ===== src/Counters/RateLimit.antt =====
-- counters-consumer.service.ts: the rate limit over a sequence of jobs.
use discord_bot_backend.Prelude.{
  ℕ, ◌+◌, ◌≤◌, String, true, Option, ◌≡◌, refl, ap, sym, ◌∙◌, ◌==◌, inl, inr, Bool-cases,
  if◌then◌else◌, List, [], ◌∷◌, take, keep_if, length, ltb, arith, eq_refl, eq_iff,
}
use discord_bot_backend.Orm.{Orm}
use discord_bot_backend.Redis.{Redis}
use discord_bot_backend.Counters.{Units, Counter, CounterJob, update_job, delete_job}
use discord_bot_backend.Counters.Consumer.{
  World, Rename, process_job, rename_channel, Readings, Discord, Clock, Renaming, renamed, refused,
  is_rate_limited, set_channel_name, get_metric_value, check_rate_limit, record_rate_limit,
  rate_limit_key, rate_limit_window_sec, is_recent,
}
use discord_bot_backend.Counters.Jobs.{process_job-cases, process_job-Attempt}

-- A job with what it reads.
pub record Turn : Type 0 where
  pub job : CounterJob
  pub readings : Readings
  pub discord : Discord
  pub clock : Clock

-- The worker takes one turn after the other, and its clock never goes back.
abbrev pub IsOrdered : ℕ → List Turn → Type 0
IsOrdered now [] = Unit
IsOrdered now (t ∷ turns) =
    (now ≤ t.clock.checked)
    × (t.clock.checked ≤ t.clock.renamed_at)
    × (t.clock.renamed_at ≤ t.clock.recorded)
    × IsOrdered t.clock.recorded turns

-- Of any three changes of name in a row, the last comes a whole window after the first.
abbrev pub IsSpaced : List ℕ → Type 0
IsSpaced [] = Unit
IsSpaced (t ∷ []) = Unit
IsSpaced (t ∷ s ∷ []) = Unit
IsSpaced (t ∷ s ∷ r ∷ times) = (r + rate_limit_window_sec ≤ t) × IsSpaced (s ∷ r ∷ times)

-- The list in Redis has a record for each of the last two changes of name, made before `now`, and no
-- record is earlier than its change.
data Covers (now : ℕ) : List ℕ → List ℕ → Type 0 where
  never : Covers now [] []
  once : {a t : ℕ} → t ≤ a → a ≤ now → Covers now (a ∷ []) (t ∷ [])
  twice :
      {a b t s : ℕ} {ts : List ℕ}
      → t ≤ a
      → s ≤ b
      → b ≤ a
      → a ≤ now
      → Covers now (a ∷ b ∷ []) (t ∷ s ∷ ts)

later-Covers :
    {now later : ℕ} {records ts : List ℕ}
    → now ≤ later
    → Covers now records ts
    → Covers later records ts
later-Covers h never = never
later-Covers h (once a b) = once a (omega arith)
later-Covers h (twice a b c d) = twice a b c (omega arith)

-- One more change of name, at `at`, with its record.
extended-Covers :
    {now at recorded : ℕ} {records ts : List ℕ}
    → now ≤ at
    → at ≤ recorded
    → Covers now records ts
    → Covers recorded (take 2 (recorded ∷ records)) (at ∷ ts)
extended-Covers h i never = once i (omega arith)
extended-Covers h i (once a b) = twice i a (omega arith) (omega arith)
extended-Covers h i (twice a b c d) = twice i a (omega arith) (omega arith)

extended-IsSpaced :
    {now checked at : ℕ} {records ts : List ℕ}
    → checked ≤ at
    → ltb (length (keep_if (is_recent checked) records)) 2 ≡ true
    → Covers now records ts
    → IsSpaced ts
    → IsSpaced (at ∷ ts)
extended-IsSpaced h p never s = tt
extended-IsSpaced h p (once a b) s = tt
extended-IsSpaced h p (twice a b c d) s = (ground arith, s)

module _ (orm : Orm) (redis : Redis) (prefix : String) (number : ℕ → Units)
    (date : Option String → Option String → Units) where
  abbrev pub key_of : String → String
  key_of channel = rate_limit_key orm redis prefix channel

  -- When channels with a key were renamed, the last time first.
  abbrev pub times : String → List Rename → List ℕ
  times key [] = []
  times key (r ∷ renames) =
      if key_of r.channel == key then r.at ∷ times key renames else times key renames

  unfoldable pub work : List Turn → World orm redis → World orm redis
  work [] w = w
  work (t ∷ turns) w =
      work turns (process_job orm redis prefix number date t.job t.readings t.discord t.clock w).1

  module _ (key : String) where
    record Limited (now : ℕ) (w : World orm redis) : Type 0 where
      covers : Covers now (redis.lrange key w.cache) (times key w.renames)
      spaced : IsSpaced (times key w.renames)

    later-Limited :
        {now later : ℕ} (w : World orm redis) → now ≤ later → Limited now w → Limited later w
    later-Limited w h l = record { covers = later-Covers h l.covers; spaced = l.spaced }

    record_rate_limit_lem :
        (channel : String) (now : ℕ) (s : redis.Store)
        → redis.lrange key (record_rate_limit orm redis (key_of channel) now s) ≡ (
            if key_of channel == key then take 2 (now ∷ redis.lrange key s) else redis.lrange key s)
    unfolding record_rate_limit
    record_rate_limit_lem channel now s =
        let k = key_of channel in
        redis.lrange-ltrim k key 2 (redis.lpush k now s) ∙ (elim (Bool-cases (k == key)) [
          | inl same ↦
              let pushed : redis.lrange k (redis.lpush k now s) ≡ now ∷ redis.lrange key s =
                redis.lrange-lpush k k now s
                ∙ rw (eq_refl k) (ap (λ j. now ∷ redis.lrange j s) ((eq_iff k key).0 same)) in
              rw same (ap (take 2) pushed)
          | inr other ↦ rw other (redis.lrange-lpush k key now s ∙ rw other refl)
        ])

    rename_channel-Limited :
        (now : ℕ) (r : Renaming) (channel : String) (c : Counter) (value : ℕ) (clock : Clock)
        (w : World orm redis)
        → now ≤ clock.checked
        → clock.checked ≤ clock.renamed_at
        → clock.renamed_at ≤ clock.recorded
        → check_rate_limit orm redis (key_of channel) clock.checked w.cache ≡ true
        → Limited now w
        → Limited clock.recorded
            (rename_channel orm redis prefix number date r channel c value clock w).1
    unfolding rename_channel check_rate_limit
    rename_channel-Limited now renamed channel c value clock w h i j free l =
        elim (Bool-cases (key_of channel == key)) [
          | inl same ↦
              let seen =
                sym (
                  ap
                    (λ k.
                      ltb (length (keep_if (is_recent clock.checked) (redis.lrange k w.cache))) 2)
                    ((eq_iff (key_of channel) key).0 same))
                ∙ free in
              record {
                covers =
                    rw (record_rate_limit_lem channel clock.recorded w.cache)
                      (rw same (extended-Covers (omega arith) j l.covers));
                spaced = rw same (extended-IsSpaced i seen l.covers l.spaced);
              }
          | inr other ↦ record {
            covers =
                rw (record_rate_limit_lem channel clock.recorded w.cache)
                  (rw other (later-Covers (omega arith) l.covers));
            spaced = rw other l.spaced;
          }
        ]
    rename_channel-Limited now (refused status) channel c value clock w h i j free l =
        elim (Bool-cases (is_rate_limited status)) [
          | inl e ↦ rw e (later-Limited w (omega arith) l)
          | inr e ↦
              rw e (record { covers = later-Covers (omega arith) l.covers; spaced = l.spaced })
        ]

    process_job-Limited :
        (now : ℕ) (t : Turn) (w : World orm redis)
        → now ≤ t.clock.checked
        → t.clock.checked ≤ t.clock.renamed_at
        → t.clock.renamed_at ≤ t.clock.recorded
        → Limited now w
        → Limited t.clock.recorded
            (process_job orm redis prefix number date t.job t.readings t.discord t.clock w).1
    unfolding process_job
    process_job-Limited now t w h i j l = go t.job
      where
        go :
            (job : CounterJob)
            → Limited t.clock.recorded
                (process_job orm redis prefix number date job t.readings t.discord t.clock w).1
        go (delete_job id guild channel) = later-Limited w (omega arith) l
        go (update_job id guild channel type metric role_id) =
            elim (process_job-cases orm redis prefix number date id guild channel type metric
              role_id t.readings t.discord t.clock w) [
                | inl e ↦ rw e (later-Limited w (omega arith) l)
                | inr a ↦
                    rw
                      (process_job-Attempt orm redis prefix number date id guild channel type metric
                        role_id t.readings t.discord t.clock w a)
                      (rename_channel-Limited now (set_channel_name t.discord) channel a.counter
                        (get_metric_value t.readings a.counter.metric a.counter.role_id a.server)
                        t.clock w h i j a.allowed l)
              ]

    work-Limited :
        (now : ℕ) (turns : List Turn) (w : World orm redis)
        → IsOrdered now turns
        → Limited now w
        → IsSpaced (times key (work turns w).renames)
    unfolding work
    work-Limited now [] w h l = l.spaced
    work-Limited now (t ∷ turns) w (checks, renames, records, rest) l =
        work-Limited t.clock.recorded turns _ rest
          (process_job-Limited now t w checks renames records l)

    -- Where no channel was renamed yet and Redis has no record for the key, the worker, taking any jobs
    -- one after the other on a clock that never goes back, renames channels with that key at most
    -- twice in any ten minutes: of three changes of name in a row, the last comes 600 seconds or more
    -- after the first.
    pub work-IsSpaced :
        (now : ℕ) (turns : List Turn) (w : World orm redis)
        → IsOrdered now turns
        → redis.lrange key w.cache ≡ []
        → w.renames ≡ []
        → IsSpaced (times key (work turns w).renames)
    work-IsSpaced now turns w h e f =
        work-Limited now turns w h (record { covers = rw (e, f) never; spaced = rw f tt })
