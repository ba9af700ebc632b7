-- ===== src/Ingestor/Voice.antt =====
-- voice-session.service.ts: the time at which a user joined a voice channel.
use Prim.Native.String.{◌++◌ as append}
use discord_bot_backend.Prelude.{ℕ, ◌+◌, ◌-◌, ◌/◌, String, Option, none, some}
use discord_bot_backend.Redis.{Redis}

unfoldable pub voice_join_key : String → String → String
voice_join_key guild user = append "ingestor:voice:join:" (append guild (append ":" user))

-- `Math.max(0, Math.floor((leave - join) / 1000))`, and `Math.ceil` of its sixtieth.
abbrev pub duration_seconds : ℕ → ℕ → ℕ
duration_seconds join leave = (leave - join) / 1000

abbrev pub voice_minutes : ℕ → ℕ → ℕ
voice_minutes join leave = (duration_seconds join leave + 59) / 60

module _ (redis : Redis) where
  unfoldable pub record_join : String → String → ℕ → redis.Store → redis.Store
  record_join guild user now s = redis.set (voice_join_key guild user) now s

  -- The minutes of the session that ends, if one had begun, and the store without it.
  unfoldable pub record_leave : String → String → ℕ → redis.Store → Option ℕ × redis.Store
  record_leave guild user now s =
      let key = voice_join_key guild user in
      (
        elim (redis.get key s) [ none ↦ none | some join ↦ some (voice_minutes join now) ],
        redis.del key s,
      )
