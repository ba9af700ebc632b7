-- ===== src/Ingestor/Minutes.antt =====
-- ingestor-queue.consumer.ts and voice-session.service.ts: the two events of a voice session.
use discord_bot_backend.Prelude.{
  ℕ, String, Bool, true, false, ◌≡◌, refl, ap, ◌∙◌, none, some, ◌==◌, inl, inr, Bool-cases, eq_iff,
  eq_refl, arith,
}
use discord_bot_backend.Redis.{Redis}
use discord_bot_backend.Ingestor.{Json, Payload, field, RawEventDto, RawEvent, Enrichment}
use discord_bot_backend.Ingestor.Buffer.{Config, push_event}
use discord_bot_backend.Ingestor.Validator.{validate_payload, payload_of}
use discord_bot_backend.Ingestor.Voice.{voice_join_key, voice_minutes, record_join, record_leave}
use discord_bot_backend.Ingestor.Consumer.{
  process_job, Worker, done, is_voice_event, voice_user, voice_channel, is_join,
  to_raw_event_for_voice, with_field,
}

voice-valid : (d : RawEventDto) → is_voice_event d ≡ true → validate_payload d ≡ true
unfolding is_voice_event validate_payload
voice-valid d h = elim (Bool-cases (d.event_type == "VOICE_STATE_UPDATE")) [
  | inl e ↦ rw ((eq_iff d.event_type "VOICE_STATE_UPDATE").0 e) refl
  | inr e ↦
      let v : (d.event_type == "voice_change") ≡ true = ground (arith, h, e) in
      rw ((eq_iff d.event_type "voice_change").0 v) refl
]

with_field-field : (key : String) (v : Json) (p : Payload) → field key (with_field key v p) ≡ some v
unfolding field
with_field-field key v p = rw (eq_refl key) refl

module _ (redis : Redis) (config : Config) (number : ℕ → Json)
    (dto_errors : RawEventDto → Bool) where
  -- A valid voice event with a channel only starts a session: it pushes nothing.
  pub process_job-join :
      (d : RawEventDto) (user : String) (enrichment : Enrichment) (now : ℕ) (w : Worker redis)
      → dto_errors d ≡ false
      → is_voice_event d ≡ true
      → voice_user d ≡ some user
      → is_join (voice_channel d) ≡ true
      → process_job redis config number dto_errors d enrichment now w
        ≡ (done, record w { sessions = record_join redis d.guild_id user now w.sessions })
  unfolding process_job
  process_job-join d user enrichment now w e voice u join =
      simp (e, voice-valid d voice, voice, u, join)

  abbrev pub leave_event : RawEventDto → Enrichment → ℕ → RawEvent
  leave_event d enrichment minutes =
      to_raw_event_for_voice d (with_field "voiceMinutes" (number minutes) (payload_of d.payload))
        enrichment

  process_job-leave :
      (d : RawEventDto) (user : String) (enrichment : Enrichment) (join now : ℕ) (w : Worker redis)
      → dto_errors d ≡ false
      → is_voice_event d ≡ true
      → voice_user d ≡ some user
      → is_join (voice_channel d) ≡ false
      → redis.get (voice_join_key d.guild_id user) w.sessions ≡ some join
      → process_job redis config number dto_errors d enrichment now w ≡ (
        done,
        record {
          sessions = redis.del (voice_join_key d.guild_id user) w.sessions;
          ingestor =
              push_event config now (leave_event d enrichment (voice_minutes join now)) w.ingestor;
        },
      )
  unfolding process_job record_leave
  process_job-leave d user enrichment join now w e voice u leave started =
      simp (e, voice-valid d voice, voice, u, leave, started)

  -- Two voice events of one guild and user that pass validation, the first with a channel and the
  -- second without, whatever other jobs the worker has done between as long as the stored time of
  -- joining is untouched: the first pushes nothing; the second pushes one event of type
  -- VOICE_STATE_UPDATE, whose payload has the minutes between the two, rounded up from whole
  -- seconds, and it ends the session.
  pub process_job-session :
      (a b : RawEventDto) (user : String) (enrichment : Enrichment) (joined left : ℕ)
      (w w2 : Worker redis)
      → dto_errors a ≡ false
      → dto_errors b ≡ false
      → is_voice_event a ≡ true
      → is_voice_event b ≡ true
      → voice_user a ≡ some user
      → voice_user b ≡ some user
      → b.guild_id ≡ a.guild_id
      → is_join (voice_channel a) ≡ true
      → is_join (voice_channel b) ≡ false
      → let job = process_job redis config number dto_errors in
        let key = voice_join_key a.guild_id user in
        let w1 = (job a enrichment joined w).1 in
        redis.get key w2.sessions ≡ redis.get key w1.sessions
        → let job = process_job redis config number dto_errors in
          let w3 = (job b enrichment left w2).1 in
          let event = leave_event b enrichment (voice_minutes joined left) in
          ((job a enrichment joined w).1.ingestor ≡ w.ingestor)
          × (w3.ingestor ≡ push_event config left event w2.ingestor)
          × (event.event_type ≡ "VOICE_STATE_UPDATE")
          × (field "voiceMinutes" event.payload ≡ some (number (voice_minutes joined left)))
          × (redis.get (voice_join_key a.guild_id user) w3.sessions ≡ none)
  unfolding record_join to_raw_event_for_voice
  process_job-session a b user enrichment joined left w w2 ea eb va vb ua ub same join leave kept =
      let key = voice_join_key a.guild_id user in
      let first = process_job-join a user enrichment joined w ea va ua join in
      let started : redis.get (voice_join_key b.guild_id user) w2.sessions ≡ some joined =
        ap (λ g. redis.get (voice_join_key g user) w2.sessions) same
        ∙ kept
        ∙ ap (λ r. redis.get key r.1.sessions) first
        ∙ redis.get-set key key joined w.sessions
        ∙ rw (eq_refl key) refl in
      let second = process_job-leave b user enrichment joined left w2 eb vb ub leave started in
      (
        ap (λ r. r.1.ingestor) first,
        ap (λ r. r.1.ingestor) second,
        refl,
        with_field-field "voiceMinutes" (number (voice_minutes joined left)) (payload_of b.payload),
        ap (λ r. redis.get key r.1.sessions) second
            ∙ ap (λ g. redis.get key (redis.del (voice_join_key g user) w2.sessions)) same
            ∙ redis.get-del key key w2.sessions
            ∙ rw (eq_refl key) refl,
      )
