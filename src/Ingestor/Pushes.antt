-- ===== src/Ingestor/Pushes.antt =====
-- ingestor-queue.consumer.ts: which jobs push an event.
use discord_bot_backend.Prelude.{
  ℕ, Bool, true, false, ◌≡◌, refl, ◌&&◌, not, ◌⊎◌, inl, inr, Bool-cases, Option-cases, is_some,
}
use discord_bot_backend.Redis.{Redis}
use discord_bot_backend.Ingestor.{Json, Payload, RawEventDto, RawEvent, Enrichment}
use discord_bot_backend.Ingestor.Buffer.{Config, push_event}
use discord_bot_backend.Ingestor.Validator.{validate_payload, payload_of}
use discord_bot_backend.Ingestor.Voice.{record_leave}
use discord_bot_backend.Ingestor.Consumer.{
  process_job, Worker, is_voice_event, voice_user, voice_channel, is_join, to_raw_event,
  to_raw_event_for_voice, with_field, minutes,
}

-- The event is the job's.
pub record IsEventOf (d : RawEventDto) (enrichment : Enrichment) (e : RawEvent) : Type 0 where
  pub same_id : e.event_id ≡ d.event_id
  pub same_time : e.event_time ≡ d.event_time
  pub same_guild : e.guild_id ≡ d.guild_id
  pub same_user : e.discord_user_id ≡ d.discord_user_id
  pub same_anonymity : e.anonymize_user_data ≡ enrichment.anonymize_user_data

to_raw_event-IsEventOf :
    (d : RawEventDto) (p : Payload) (enrichment : Enrichment)
    → IsEventOf d enrichment (to_raw_event d p enrichment)
unfolding to_raw_event
to_raw_event-IsEventOf d p enrichment = record {
  same_id = refl;
  same_time = refl;
  same_guild = refl;
  same_user = refl;
  same_anonymity = refl;
}

to_raw_event_for_voice-IsEventOf :
    (d : RawEventDto) (p : Payload) (enrichment : Enrichment)
    → IsEventOf d enrichment (to_raw_event_for_voice d p enrichment)
unfolding to_raw_event_for_voice to_raw_event
to_raw_event_for_voice-IsEventOf d p enrichment = record {
  same_id = refl;
  same_time = refl;
  same_guild = refl;
  same_user = refl;
  same_anonymity = refl;
}

module _ (redis : Redis) (config : Config) (number : ℕ → Json)
    (dto_errors : RawEventDto → Bool) where
  -- A job that passes both validations and does not start a voice session.
  abbrev pub is_pushed : RawEventDto → Bool
  is_pushed d =
      not (dto_errors d)
      && (validate_payload d
          && not (is_voice_event d && (is_some (voice_user d) && is_join (voice_channel d))))

  abbrev pub Pushes : RawEventDto → Enrichment → ℕ → Worker redis → Worker redis → Type 0
  Pushes d enrichment now w w' =
      ((is_pushed d ≡ false) × (w'.ingestor ≡ w.ingestor))
      ⊎ ((is_pushed d ≡ true)
          × ((e : RawEvent) × IsEventOf d enrichment e
              × (w'.ingestor ≡ push_event config now e w.ingestor)))

  -- A job pushes one event if it passes both validations and does not start a voice session, and none
  -- otherwise: the event has the id, the time, the guild and the user of the job, and the guild's
  -- choice about anonymity.
  pub process_job-Pushes :
      (d : RawEventDto) (enrichment : Enrichment) (now : ℕ) (w : Worker redis)
      → Pushes d enrichment now w (process_job redis config number dto_errors d enrichment now w).1
  unfolding process_job to_raw_event to_raw_event_for_voice
  process_job-Pushes d enrichment now w =
      let voiced = λ (p : Payload). to_raw_event_for_voice-IsEventOf d p enrichment in
      let plain = to_raw_event d (payload_of d.payload) enrichment in
      elim (Bool-cases (dto_errors d)) [
        | inl e ↦ inl (rw e refl, rw e refl)
        | inr e ↦ elim (Bool-cases (validate_payload d)) [
          | inr f ↦ inl (rw (e, f) refl, rw (e, f) refl)
          | inl f ↦ elim (Bool-cases (is_voice_event d)) [
            | inr g ↦ inr (
              rw (e, f, g) refl,
              (
                plain,
                to_raw_event-IsEventOf d (payload_of d.payload) enrichment,
                rw (e, f, g) refl,
              ),
            )
            | inl g ↦ elim (Option-cases (voice_user d)) [
              | inl h ↦ elim (Bool-cases (is_join (voice_channel d))) [
                | inl i ↦ inr (
                  rw (e, f, g, h) refl,
                  (
                    plain,
                    to_raw_event-IsEventOf d (payload_of d.payload) enrichment,
                    rw (e, f, g, h, i) refl,
                  ),
                )
                | inr i ↦ inr (
                  rw (e, f, g, h) refl,
                  (
                    to_raw_event_for_voice d (payload_of d.payload) enrichment,
                    voiced _,
                    rw (e, f, g, h, i) refl,
                  ),
                )
              ]
              | inr (u, h) ↦ elim (Bool-cases (is_join (voice_channel d))) [
                | inl i ↦ inl (rw (e, f, g, h, i) refl, rw (e, f, g, h, i) refl)
                | inr i ↦ inr (
                  rw (e, f, g, h, i) refl,
                  (
                    _,
                    voiced (
                        with_field "voiceMinutes"
                          (number (
                            minutes redis config number dto_errors
                              (record_leave redis d.guild_id u now w.sessions).0))
                          (payload_of d.payload)),
                    rw (e, f, g, h, i) refl,
                  ),
                )
              ]
            ]
          ]
        ]
      ]
