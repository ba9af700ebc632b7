-- ===== src/Ingestor/Consumer.antt =====
-- ingestor-queue.consumer.ts: one job of the queue of raw events.
use discord_bot_backend.Prelude.{
  ℕ, String, Bool, false, Option, none, some, ◌==◌, ◌||◌, not, is_empty, trim, if◌then◌else◌, ◌∷◌,
  or_else, keep_if,
}
use discord_bot_backend.Redis.{Redis}
use discord_bot_backend.Ingestor.{
  Json, null, text, falsy, truthy, Payload, field, RawEventDto, RawEvent, Enrichment,
}
use discord_bot_backend.Ingestor.Buffer.{Config, Ingestor, push_event}
use discord_bot_backend.Ingestor.Validator.{validate_payload, payload_of}
use discord_bot_backend.Ingestor.Voice.{record_join, record_leave}

-- `a ?? b`, where null and undefined are one.
abbrev pub or_value : Option Json → Option Json → Option Json
or_value none b = b
or_value (some null) b = b
or_value (some v) b = some v

abbrev pub as_text : Option String → Option Json
as_text none = none
as_text (some s) = some (text s)

-- The text of a value that a test of its truth lets through.
unfoldable pub true_text : Option Json → Option String
true_text (some (text s)) = if is_empty s then none else some s
true_text (some (truthy s)) = some s
true_text _ = none

-- `Boolean(channelId && String(channelId).trim())`
unfoldable pub is_join : Option Json → Bool
unfolding trim true_text
is_join v = elim (true_text v) [ none ↦ false | some s ↦ not (is_empty (trim s)) ]

-- An own property of a payload is written last and read first.
abbrev pub with_field : String → Json → Payload → Payload
with_field key v p = (key, v) ∷ keep_if (λ f. not (f.0 == key)) p

-- A value of a payload as the text that the source casts it to.
abbrev pub text_of : Option Json → Option String
text_of (some (text s)) = some s
text_of (some (truthy s)) = some s
text_of (some (falsy s)) = some s
text_of _ = none

abbrev pub first_text : Option String → Option String → Option String
first_text none b = b
first_text (some a) b = some a

-- `toRawEvent`
unfoldable pub to_raw_event : RawEventDto → Payload → Enrichment → RawEvent
unfolding field
to_raw_event d p enrichment = record {
  event_id = d.event_id;
  event_time = d.event_time;
  event_type = d.event_type;
  guild_id = d.guild_id;
  discord_guild_id = d.discord_guild_id;
  user_id = d.user_id;
  discord_user_id = d.discord_user_id;
  channel_id =
      first_text d.channel_id
        (if d.event_type == "MESSAGE_CREATE" then text_of (field "channelId" p) else none);
  role_id = d.role_id;
  command_name = d.command_name;
  plan_tier = or_else d.plan_tier enrichment.plan_tier;
  is_bot_generated = or_else d.is_bot_generated false;
  payload = p;
  is_historical = false;
  anonymize_user_data = enrichment.anonymize_user_data;
}

-- `toRawEventForVoice`
unfoldable pub to_raw_event_for_voice : RawEventDto → Payload → Enrichment → RawEvent
unfolding field to_raw_event
to_raw_event_for_voice d p enrichment = record (to_raw_event d p enrichment) {
  event_type = "VOICE_STATE_UPDATE";
  channel_id = first_text d.channel_id (text_of (field "channelId" p));
}

pub record Worker (redis : Redis) : Type 0 where
  pub sessions : redis.Store
  pub ingestor : Ingestor

pub data JobResult : Type 0 where
  done failed : JobResult

unfoldable pub is_voice_event : RawEventDto → Bool
is_voice_event d = d.event_type == "VOICE_STATE_UPDATE" || d.event_type == "voice_change"

unfoldable pub voice_user : RawEventDto → Option String
unfolding true_text field
voice_user d = true_text (
    or_value (as_text d.discord_user_id)
      (or_value (as_text d.user_id) (field "userId" (payload_of d.payload))))

unfoldable pub voice_channel : RawEventDto → Option Json
unfolding field
voice_channel d = or_value (as_text d.channel_id) (field "channelId" (payload_of d.payload))

-- `number` is the decimal text of a number; `dto_errors` is what class-validator finds.
module _ (redis : Redis) (config : Config) (number : ℕ → Json)
    (dto_errors : RawEventDto → Bool) where
  abbrev pub push : ℕ → RawEvent → Worker redis → Worker redis
  push now e w = record w { ingestor = push_event config now e w.ingestor }

  abbrev pub minutes : Option ℕ → ℕ
  minutes none = 0
  minutes (some n) = n

  abbrev pub voice_leave :
      RawEventDto → Enrichment → ℕ → ℕ → Option ℕ × redis.Store → Worker redis → Worker redis
  voice_leave d enrichment left now (leave, sessions) w =
      push now
        (to_raw_event_for_voice d
          (with_field "voiceMinutes" (number (minutes leave)) (payload_of d.payload)) enrichment)
        (record w { sessions = sessions })

  -- `now` is the clock at a join, at a leave and at a push.
  unfoldable pub process_job :
      RawEventDto → Enrichment → ℕ → Worker redis → JobResult × Worker redis
  unfolding is_voice_event
  process_job d enrichment now w =
      if dto_errors d
      then (failed, w)
      else if not (validate_payload d)
      then (done, w)
      else if is_voice_event d
      then (elim (voice_user d) [
        | some user ↦
            if is_join (voice_channel d)
            then (done, record w { sessions = record_join redis d.guild_id user now w.sessions })
            else (
              done,
              voice_leave d enrichment now now (record_leave redis d.guild_id user now w.sessions)
                  w,
            )
        | none ↦
            if is_join (voice_channel d)
            then (done, push now (to_raw_event d (payload_of d.payload) enrichment) w)
            else (done, push now (to_raw_event_for_voice d (payload_of d.payload) enrichment) w)
      ])
      else (done, push now (to_raw_event d (payload_of d.payload) enrichment) w)
