-- ===== src/Ingestor/Producer.antt =====
-- apps/bot-service/src/shard/shard-event-handlers.ts: the job that a change of voice state enqueues,
-- and what the worker makes of it.
use discord_bot_backend.Prelude.{
  ℕ, String, Bool, true, false, ◌≡◌, refl, sym, ◌∙◌, Option, none, some, is_empty, trim, [], ◌∷◌,
  ◌++◌,
}
use mathlib.Core.Path.{subst}
use mathlib.Core.Option.{some-injective}
use discord_bot_backend.Redis.{Redis}
use discord_bot_backend.Ingestor.{Json, text, Payload, RawEventDto, Enrichment}
use discord_bot_backend.Ingestor.Buffer.{Config}
use discord_bot_backend.Ingestor.Voice.{record_join}
use discord_bot_backend.Ingestor.Consumer.{
  process_job, Worker, done, is_voice_event, voice_user, voice_channel, is_join, first_text,
  true_text,
}
use discord_bot_backend.Ingestor.Minutes.{process_job-join}

pub record Channel : Type 0 where
  pub id : Option String
  pub name : Option String

pub record Member : Type 0 where
  pub id : String
  pub tag : Option String
  pub avatar : Option String

-- `VoiceStateLike`; `channel` is what the cache knows of the channel.
pub record VoiceState : Type 0 where
  pub guild_id : String
  pub channel_id : Option String
  pub channel : Option Channel
  pub member : Option Member

-- `a ?? b`
abbrev pub first_of : {A : Type 0} → Option A → Option A → Option A
first_of none b = b
first_of (some a) b = some a

abbrev pub and_then : {A B : Type 0} → (A → Option B) → Option A → Option B
and_then f none = none
and_then f (some a) = f a

abbrev pub member_id : Member → Option String
member_id m = some m.id

unfoldable pub voice_channel_id : VoiceState → VoiceState → Option String
voice_channel_id old new =
    first_text (and_then (λ (c : Channel). c.id) (first_of new.channel old.channel))
      (first_text new.channel_id old.channel_id)

unfoldable pub voice_discord_user_id : VoiceState → VoiceState → Option String
voice_discord_user_id old new = and_then member_id (first_of new.member old.member)

-- A key of an object literal, which JSON leaves out when its value is undefined.
abbrev pub entry : String → Option String → Payload
entry key none = []
entry key (some v) = (key, text v) ∷ []

-- The payload of `voice_change`, as the queue stores it.
unfoldable pub voice_payload : VoiceState → VoiceState → String → Payload
unfolding voice_discord_user_id voice_channel_id
voice_payload old new timestamp =
    let member = first_of new.member old.member in
    entry "userId" (voice_discord_user_id old new)
    ++ (entry "userTag" (and_then (λ (m : Member). m.tag) member)
        ++ (entry "avatar" (and_then (λ (m : Member). m.avatar) member)
            ++ (entry "voiceChannelName"
                  (and_then (λ (c : Channel). c.name) (first_of new.channel old.channel))
                ++ (entry "channelId" (voice_channel_id old new)
                    ++ entry "timestamp" (some timestamp)))))

abbrev pub voice_job : VoiceState → VoiceState → String → String → ℕ → String → RawEventDto
voice_job old new guild event_id now timestamp = record {
  event_id = event_id;
  event_type = "voice_change";
  event_time = now;
  guild_id = guild;
  discord_guild_id = old.guild_id;
  user_id = none;
  discord_user_id = voice_discord_user_id old new;
  channel_id = voice_channel_id old new;
  plan_tier = none;
  payload = some (voice_payload old new timestamp);
  role_id = none;
  command_name = none;
  is_bot_generated = none;
}

-- The job that `onVoiceStateUpdate` enqueues through `sendLogAndIngest`; a guild that the database
-- does not know gets none. `event_id` is random; the clock gives the time and its text.
unfoldable pub on_voice_state_update :
    (String → Option String) → VoiceState → VoiceState → String → ℕ → String → Option RawEventDto
on_voice_state_update get_guild_id old new event_id now timestamp =
    and_then (λ guild. some (voice_job old new guild event_id now timestamp))
      (get_guild_id old.guild_id)

is_empty-trim : (s : String) → is_empty (trim s) ≡ false → is_empty s ≡ false
unfolding trim
is_empty-trim String.[] h = h
is_empty-trim (String.◌∷◌ c s) h = refl

is_join-text : (s : String) → is_empty (trim s) ≡ false → is_join (some (text s)) ≡ true
unfolding is_join true_text
is_join-text s h = rw (is_empty-trim s h, is_join, true_text) (rw (h) refl)

module _ (redis : Redis) (config : Config) (number : ℕ → Json)
    (dto_errors : RawEventDto → Bool) where
  -- A user leaves the channel `left`, which the new state no longer has: the job that the bot
  -- enqueues for it is taken as a join by the worker, which overwrites the stored time of joining
  -- and pushes nothing, so that the minutes of the session are not recorded; given that the database
  -- knows the guild, the bot's cache knows the channel, the job passes validation, and the ids of
  -- user and channel are not blank.
  pub on_voice_state_update-loses :
      (get_guild_id : String → Option String) (old new : VoiceState)
      (guild user left event_id timestamp : String) (name : Option String) (d : RawEventDto)
      (enrichment : Enrichment) (sent now : ℕ) (w : Worker redis)
      → get_guild_id old.guild_id ≡ some guild
      → voice_discord_user_id old new ≡ some user
      → old.channel_id ≡ some left
      → old.channel ≡ some (record { id = some left; name = name })
      → new.channel_id ≡ none
      → new.channel ≡ none
      → is_empty user ≡ false
      → is_empty (trim left) ≡ false
      → on_voice_state_update get_guild_id old new event_id sent timestamp ≡ some d
      → dto_errors d ≡ false
      → process_job redis config number dto_errors d enrichment now w
        ≡ (done, record w { sessions = record_join redis guild user now w.sessions })
  unfolding on_voice_state_update voice_channel_id is_voice_event voice_user voice_channel true_text
  on_voice_state_update-loses get_guild_id old new guild user left event_id timestamp name d
        enrichment sent now w known who from cache gone uncached named here sends valid =
      let c : voice_channel_id old new ≡ some left = simp (from, cache, gone, uncached) in
      let job = voice_job old new guild event_id sent timestamp in
      let found : on_voice_state_update get_guild_id old new event_id sent timestamp ≡ some job =
        rw known refl in
      let sent_job : job ≡ d = some-injective job d (sym found ∙ sends) in
      subst
        (λ x.
          dto_errors x ≡ false
          → process_job redis config number dto_errors x enrichment now w
            ≡ (done, record w { sessions = record_join redis guild user now w.sessions }))
        sent_job
        (λ v.
          process_job-join redis config number dto_errors job user enrichment now w v refl
            (rw (who, named) refl) (rw c (is_join-text left here)))
        valid
