-- ===== src/Ingestor/Tests.antt =====
-- Runs of the worker, and its theorems at such runs.
use discord_bot_backend.Prelude.{
  ℕ, ◌+◌, ◌*◌, ◌⊎◌, String, Bool, true, false, Option, none, some, ◌≡◌, refl, ◌==◌, List, [], ◌∷◌,
  reverse, ◌++◌, All, trim,
}
use discord_bot_backend.Redis.{memory, blank}
use discord_bot_backend.Ingestor.{Json, truthy, field, RawEventDto, RawEvent, Enrichment}
use discord_bot_backend.Ingestor.Buffer.{
  Config, Flight, Ingestor, init, flush, push_event, on_timer, unshift_all, after_insert,
  given_back, acknowledged, settle, settle_from, on_settled, shut_down, Input, pushed, timer_fired,
  settled, step, run, pushes,
}
use discord_bot_backend.Ingestor.Accounting.{count, count_flights, run-accounts}
use discord_bot_backend.Ingestor.Retries.{IsTimely, run-IsTimely, on_settled-gives_up}
use discord_bot_backend.Ingestor.Validator.{validate_payload}
use discord_bot_backend.Ingestor.Voice.{voice_join_key, record_join, record_leave}
use discord_bot_backend.Ingestor.Consumer.{
  process_job, Worker, done, is_voice_event, voice_user, voice_channel, is_join, true_text,
  to_raw_event, to_raw_event_for_voice,
}
use discord_bot_backend.Ingestor.Minutes.{process_job-session, leave_event}
use discord_bot_backend.Ingestor.Pushes.{Pushes, process_job-Pushes}
use discord_bot_backend.Ingestor.Producer.{
  VoiceState, voice_channel_id, voice_discord_user_id, voice_payload, voice_job,
  on_voice_state_update, on_voice_state_update-loses,
}
use discord_bot_backend.PlanTiers.{
  get_retention_days_for_tier, plan_tier_limits, normalize_plan_tier, same_codes,
}
use discord_bot_backend.Ingestor.Row.{
  to_click_house_row, should_anonymize, compute_anonymized_hash, compute_retention_until,
}
use discord_bot_backend.PlanTiers.Spelling.{IsPremium}
use discord_bot_backend.Ingestor.Retention.{to_click_house_row-retention}

abbrev event : String → RawEvent
event id = record {
  event_id = id;
  event_time = 0;
  event_type = "MESSAGE_CREATE";
  guild_id = "g";
  discord_guild_id = "dg";
  user_id = none;
  discord_user_id = none;
  channel_id = some "c";
  role_id = none;
  command_name = none;
  plan_tier = "free";
  is_bot_generated = false;
  payload = [];
  is_historical = false;
  anonymize_user_data = false;
}

abbrev config : Config
config = record { batch_size = 2; batch_interval_ms = 5000 }

-- Two batches; the first is acknowledged after a failure, the second while one event waits.
abbrev inputs : List Input
inputs =
    pushed 1 (event "a")
    ∷ pushed 2 (event "b")
    ∷ settled false 0
    ∷ pushed 3 (event "a")
    ∷ timer_fired 5003
    ∷ settled true 0
    ∷ pushed 5004 (event "c")
    ∷ []

is_a : RawEvent → Bool
is_a e = e.event_id == "a"

ingestor : Unit {0}
unfolding init flush push_event on_timer unshift_all after_insert given_back acknowledged settle
    settle_from on_settled shut_down step run pushes field is_a
ingestor = tt

after_inputs : run config inputs (init 0) ≡ record {
  buffer = event "c" ∷ [];
  last_flush_at = 5003;
  timer = true;
  flights = record { batch = event "a" ∷ []; attempt = 1; delay = 1000 } ∷ [];
  stored = event "a" ∷ event "b" ∷ [];
}
unfolding ingestor
after_inputs = refl

run-accounts_example :
    let s = run config inputs (init 0) in
    count is_a s.stored + count_flights is_a s.flights + count is_a s.buffer
    ≡ count is_a (pushes inputs)
run-accounts_example = run-accounts is_a config 0 inputs

run-IsTimely_example : All IsTimely (run config inputs (init 0)).flights
run-IsTimely_example = run-IsTimely config 0 inputs

abbrev last_attempt : Flight
last_attempt = record { batch = event "a" ∷ event "b" ∷ []; attempt = 5; delay = 5062 }

abbrev waiting : Ingestor
waiting = record {
  buffer = event "c" ∷ [];
  last_flush_at = 9;
  timer = true;
  flights = last_attempt ∷ [];
  stored = [];
}

on_settled-gives_up_example : on_settled false 0 waiting ≡ record waiting {
  buffer = reverse (event "a" ∷ event "b" ∷ []) ++ event "c" ∷ [];
  flights = [];
}
on_settled-gives_up_example = on_settled-gives_up [] [] last_attempt waiting refl refl

-- The voice events of one user.
abbrev voice : Option String → RawEventDto
voice channel = record {
  event_id = "e";
  event_type = "VOICE_STATE_UPDATE";
  event_time = 0;
  guild_id = "g";
  discord_guild_id = "dg";
  user_id = none;
  discord_user_id = some "u";
  channel_id = channel;
  plan_tier = none;
  payload = none;
  role_id = none;
  command_name = none;
  is_bot_generated = none;
}

abbrev enrichment : Enrichment
enrichment = record { plan_tier = "free"; anonymize_user_data = false }

abbrev number : ℕ → Json
number n = truthy "number"

no_errors : RawEventDto → Bool
no_errors d = false

abbrev start : Worker memory
start = record { sessions = blank; ingestor = init 0 }

worker : Unit {0}
unfolding ingestor no_errors trim true_text is_join is_voice_event voice_user voice_channel
    validate_payload voice_join_key record_join record_leave to_raw_event to_raw_event_for_voice
    process_job
worker = tt

process_job-session_example :
    let job = process_job memory config number no_errors in
    let joined = (job (voice (some "c")) enrichment 0 start).1 in
    let gone = (job (voice none) enrichment 61_000 joined).1 in
    let event = leave_event memory config number no_errors (voice none) enrichment 2 in
    (joined.ingestor ≡ start.ingestor)
    × (gone.ingestor ≡ push_event config 61_000 event joined.ingestor)
    × (event.event_type ≡ "VOICE_STATE_UPDATE")
    × (field "voiceMinutes" event.payload ≡ some (number 2))
    × (memory.get (voice_join_key "g" "u") gone.sessions ≡ none)
unfolding worker
process_job-session_example =
    process_job-session memory config number no_errors (voice (some "c")) (voice none) "u"
      enrichment 0 61_000 start
      (process_job memory config number no_errors (voice (some "c")) enrichment 0 start).1 refl refl
      refl refl refl refl refl refl refl refl

abbrev in_channel : VoiceState
in_channel = record {
  guild_id = "dg";
  channel_id = some "c";
  channel = some (record { id = some "c"; name = some "General" });
  member = some (record { id = "u"; tag = none; avatar = none });
}

abbrev gone : VoiceState
gone = record in_channel { channel_id = none; channel = none }

abbrev known_guild : String → Option String
known_guild discord_guild_id = some "g"

producer : Unit {0}
unfolding worker voice_channel_id voice_discord_user_id voice_payload on_voice_state_update
producer = tt

on_voice_state_update-loses_example :
    process_job memory config number no_errors
      (voice_job in_channel gone "g" "e" 9 "now")
      enrichment
      9
      start
    ≡ (done, record start { sessions = record_join memory "g" "u" 9 start.sessions })
unfolding producer
on_voice_state_update-loses_example =
    on_voice_state_update-loses memory config number no_errors known_guild in_channel gone "g" "u"
      "c" "e" "now" (some "General") (voice_job in_channel gone "g" "e" 9 "now") enrichment 9 9
      start refl refl refl refl refl refl refl refl refl refl

abbrev digest : String → String
digest s = s

abbrev hidden : RawEvent
hidden = record (event "a") { discord_user_id = some "u"; anonymize_user_data = true }

row : Unit {0}
unfolding worker should_anonymize compute_anonymized_hash compute_retention_until to_click_house_row
    get_retention_days_for_tier plan_tier_limits normalize_plan_tier same_codes
row = tt

salted : (to_click_house_row digest hidden "s" 5).anonymized_hash ≡ some "su"
unfolding row
salted = refl

abbrev premium_event : RawEvent
premium_event = record (event "a") { plan_tier = "Premium" }

to_click_house_row-retention_example :
    (IsPremium "Premium"
      × ((to_click_house_row digest premium_event "s" 5).retention_until
          ≡ (to_click_house_row digest premium_event "s" 5).event_time + 365 * 86_400))
    ⊎ ((¬ IsPremium "Premium")
        × ((to_click_house_row digest premium_event "s" 5).retention_until
            ≡ (to_click_house_row digest premium_event "s" 5).event_time + 30 * 86_400))
to_click_house_row-retention_example = to_click_house_row-retention digest premium_event "s" 5

process_job-Pushes_example :
    Pushes memory config number no_errors
      (voice none)
      enrichment
      9
      start
      (process_job memory config number no_errors (voice none) enrichment 9 start).1
process_job-Pushes_example =
    process_job-Pushes memory config number no_errors (voice none) enrichment 9 start
