-- ===== src/HistorySync/Tests.antt =====
-- Runs of the history sync, and its theorems at such runs.
use discord_bot_backend.Prelude.{
  ℕ, suc, ◌≤◌, String, Bool, true, false, Option, none, some, ◌≡◌, refl, ap, ◌==◌, ◌=?◌, List, [],
  ◌∷◌, ◌++◌, map, take, count, length, length-append, All, if◌then◌else◌, arith,
}
use discord_bot_backend.Orm.Memory.{memory}
use discord_bot_backend.Entities.{Guild, GuildStatus, GuildSubscriptionTier, pending}
use discord_bot_backend.Ingestor.{field, RawEvent, Enrichment}
use discord_bot_backend.Ingestor.Consumer.{true_text}
use discord_bot_backend.Ingestor.Row.{
  Row, should_anonymize, compute_anonymized_hash, compute_retention_until,
}
use discord_bot_backend.PlanTiers.{
  get_retention_days_for_tier, plan_tier_limits, normalize_plan_tier, same_codes,
}
use discord_bot_backend.HistorySync.{Author, Message, DiscordChannel}
use discord_bot_backend.HistorySync.Fetch.{
  Weather, rate_limited, granting, message_event, message_payload, user_tag, to_hist_uuid, all_of,
  advance, fetch_loop, fetch_messages_for_channel,
}
use discord_bot_backend.HistorySync.Paging.{Serves, fetch_messages_for_channel_complete}
use discord_bot_backend.HistorySync.Batches.{
  history_row, get_week_start_key, add_row, group_rows, chunks, week_inserts, inserts,
}
use discord_bot_backend.HistorySync.Coverage.{count_all, IsInsert, inserts-cover}
use discord_bot_backend.HistorySync.Run.{
  configured, resolve_token, message_id, existing_ids, new_events, join_batch, join_sequence,
  read_channels, insert_all, RunResult, done, failing, Outside, SyncWorld, store_events,
  after_reading, run,
}
use discord_bot_backend.HistorySync.Identity.{user_of, Tells, runs-Tells}
use discord_bot_backend.HistorySync.Fresh.{copies}
use discord_bot_backend.HistorySync.Again.{Call, run_call, runs, runs-copies}
use discord_bot_backend.HistorySync.Complete.{run_complete, run-repeats}

abbrev ann : Author
ann = record {
  id = "ann";
  bot = none;
  username = some "ann";
  discriminator = some "0";
  global_name = some "Ann";
  avatar = none;
}

abbrev hello : Message
hello = record {
  id = "2";
  channel_id = "c";
  author = some ann;
  content = some "hello";
  timestamp = 700_000_000;
}

abbrev old : Message
old = record { id = "1"; channel_id = "c"; author = none; content = none; timestamp = 5_000 }

abbrev history : List Message
history = hello ∷ old ∷ []

abbrev older_than : String → List Message → List Message
older_than id [] = []
older_than id (m ∷ messages) = if m.id == id then messages else older_than id messages

abbrev page : ℕ → Option String → List Message
page n none = take n history
page n (some id) = take n (older_than id history)

abbrev head_id : List Message → String
head_id [] = ""
head_id (m ∷ messages) = m.id

abbrev tail : List Message → List Message
tail [] = []
tail (m ∷ messages) = messages

page-Serves : Serves page history
page-Serves = record { first = λ n. refl; next = next }
  where
    next :
        (n : ℕ) (newer : List Message) (m : Message) (older : List Message)
        → history ≡ newer ++ m ∷ older
        → page n (some m.id) ≡ take n older
    next n [] m older e = rw⁻¹ (ap head_id e) (rw⁻¹ (ap tail e) refl)
    next n (x ∷ []) m older e =
        rw⁻¹ (ap (λ ms. head_id (tail ms)) e) (rw⁻¹ (ap (λ ms. tail (tail ms)) e) refl)
    next n (x ∷ y ∷ newer) m older e =
        absurd (omega (arith, ap length e, length-append newer (m ∷ older)))

abbrev weather : List Weather
weather = rate_limited ∷ granting ∷ rate_limited ∷ []

abbrev digest : String → String
digest s = s

abbrev iso : ℕ → String
iso n = "1970-01-01T00:00:00.000Z"

abbrev event : Message → RawEvent
event = message_event digest iso "g" "dg"

fetch_messages_for_channel_complete_example :
    fetch_messages_for_channel page event 50 weather ≡ all_of (map event (take 50 history))
fetch_messages_for_channel_complete_example =
    fetch_messages_for_channel_complete page event 50 history weather page-Serves tt (omega arith)

abbrev enrichment : Enrichment
enrichment = record { plan_tier = "pro"; anonymize_user_data = false }

abbrev row : Message → Row
row m = history_row digest "salt" 9_000 (event m)

abbrev is_old : Row → Bool
is_old r = r.event_time =? 5

inserts-cover_example :
    (count_all is_old (inserts (row hello ∷ row old ∷ []))
      ≡ count is_old (row hello ∷ row old ∷ []))
    × All IsInsert (inserts (row hello ∷ row old ∷ []))
inserts-cover_example = inserts-cover is_old (row hello ∷ row old ∷ [])

abbrev text_channel : DiscordChannel
text_channel = record { id = "c"; type = 0 }

abbrev voice_channel : DiscordChannel
voice_channel = record { id = "v"; type = 2 }

abbrev out : Bool → Outside
out readable = record {
  token = some "token";
  channels = some (voice_channel ∷ text_channel ∷ []);
  page = λ c. page;
  weather = λ c. weather;
  readable = readable;
  accepted = λ i. true;
  now = 9_000;
}

abbrev call : Bool → Call
call readable = record { discord_guild = "dg"; enrichment = enrichment; out = out readable }

-- The second insert is refused.
abbrev broken : Call
broken = record (call true) { out = record (out true) { accepted = λ i. i =? 0 } }

abbrev guild : Guild
guild = record {
  id = "g";
  discord_guild_id = "dg";
  name = "Guild";
  icon_url = none;
  banner = none;
  owner_id = "u";
  status = GuildStatus.active;
  subscription_tier = GuildSubscriptionTier.free;
  member_count = 0;
  message_count = 0;
  online_members = none;
  last_activity = none;
  shard_id = none;
  is_bot_in_guild = true;
  created_at = 0;
  history_sync_status = pending;
}

abbrev world : SyncWorld memory
world = record { guilds = guild ∷ []; stored = [] }

abbrev ran : Call → SyncWorld memory → RunResult × SyncWorld memory
ran = run_call memory digest iso "salt" 3 50 "g"

abbrev ran_twice : SyncWorld memory
ran_twice = runs memory digest iso "salt" 3 50 "g" (broken ∷ call true ∷ []) world

history_sync : Unit {0}
unfolding run after_reading store_events read_channels join_batch join_sequence chunks
    fetch_messages_for_channel fetch_loop advance message_event message_payload user_tag
    to_hist_uuid history_row should_anonymize compute_anonymized_hash compute_retention_until
    get_retention_days_for_tier plan_tier_limits normalize_plan_tier same_codes get_week_start_key
    add_row group_rows week_inserts inserts insert_all new_events existing_ids message_id field
    true_text configured resolve_token
history_sync = tt

-- The first run fails between its inserts, the second stores the rest, and a third, whose query of the
-- stored ids fails, stores all once more.
three_runs :
    ((ran broken world).0 ≡ failing)
    × (copies "g" "2" (ran broken world).1.stored ≡ 1)
    × (copies "g" "1" (ran broken world).1.stored ≡ 0)
    × ((ran (call true) (ran broken world).1).0 ≡ done)
    × (copies "g" "2" ran_twice.stored ≡ 1)
    × (copies "g" "1" ran_twice.stored ≡ 1)
    × ((ran (call false) ran_twice).0 ≡ done)
    × (copies "g" "1" (ran (call false) ran_twice).1.stored ≡ 2)
unfolding history_sync
three_runs = (refl, refl, refl, refl, refl, refl, refl, refl)

tokens :
    (resolve_token (λ s. none) (some "x") (some "main") ≡ some "main")
    × (resolve_token (λ s. some "own") (some "x") none ≡ some "own")
    × (resolve_token (λ s. some "own") (some "") none ≡ none)
    × (resolve_token (λ s. none) (some "x") (some "") ≡ none)
    × (resolve_token (λ s. none) none (some "") ≡ none)
unfolding history_sync
tokens = (refl, refl, refl, refl, refl)

abbrev anonymizing : Call
anonymizing = record (call true) {
  enrichment = record { plan_tier = "pro"; anonymize_user_data = true };
}

abbrev hidden_world : SyncWorld memory
hidden_world = runs memory digest iso "salt" 3 50 "g" (anonymizing ∷ []) world

abbrev told_by : Row → List (Option String)
told_by r = some r.discord_user_id ∷ r.anonymized_hash ∷ user_of r.payload ∷ []

-- The id that the columns hide is in the payload.
told :
    map told_by hidden_world.stored
    ≡ (some "" ∷ some "saltann" ∷ some "ann" ∷ []) ∷ (some "" ∷ none ∷ none ∷ []) ∷ []
unfolding history_sync
told = refl

runs-Tells_example : All (Tells digest "salt") hidden_world.stored
runs-Tells_example =
    runs-Tells memory digest iso "salt" 3 50 "g" (anonymizing ∷ []) world (refl, tt) tt

runs-copies_example : copies "g" "2" ran_twice.stored ≤ 1
runs-copies_example =
    runs-copies memory digest iso "salt" 3 50 "g" "2" (broken ∷ call true ∷ []) world
      (refl, (refl, tt)) (omega arith)

run_complete_example : 1 ≤ copies "g" "1" (ran (call true) (ran broken world).1).1.stored
run_complete_example =
    run_complete memory digest iso "salt" 3 50 "g" (call true) (ran broken world).1
      (voice_channel ∷ []) [] text_channel history (hello ∷ []) [] old refl refl refl page-Serves tt
      (omega arith) refl refl three_runs.3

run-repeats_example :
    copies "g" "1" (ran (call false) ran_twice).1.stored ≡ suc (copies "g" "1" ran_twice.stored)
run-repeats_example =
    run-repeats memory digest iso "salt" 3 50 "g" (call false) ran_twice (voice_channel ∷ []) []
      text_channel history (hello ∷ []) [] old refl refl refl page-Serves tt (omega arith) refl refl
      three_runs.6
