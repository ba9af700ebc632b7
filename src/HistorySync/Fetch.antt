-- ===== src/HistorySync/Fetch.antt =====
-- `fetchMessagesForChannel`: page after page of a channel, the newest message first. `digest` is
-- SHA-256 in hexadecimal digits, `iso` prints a time.
use Prim.Native.String.{◌++◌ as append}
use discord_bot_backend.Prelude.{
  ℕ, zero, suc, ◌+◌, ◌-◌, min, String, Bool, true, false, Option, none, some, ◌==◌, ◌||◌, ltb, ◌=?◌,
  is_empty, or_else, if◌then◌else◌, List, [], ◌∷◌, ◌++◌, map, length,
}
use discord_bot_backend.Ingestor.{Payload, text, RawEvent}
use discord_bot_backend.Ingestor.Producer.{entry, and_then}
use discord_bot_backend.HistorySync.{Author, Message}

abbrev pub messages_limit_per_request : ℕ
messages_limit_per_request = 100

abbrev pub text_from : ℕ → String → String
text_from zero s = s
text_from (suc n) String.[] = String.[]
text_from (suc n) (String.◌∷◌ c s) = text_from n s

abbrev pub text_to : ℕ → String → String
text_to zero s = String.[]
text_to (suc n) String.[] = String.[]
text_to (suc n) (String.◌∷◌ c s) = String.◌∷◌ c (text_to n s)

-- `s.slice(from, to)`
abbrev pub slice : ℕ → ℕ → String → String
slice from to s = text_to (to - from) (text_from from s)

-- The name of an author: `name#1234` for those that still have a discriminator.
unfoldable pub user_tag : Option Author → String
user_tag none = ""
user_tag (some a) = elim a.username [
  | none ↦ ""
  | some name ↦ elim a.discriminator [
    | none ↦ or_else a.global_name name
    | some d ↦
        if is_empty d || d == "0" then or_else a.global_name name else append name (append "#" d)
  ]
]

abbrev pub author_id : Author → Option String
author_id a = some a.id

-- `userTag || undefined`
abbrev pub non_empty : String → Option String
non_empty s = if is_empty s then none else some s

module _ (digest : String → String) (iso : ℕ → String) where
  unfoldable pub to_hist_uuid : String → String
  to_hist_uuid id =
      let hash = slice 0 32 (digest (append "hist-" id)) in
      append (slice 0 8 hash) (
        append "-" (
          append (slice 8 12 hash) (
            append "-4" (
              append (slice 13 16 hash)
                (append "-a" (append (slice 17 20 hash) (append "-" (slice 20 32 hash))))))))

  unfoldable pub message_payload : Message → Payload
  unfolding user_tag
  message_payload m =
      ("messageId", text m.id)
      ∷ ("channelId", text m.channel_id)
      ∷ (entry "userId" (and_then author_id m.author)
          ++ (entry "userTag" (non_empty (user_tag m.author))
              ++ (entry "avatar" (and_then (λ (a : Author). a.avatar) m.author)
                  ++ ("content", text (or_else m.content ""))
                    ∷ ("timestamp", text (iso m.timestamp))
                    ∷ [])))

  unfoldable pub message_event : String → String → Message → RawEvent
  unfolding to_hist_uuid message_payload
  message_event guild discord_guild m = record {
    event_id = to_hist_uuid m.id;
    event_time = m.timestamp;
    event_type = "MESSAGE_CREATE";
    guild_id = guild;
    discord_guild_id = discord_guild;
    user_id = none;
    discord_user_id = and_then author_id m.author;
    channel_id = some m.channel_id;
    role_id = none;
    command_name = none;
    plan_tier = "free";
    is_bot_generated = or_else (and_then (λ (a : Author). a.bot) m.author) false;
    payload = message_payload m;
    is_historical = true;
    anonymize_user_data = false;
  }

-- How Discord answers a request: with 429, with another status that is not ok, or with a page.
pub data Weather : Type 0 where
  rate_limited : Weather
  refusing : ℕ → Weather
  granting : Weather

-- The loop's variables.
pub record Progress : Type 0 where
  pub before : Option String
  pub fetched : ℕ
  pub events : List RawEvent

-- The events of a channel, an error that is thrown, or a loop that still waits for an answer.
pub data Fetched : Type 0 where
  all_of : List RawEvent → Fetched
  thrown : ℕ → Fetched
  waiting : Progress → Fetched

-- `before = msg.id` for each message in turn.
abbrev pub last_id : Option String → List Message → Option String
last_id before [] = before
last_id before (m ∷ messages) = last_id (some m.id) messages

abbrev pub begin : Progress
begin = record { before = none; fetched = 0; events = [] }

abbrev pub no_messages : List Message → Bool
no_messages [] = true
no_messages (m ∷ messages) = false

-- `page` are the messages that Discord sends for a limit and a message before which to start;
-- `event` makes an event of one. Each request takes the next weather.
module _ (page : ℕ → Option String → List Message) (event : Message → RawEvent)
    (scan_depth : ℕ) where
  abbrev pub limit_of : Progress → ℕ
  limit_of p = min messages_limit_per_request (scan_depth - p.fetched)

  -- The loop's variables after a page.
  unfoldable pub advance : List Message → Progress → Progress
  advance messages p = record {
    before = last_id p.before messages;
    fetched = p.fetched + length messages;
    events = p.events ++ map event messages;
  }

  unfoldable pub fetch_loop : List Weather → Progress → Fetched
  fetch_loop [] p = if ltb p.fetched scan_depth then waiting p else all_of p.events
  fetch_loop (rate_limited ∷ weather) p = elim (ltb p.fetched scan_depth) [
    | true ↦ fetch_loop weather p
    | false ↦ all_of p.events
  ]
  fetch_loop (refusing status ∷ weather) p =
      if ltb p.fetched scan_depth
      then (if status =? 403 || status =? 404 then all_of p.events else thrown status)
      else all_of p.events
  fetch_loop (granting ∷ weather) p =
      let messages = page (limit_of p) p.before in
      let rest = fetch_loop weather (advance messages p) in
      if ltb p.fetched scan_depth
      then (if no_messages messages
          then all_of p.events
          else if ltb (length messages) (limit_of p)
          then all_of (advance messages p).events
          else rest)
      else all_of p.events

  unfoldable pub fetch_messages_for_channel : List Weather → Fetched
  fetch_messages_for_channel weather = fetch_loop weather begin
