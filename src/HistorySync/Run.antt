-- ===== src/HistorySync/Run.antt =====
-- `run` and `resolveToken`. A guild's text channels are read in batches, whose results come in the
-- order of the channels; the events that are new are inserted. The message counter and the realtime
-- events that follow an insert change nothing that is read here.
use discord_bot_backend.Prelude.{
  ℕ, zero, suc, min, String, Bool, true, false, Option, none, some, ◌==◌, ◌&&◌, ◌||◌, ◌=?◌,
  is_empty, if◌then◌else◌, List, [], ◌∷◌, ◌++◌, map, keep_if, length,
}
use discord_bot_backend.Orm.{Orm}
use discord_bot_backend.Entities.{Guild, HistorySyncStatus, processing, completed, failed}
use discord_bot_backend.Ingestor.{Payload, field, RawEvent, Enrichment}
use discord_bot_backend.Ingestor.Consumer.{true_text}
use discord_bot_backend.Ingestor.Row.{Row}
use discord_bot_backend.HistorySync.{DiscordChannel, Message}
use discord_bot_backend.HistorySync.Fetch.{
  Fetched, all_of, thrown, waiting, Weather, fetch_messages_for_channel, message_event,
}
use discord_bot_backend.HistorySync.Batches.{history_row, inserts, slices}

abbrev pub guild_text_type : ℕ
guild_text_type = 0

-- DISCORD_BOT_TOKEN; an empty text counts as not set.
unfoldable pub configured : Option String → Option String
configured none = none
configured (some token) = if is_empty token then none else some token

-- `resolveToken`: the guild's own token, if it is stored and can be decrypted, or the bot's; `none`
-- where the bot's is not set, which throws.
unfoldable pub resolve_token :
    (String → Option String) → Option String → Option String → Option String
unfolding configured
resolve_token decrypt none main = configured main
resolve_token decrypt (some encrypted) main =
    if is_empty encrypted
    then configured main
    else (elim (decrypt encrypted) [ some token ↦ some token | none ↦ configured main ])

abbrev pub guild_id : Guild → String
guild_id g = g.id

-- `JSON.parse(e.payload).messageId`, where it is true.
unfoldable pub message_id : Payload → Option String
unfolding field true_text
message_id p = true_text (field "messageId" p)

abbrev pub contains : String → List String → Bool
contains id [] = false
contains id (x ∷ ids) = x == id || contains id ids

-- `fetchExistingMessageIds`: the ids in the rows of the guild's messages.
unfoldable pub existing_ids : String → List Row → List String
unfolding message_id
existing_ids guild [] = []
existing_ids guild (r ∷ rows) =
    let rest = existing_ids guild rows in
    if r.guild_id == guild && r.event_type == "MESSAGE_CREATE"
    then (elim (message_id r.payload) [ none ↦ rest | some id ↦ id ∷ rest ])
    else rest

-- A query that fails finds none.
abbrev pub fetch_existing_message_ids : Bool → String → List Row → List String
fetch_existing_message_ids true guild rows = existing_ids guild rows
fetch_existing_message_ids false guild rows = []

-- The events with an id that was not met before.
unfoldable pub new_events : List String → List RawEvent → List RawEvent
unfolding message_id
new_events seen [] = []
new_events seen (e ∷ events) = elim (message_id e.payload) [
  | none ↦ new_events seen events
  | some id ↦ elim (contains id seen) [
    | true ↦ new_events seen events
    | false ↦ e ∷ new_events (id ∷ seen) events
  ]
]

-- `Promise.all` of the channels of a batch: it throws if one throws, also while others wait.
unfoldable pub join_batch : List Fetched → Fetched
join_batch [] = all_of []
join_batch (f ∷ results) =
    let rest = join_batch results in
    elim f [
      | thrown status ↦ thrown status
      | waiting p ↦ elim rest [
        | thrown status ↦ thrown status
        | waiting q ↦ waiting p
        | all_of events ↦ waiting p
      ]
      | all_of events ↦ elim rest [
        | all_of more ↦ all_of (events ++ more)
        | thrown status ↦ thrown status
        | waiting p ↦ waiting p
      ]
    ]

-- The batches, one after the other.
unfoldable pub join_sequence : List Fetched → Fetched
join_sequence [] = all_of []
join_sequence (f ∷ results) =
    let rest = join_sequence results in
    elim f [
      | thrown status ↦ thrown status
      | waiting p ↦ waiting p
      | all_of events ↦ elim rest [
        | all_of more ↦ all_of (events ++ more)
        | thrown status ↦ thrown status
        | waiting p ↦ waiting p
      ]
    ]

abbrev pub is_text_channel : DiscordChannel → Bool
is_text_channel c = c.type =? guild_text_type

abbrev pub at_least_one : ℕ → ℕ
at_least_one zero = 1
at_least_one (suc n) = suc n

unfoldable pub read_channels : (DiscordChannel → Fetched) → ℕ → List DiscordChannel → Fetched
unfolding join_batch join_sequence
read_channels fetch concurrency channels =
    let size = at_least_one (min concurrency (length channels)) in
    join_sequence (map (λ batch. join_batch (map fetch batch)) (slices size channels))

abbrev pub enriched : Enrichment → RawEvent → RawEvent
enriched enrichment e = record e {
  plan_tier = enrichment.plan_tier;
  anonymize_user_data = enrichment.anonymize_user_data;
}

-- Each insert in turn; `accepted` tells whether ClickHouse takes it. The first that it does not take
-- is thrown.
unfoldable pub insert_all : (ℕ → Bool) → ℕ → List (List Row) → List Row → Bool × List Row
insert_all accepted i [] stored = (true, stored)
insert_all accepted i (rows ∷ batches) stored = elim (accepted i) [
  | true ↦ insert_all accepted (suc i) batches (stored ++ rows)
  | false ↦ (false, stored)
]

pub data RunResult : Type 0 where
  done failing unanswered : RunResult

-- What a run finds outside: the token, the answer to the request for channels, the pages of each channel
-- and how its requests are answered, whether the query of stored ids works and which inserts are taken, and the clock.
pub record Outside : Type 0 where
  pub token : Option String
  pub channels : Option (List DiscordChannel)
  pub page : String → ℕ → Option String → List Message
  pub weather : String → List Weather
  pub readable : Bool
  pub accepted : ℕ → Bool
  pub now : ℕ

pub record SyncWorld (orm : Orm) : Type 0 where
  pub guilds : orm.Table Guild
  pub stored : List Row

-- `digest` is SHA-256, `iso` prints a time, `salt`, `concurrency` and `scan_depth` are settings.
module _ (orm : Orm) (digest : String → String) (iso : ℕ → String) (salt : String)
    (concurrency scan_depth : ℕ) where
  abbrev pub set_status : String → HistorySyncStatus → SyncWorld orm → SyncWorld orm
  set_status guild s w = record w {
    guilds =
        orm.update guild_id (λ g. g.id == guild) (λ g. record g { history_sync_status = s })
          w.guilds;
  }

  -- The part of `run` after the answer of the channels.
  unfoldable pub store_events :
      String → Enrichment → Outside → List RawEvent → SyncWorld orm → RunResult × SyncWorld orm
  unfolding new_events existing_ids
  store_events guild enrichment out events w =
      let fresh = new_events (fetch_existing_message_ids out.readable guild w.stored) events in
      let rows = map (history_row digest salt out.now) (map (enriched enrichment) fresh) in
      let (taken, stored) = insert_all out.accepted 0 (inserts rows) w.stored in
      if taken
      then (done, set_status guild completed (record w { stored = stored }))
      else (failing, set_status guild failed (record w { stored = stored }))

  abbrev pub fetch : String → String → Outside → DiscordChannel → Fetched
  fetch guild discord_guild out c =
      fetch_messages_for_channel (out.page c.id) (message_event digest iso guild discord_guild)
        scan_depth (out.weather c.id)

  unfoldable pub after_reading :
      String → Enrichment → Outside → SyncWorld orm → Fetched → RunResult × SyncWorld orm
  unfolding store_events
  after_reading guild enrichment out started (thrown status) =
      (failing, set_status guild failed started)
  after_reading guild enrichment out started (waiting p) = (unanswered, started)
  after_reading guild enrichment out started (all_of events) =
      store_events guild enrichment out events started

  unfoldable pub run :
      String → String → Enrichment → Outside → SyncWorld orm → RunResult × SyncWorld orm
  unfolding after_reading read_channels
  run guild discord_guild enrichment out w =
      let started = set_status guild processing w in
      elim out.token [
        | none ↦ (failing, set_status guild failed started)
        | some token ↦ elim out.channels [
          | none ↦ (failing, set_status guild failed started)
          | some channels ↦ after_reading guild enrichment out started (
              read_channels (fetch guild discord_guild out) concurrency
                (keep_if is_text_channel channels))
        ]
      ]
