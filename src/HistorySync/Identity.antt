-- ===== src/HistorySync/Identity.antt =====
-- What the rows that the history sync stores tell about the authors of messages.
use mathlib.Core.Path.{subst}
use discord_bot_backend.Prelude.{
  ℕ, String, true, Option, none, some, ◌≡◌, refl, ap, sym, ◌∙◌, ◌&&◌, not, is_empty, trim, or_else,
  List, [], ◌∷◌, keep_if, All, Bool-cases, Option-cases, inl, inr, if◌then◌else◌,
}
use discord_bot_backend.Orm.{Orm}
use discord_bot_backend.Ingestor.{Json, text, field, Payload, RawEvent, Enrichment}
use discord_bot_backend.Ingestor.Row.{Row, is_named, should_anonymize, compute_anonymized_hash}
use discord_bot_backend.HistorySync.{DiscordChannel, Message}
use discord_bot_backend.HistorySync.Fetch.{
  message_event, message_payload, user_tag, Fetched, all_of, thrown, waiting,
}
use discord_bot_backend.HistorySync.Batches.{history_row}
use discord_bot_backend.HistorySync.Stored.{All-insert_all, All-inserts}
use discord_bot_backend.HistorySync.Run.{
  enriched, run, after_reading, new_events, SyncWorld, RunResult, is_text_channel,
}
use discord_bot_backend.HistorySync.Fresh.{rows_of, new_events-All}
use discord_bot_backend.HistorySync.Channels.{
  Every, read_channels-Every, fetch_messages_for_channel-Every,
}
use discord_bot_backend.HistorySync.Again.{
  Call, run_call, runs, reading, all_read, started, finish, run-finish, stored-store_events, known,
}

-- The id that a payload tells under `userId`.
abbrev pub as_text : Option Json → Option String
as_text (some (text id)) = some id
as_text _ = none

abbrev pub user_of : Payload → Option String
user_of p = as_text (field "userId" p)

-- The columns `discord_user_id` and `anonymized_hash` for a user, when the guild anonymizes: no id and,
-- if there is a salt, the digest of salt and id. A blank id is not hidden.
abbrev pub hidden_columns : (String → String) → String → Option String → String × Option String
hidden_columns digest salt none = ("", none)
hidden_columns digest salt (some id) =
    if is_empty (trim id)
    then (id, none)
    else ("", if not (is_empty salt) then some (compute_anonymized_hash digest id salt) else none)

-- The columns of a row hide a user, and its payload tells who it is.
abbrev pub Tells : (String → String) → String → Row → Type 0
Tells digest salt row =
    (row.discord_user_id, row.anonymized_hash) ≡ hidden_columns digest salt (user_of row.payload)

abbrev TellsUser : RawEvent → Type 0
TellsUser e = e.discord_user_id ≡ user_of e.payload

module _ (digest : String → String) (salt : String) (now : ℕ) where
  columns_lem :
      (user : Option String)
      → (
        if true && is_named user then "" else or_else user "",
        if (true && is_named user) && not (is_empty salt)
            then some (compute_anonymized_hash digest (or_else user "") salt)
            else none,
      )
        ≡ hidden_columns digest salt user
  columns_lem none = refl
  columns_lem (some id) = elim (Bool-cases (is_empty (trim id))) [
    | inl blank ↦ rw blank refl
    | inr named ↦ rw named refl
  ]

  history_row-Tells :
      (enrichment : Enrichment) (e : RawEvent)
      → enrichment.anonymize_user_data ≡ true
      → TellsUser e
      → Tells digest salt (history_row digest salt now (enriched enrichment e))
  unfolding history_row should_anonymize
  history_row-Tells enrichment e anonymize h =
      rw anonymize (columns_lem e.discord_user_id ∙ ap (hidden_columns digest salt) h)

  rows_of-Tells :
      (enrichment : Enrichment) (events : List RawEvent)
      → enrichment.anonymize_user_data ≡ true
      → All TellsUser events
      → All (Tells digest salt) (rows_of digest salt now enrichment events)
  rows_of-Tells enrichment [] anonymize h = tt
  rows_of-Tells enrichment (e ∷ events) anonymize (he, h) =
      (history_row-Tells enrichment e anonymize he, rows_of-Tells enrichment events anonymize h)

module _ (orm : Orm) (digest : String → String) (iso : ℕ → String) (salt : String)
    (concurrency scan_depth : ℕ) (guild : String) where
  event-TellsUser :
      (discord_guild : String) (m : Message)
      → TellsUser (message_event digest iso guild discord_guild m)
  unfolding message_event message_payload user_tag field
  event-TellsUser discord_guild m = elim (Option-cases m.author) [
    | inl nobody ↦ rw nobody refl
    | inr (a, somebody) ↦ rw somebody refl
  ]

  all_read-TellsUser :
      (c : Call) (channels : List DiscordChannel)
      → Every TellsUser (all_read orm digest iso salt concurrency scan_depth guild c channels)
  all_read-TellsUser c channels =
      read_channels-Every TellsUser (reading orm digest iso salt concurrency scan_depth guild c)
        (λ ch.
          fetch_messages_for_channel-Every TellsUser (c.out.page ch.id)
            (message_event digest iso guild c.discord_guild) scan_depth
            (event-TellsUser c.discord_guild) (c.out.weather ch.id))
        concurrency (keep_if is_text_channel channels)

  abbrev TellsAll : SyncWorld orm → Type 0
  TellsAll w = All (Tells digest salt) w.stored

  finish-TellsAll :
      (c : Call) (w : SyncWorld orm) (f : Fetched)
      → c.enrichment.anonymize_user_data ≡ true
      → Every TellsUser f
      → TellsAll w
      → TellsAll (finish orm digest iso salt concurrency scan_depth guild c w f).1
  unfolding after_reading
  finish-TellsAll c w (thrown status) anonymize told h = h
  finish-TellsAll c w (waiting p) anonymize told h = h
  finish-TellsAll c w (all_of events) anonymize told h =
      let ids = known orm digest iso salt concurrency scan_depth guild c.out w in
      subst (λ rows. All (Tells digest salt) rows)
        (sym (
          stored-store_events orm digest iso salt concurrency scan_depth guild c.enrichment c.out
            events (started orm digest iso salt concurrency scan_depth guild w)))
        (All-insert_all (Tells digest salt) c.out.accepted 0 _ w.stored
          (All-inserts (Tells digest salt)
            (rows_of digest salt c.out.now c.enrichment (new_events ids events))
            (rows_of-Tells digest salt c.out.now c.enrichment (new_events ids events) anonymize
              (new_events-All TellsUser ids events told)))
          h)

  run-TellsAll :
      (c : Call) (w : SyncWorld orm)
      → c.enrichment.anonymize_user_data ≡ true
      → TellsAll w
      → TellsAll (run_call orm digest iso salt concurrency scan_depth guild c w).1
  unfolding run
  run-TellsAll c w anonymize h = elim (Option-cases c.out.token) [
    | inl no_token ↦ rw no_token h
    | inr (token, some_token) ↦ elim (Option-cases c.out.channels) [
      | inl no_channels ↦ rw (some_token, no_channels) h
      | inr (channels, some_channels) ↦
          subst (λ (r : RunResult × SyncWorld orm). TellsAll r.1)
            (sym (
              run-finish orm digest iso salt concurrency scan_depth guild c token channels w
                some_token some_channels))
            (finish-TellsAll c w
              (all_read orm digest iso salt concurrency scan_depth guild c channels) anonymize
              (all_read-TellsUser c channels) h)
    ]
  ]

  -- Runs for a guild that anonymizes its users, however each of them ends, keep this of all stored
  -- rows: the columns for the id at Discord and for its digest are those of the id that the payload
  -- tells under `userId`. So the column has no id but a blank one, and a row with a digest has the
  -- id itself in its payload.
  pub runs-Tells :
      (calls : List Call) (w : SyncWorld orm)
      → All (λ c. c.enrichment.anonymize_user_data ≡ true) calls
      → All (Tells digest salt) w.stored
      → All
          (Tells digest salt)
          (runs orm digest iso salt concurrency scan_depth guild calls w).stored
  runs-Tells [] w anonymize h = h
  runs-Tells (c ∷ calls) w (first, rest) h =
      runs-Tells calls (run_call orm digest iso salt concurrency scan_depth guild c w).1 rest
        (run-TellsAll c w first h)
