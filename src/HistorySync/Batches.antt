-- ===== src/HistorySync/Batches.antt =====
-- `insertEvents`: the rows of the events, grouped by week and cut into inserts. Times are seconds, and
-- a week is the number of its Monday, that of 29 December 1969 being 0.
use discord_bot_backend.Prelude.{
  ℕ, zero, suc, ◌+◌, ◌/◌, String, none, some, ◌&&◌, ◌=?◌, not, is_empty, or_else, if◌then◌else◌,
  List, [], ◌∷◌, ◌++◌, length, take, drop,
}
use discord_bot_backend.Ingestor.{RawEvent}
use discord_bot_backend.Ingestor.Row.{
  Row, compute_retention_until, compute_anonymized_hash, should_anonymize, to_click_house_date_time,
  flag,
}

abbrev pub clickhouse_insert_chunk_size : ℕ
clickhouse_insert_chunk_size = 10_000

-- The row of an event, at the clock `now`.
unfoldable pub history_row : (String → String) → String → ℕ → RawEvent → Row
unfolding should_anonymize compute_anonymized_hash compute_retention_until
history_row digest salt now e =
    let id = or_else e.discord_user_id "" in
    let hidden = should_anonymize e in
    record {
      event_id = e.event_id;
      event_time = to_click_house_date_time e.event_time;
      event_date = e.event_time / 86_400_000;
      event_type = e.event_type;
      guild_id = e.guild_id;
      discord_guild_id = e.discord_guild_id;
      user_id = none;
      discord_user_id = if hidden then "" else id;
      anonymized_hash =
          if hidden && not (is_empty salt)
          then some (compute_anonymized_hash digest id salt)
          else none;
      channel_id = or_else e.channel_id "";
      role_id = "";
      command_name = "";
      plan_tier = e.plan_tier;
      is_bot_generated = flag e.is_bot_generated;
      payload = e.payload;
      ingested_at = to_click_house_date_time now;
      retention_until = to_click_house_date_time (compute_retention_until e.event_time e.plan_tier);
      is_historical = 1;
    }

-- `getWeekStartKey`
unfoldable pub get_week_start_key : ℕ → ℕ
get_week_start_key event_time = (event_time / 86_400 + 3) / 7

-- `byWeek`, in the order in which the weeks were met.
abbrev pub Weeks : Type 0
Weeks = List (ℕ × List Row)

unfoldable pub add_row : ℕ → Row → Weeks → Weeks
add_row week row [] = (week, row ∷ []) ∷ []
add_row week row ((w, rows) ∷ weeks) =
    if w =? week then (w, rows ++ row ∷ []) ∷ weeks else (w, rows) ∷ add_row week row weeks

unfoldable pub group_rows : List Row → Weeks → Weeks
group_rows [] weeks = weeks
group_rows (row ∷ rows) weeks =
    group_rows rows (add_row (get_week_start_key row.event_time) row weeks)

-- The slices of a list from `i`, each `size` long, in as many rounds as it has items at most.
unfoldable pub chunks {ℓ} : {A : Type ℓ} → ℕ → ℕ → List A → List (List A)
chunks zero size xs = []
chunks (suc rounds) size [] = []
chunks (suc rounds) size (x ∷ xs) = take size (x ∷ xs) ∷ chunks rounds size (drop size (x ∷ xs))

abbrev pub slices {ℓ} : {A : Type ℓ} → ℕ → List A → List (List A)
slices size xs = chunks (length xs) size xs

unfoldable pub week_inserts : Weeks → List (List Row)
week_inserts [] = []
week_inserts ((week, rows) ∷ weeks) = slices clickhouse_insert_chunk_size rows ++ week_inserts weeks

-- The inserts that the rows make, in turn.
unfoldable pub inserts : List Row → List (List Row)
inserts rows = week_inserts (group_rows rows [])
