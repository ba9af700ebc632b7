-- ===== src/Ingestor/Row.antt =====
-- The row of an event in ClickHouse: `toClickHouseRow` of clickhouse-ingestor.service.ts, with
-- retention.helper.ts and libs/shared/src/anonymization.util.ts. A DateTime text is the number of
-- seconds that it prints, a date the number of days.
use Prim.Native.String.{◌++◌ as append}
use discord_bot_backend.Prelude.{
  ℕ, ◌+◌, ◌*◌, ◌/◌, String, Bool, true, false, Option, none, some, ◌&&◌, not, is_empty, trim,
  or_else, if◌then◌else◌,
}
use discord_bot_backend.PlanTiers.{get_retention_days_for_tier}
use discord_bot_backend.Ingestor.{Payload, RawEvent}

pub record Row : Type 0 where
  pub event_id : String
  pub event_time : ℕ
  pub event_date : ℕ
  pub event_type : String
  pub guild_id : String
  pub discord_guild_id : String
  pub user_id : Option String
  pub discord_user_id : String
  pub anonymized_hash : Option String
  pub channel_id : String
  pub role_id : String
  pub command_name : String
  pub plan_tier : String
  pub is_bot_generated : ℕ
  pub payload : Payload
  pub ingested_at : ℕ
  pub retention_until : ℕ
  pub is_historical : ℕ

-- `computeRetentionUntil`, in UTC, where each day has 24 hours.
unfoldable pub compute_retention_until : ℕ → String → ℕ
compute_retention_until event_time plan_tier =
    event_time + get_retention_days_for_tier (some plan_tier) * 86_400_000

-- `toClickHouseDateTime`
abbrev pub to_click_house_date_time : ℕ → ℕ
to_click_house_date_time time = time / 1000

abbrev pub flag : Bool → ℕ
flag true = 1
flag false = 0

abbrev pub is_named : Option String → Bool
is_named none = false
is_named (some id) = not (is_empty (trim id))

unfoldable pub should_anonymize : RawEvent → Bool
unfolding trim
should_anonymize e = e.anonymize_user_data && is_named e.discord_user_id

-- `digest` is SHA-256 in hexadecimal digits.
module _ (digest : String → String) where
  unfoldable pub compute_anonymized_hash : String → String → String
  compute_anonymized_hash discord_user_id salt = digest (append salt discord_user_id)

  -- `now` is the clock.
  unfoldable pub to_click_house_row : RawEvent → String → ℕ → Row
  unfolding should_anonymize compute_anonymized_hash
  to_click_house_row e salt now =
      let id = or_else e.discord_user_id "" in
      let hidden = should_anonymize e in
      record {
        event_id = e.event_id;
        event_time = to_click_house_date_time e.event_time;
        event_date = e.event_time / 86_400_000;
        event_type = e.event_type;
        guild_id = e.guild_id;
        discord_guild_id = e.discord_guild_id;
        user_id = e.user_id;
        discord_user_id = if hidden then "" else id;
        anonymized_hash =
            if hidden && not (is_empty salt) then some (compute_anonymized_hash id salt) else none;
        channel_id = or_else e.channel_id "";
        role_id = or_else e.role_id "";
        command_name = or_else e.command_name "";
        plan_tier = e.plan_tier;
        is_bot_generated = flag e.is_bot_generated;
        payload = e.payload;
        ingested_at = to_click_house_date_time now;
        retention_until =
            to_click_house_date_time (compute_retention_until e.event_time e.plan_tier);
        is_historical = flag e.is_historical;
      }
