-- ===== src/Counters/Tests.antt =====
-- Runs of the counters service and of the worker, and the theorems at such runs.

use discord_bot_backend.Prelude.{
  ℕ, ◌≤◌, String, Bool, true, false, Option, none, some, ◌≡◌, ◌≢◌, refl, ap, sym, ◌∙◌, ◌==◌, List,
  [], ◌∷◌, length, throw, arith, eq_iff, is_empty, codes, Bool-cases, inl, inr,
}
use discord_bot_backend.Orm.Memory.{memory, get, scan, remove as remove_row, longer_key}
use discord_bot_backend.Redis
use discord_bot_backend.Redis.{blank}
use discord_bot_backend.Counters.{
  Units, Counter, Guild, CountersDb, stat, members, role, active, inactive, update_job, delete_job,
  counter_id, guild_key,
}
use discord_bot_backend.Counters.Template.{
  match_literal, match_word, match_any, replace_from, format_counter_channel_name,
  preview_counter_template, sample_count,
}
use discord_bot_backend.Counters.Service.{
  PatchCounterDto, keep, assign, patched, patch_metric, patch_role, patch_template, in_classes,
  is_uuid, find_guild, find_counter, new_counter, create, update, remove, counter_not_found,
}
use discord_bot_backend.Counters.Consumer.{
  World, Readings, Discord, Clock, done, get_metric_value, set_channel_name, check_rate_limit,
  record_rate_limit, rename_channel, process_job,
}
use discord_bot_backend.Counters.Events.{Event, updating, removing, working, handle, handle_all}
use discord_bot_backend.Counters.Roles.{HasRoles, handle_all-HasRoles}
use discord_bot_backend.Counters.RateLimit.{Turn, IsOrdered, IsSpaced, times, work, work-IsSpaced}
use discord_bot_backend.Counters.Reactivation.{job_of, update-reactivates}
use discord_bot_backend.Counters.Removal.{remove-ends}
use discord_bot_backend.Counters.Names.{length-format_counter_channel_name}

abbrev server : Guild
server = record { id = "g"; discord_guild_id = "1"; member_count = 7; online_members = none }

abbrev other_server : Guild
other_server = record { id = "h"; discord_guild_id = "2"; member_count = 9; online_members = none }

abbrev counter : Counter
counter = record {
  id = "c";
  guild_id = "g";
  channel_id = "ch";
  channel_name = [];
  type = stat;
  metric = some members;
  role_id = none;
  template = codes "{count} {Date} {x}!";
  status = active;
  current_value = none;
  target = none;
  timezone = none;
  date_format = none;
  created_at = 1;
  updated_at = 1;
}

abbrev other_counter : Counter
other_counter = record counter { id = "d"; guild_id = "h"; channel_id = "dh" }

abbrev db : CountersDb memory
db = record {
  counters = counter ∷ other_counter ∷ [];
  guilds = server ∷ other_server ∷ [];
  queue = [];
}

abbrev patch : PatchCounterDto
patch = record {
  channel_id = none;
  type = none;
  metric = keep;
  role_id = assign (some "r");
  template = none;
  status = some inactive;
  target = keep;
  timezone = keep;
  date_format = keep;
}

abbrev readings : Readings
readings = record {
  cached_role = none;
  fetched_role = 0;
  cached_members = some 8;
  total_messages = none;
  online_count = 0;
  idle_count = 0;
  dnd_count = 0;
  offline_count = 0;
}

abbrev discord : Discord
discord = record { channel = false; set_name = false; token = true; patch = some 200 }

abbrev at : ℕ → Clock
at t = record { checked = t; renamed_at = t; recorded = t; saved = t }

abbrev world : CountersDb memory → World memory Redis.memory
world tables = record { db = tables; cache = blank; renames = [] }

abbrev number : ℕ → Units
number n = 48 ∷ []

abbrev date : Option String → Option String → Units
date timezone format = codes "today"

counters : Unit {0}
unfolding get scan remove_row longer_key match_literal match_word match_any replace_from
    format_counter_channel_name preview_counter_template patched patch_metric patch_role
    patch_template in_classes is_uuid find_guild find_counter new_counter create update remove
    get_metric_value set_channel_name check_rate_limit record_rate_limit rename_channel process_job
    handle handle_all work
counters = tt

named :
    format_counter_channel_name counter.template (number 8) (date none none) ≡ codes "0 today 0!"
unfolding counters
named = refl

-- Three jobs in ten minutes change the name twice.
abbrev turn : ℕ → Turn
turn t = record { job = job_of counter; readings = readings; discord = discord; clock = at t }

abbrev turns : List Turn
turns = turn 10 ∷ turn 20 ∷ turn 609 ∷ turn 610 ∷ []

abbrev renames_of : World memory Redis.memory → List ℕ
renames_of w =
    times memory Redis.memory "p" number date "pbot-service:ratelimit:channel:ch" w.renames

limited :
    renames_of (work memory Redis.memory "p" number date turns (world db)) ≡ 610 ∷ 20 ∷ 10 ∷ []
unfolding counters
limited = refl

in_time : IsOrdered 0 turns
in_time = (
  omega arith,
  omega arith,
  omega arith,
  (
    omega arith,
    omega arith,
    omega arith,
    (omega arith, omega arith, omega arith, (omega arith, omega arith, omega arith, tt)),
  ),
)

work-IsSpaced_example :
    IsSpaced (renames_of (work memory Redis.memory "p" number date turns (world db)))
work-IsSpaced_example =
    work-IsSpaced memory Redis.memory "p" number date "pbot-service:ratelimit:channel:ch" 0 turns
      (world db) in_time refl refl

abbrev events : List Event
events =
    updating "1" "c" (record patch { metric = assign (some role) }) [] 5 true
    ∷ updating "1" "c" (record patch { metric = assign none }) [] 6 true
    ∷ working (job_of counter) readings discord (at 7)
    ∷ removing "1" "d" true
    ∷ []

role_free : HasRoles memory db
unfolding get
role_free k c stored = ground (arith, stored)

handle_all-HasRoles_example :
    HasRoles memory (handle_all memory Redis.memory "p" number date events (world db)).db
handle_all-HasRoles_example =
    handle_all-HasRoles memory Redis.memory "p" number date events (world db) role_free

other_guild : (g : Guild) → find_guild memory "1" db ≡ some g → other_counter.guild_id ≢ g.id
unfolding counters
other_guild g e = ground (arith, e, eq_iff "h" "g")

abbrev patched_counter : Counter
patched_counter = record counter { status = inactive; updated_at = 5 }

abbrev patched_db : CountersDb memory
patched_db = record db { counters = patched_counter ∷ db.counters; queue = job_of counter ∷ [] }

abbrev nameless : Option Guild → Bool
nameless none = false
nameless (some g) = is_empty g.discord_guild_id

none_nameless : (k : String) → nameless (memory.get guild_key k db.guilds) ≡ false
unfolding get
none_nameless k = elim (Bool-cases ("g" == k)) [
  | inl here ↦ rw here refl
  | inr there ↦ elim (Bool-cases ("h" == k)) [
    | inl here ↦ rw (there, here) refl
    | inr nowhere ↦ rw (there, nowhere) refl
  ]
]

all_named :
    (k : String) (g : Guild)
    → memory.get guild_key k db.guilds ≡ some g
    → is_empty g.discord_guild_id ≡ false
all_named k g e = sym (ap nameless e) ∙ none_nameless k

update-reactivates_example :
    let w' =
      (process_job memory Redis.memory "p" number date
        (job_of patched_counter)
        readings
        discord
        (at 9)
        (world patched_db)).1 in
    (patched_counter.status ≡ inactive)
    × (patched_db.queue ≡ job_of patched_counter ∷ db.queue)
    × ((c' : Counter) × (memory.get counter_id "c" w'.db.counters ≡ some c') × (c'.status ≡ active))
unfolding counters
update-reactivates_example =
    update-reactivates memory Redis.memory "p" number date "1" "c" patch [] 5 db patched_counter
      readings discord (at 9) (world patched_db) refl refl all_named refl refl

abbrev removed_db : CountersDb memory
removed_db = record db { counters = other_counter ∷ []; queue = delete_job "c" "g" "ch" ∷ [] }

remove-ends_example :
    (update memory "1" "c" patch [] 5 true removed_db ≡ (throw counter_not_found, removed_db))
    × (remove memory "1" "c" true removed_db ≡ (throw counter_not_found, removed_db))
    × (process_job memory Redis.memory "p" number date
          (update_job "c" "g" "ch" stat (some members) none)
          readings
          discord
          (at 9)
          (world removed_db)
        ≡ (done, world removed_db))
unfolding counters
remove-ends_example =
    remove-ends memory Redis.memory "p" number date "1" "c" true db (world removed_db) patch [] 5
      true "g" "ch" stat (some members) none readings discord (at 9) refl

length-format_counter_channel_name_example :
    length (format_counter_channel_name counter.template sample_count (date none none)) ≤ 100
length-format_counter_channel_name_example =
    length-format_counter_channel_name counter.template sample_count (date none none)
