-- ===== src/Counters/Service.antt =====
-- counters.service.ts and counters-queue.service.ts. `today` is the text of the current date, `now`
-- the clock, and `queued` tells whether the queue takes the job: a failure of it is ignored.
use discord_bot_backend.Prelude.{
  ℕ, String, Bool, true, false, Option, none, some, ◌==◌, ◌&&◌, ◌||◌, if◌then◌else◌, List, [], ◌∷◌,
  zero, suc, leb, ◌=?◌, codes, HttpError, Action, ◌>>=◌, ◌>>◌, pure, query, modify, require,
  or_else,
}
use discord_bot_backend.Orm.{Orm}
use discord_bot_backend.Counters.{
  Units, Counter, CounterType, CounterMetric, CounterStatus, active, Guild, CountersDb, CounterJob,
  update_job, delete_job, counter_id, guild_key, is_role,
}
use discord_bot_backend.Counters.Template.{preview_counter_template}

abbrev pub guild_not_found : HttpError
guild_not_found = record { status = 404; code = "GUILD_NOT_FOUND" }

abbrev pub counter_not_found : HttpError
counter_not_found = record { status = 404; code = "COUNTER_NOT_FOUND" }

pub record CreateCounterDto : Type 0 where
  pub channel_id : String
  pub type : CounterType
  pub metric : Option CounterMetric
  pub role_id : Option String
  pub template : Units
  pub target : Option ℕ
  pub timezone : Option String
  pub date_format : Option String

-- A field of a patch: `undefined`, or a value that may be null.
pub data Change (A : Type 0) : Type 0 where
  keep : Change A
  assign : Option A → Change A

-- Where the source compares with `!= null`, null counts as undefined.
pub record PatchCounterDto : Type 0 where
  pub channel_id : Option String
  pub type : Option CounterType
  pub metric : Change CounterMetric
  pub role_id : Change String
  pub template : Option Units
  pub status : Option CounterStatus
  pub target : Change ℕ
  pub timezone : Change String
  pub date_format : Change String

abbrev pub changed : {A : Type 0} → Change A → Option A → Option A
changed keep old = old
changed (assign v) old = v

abbrev pub assigned : {A : Type 0} → Change A → Option A
assigned keep = none
assigned (assign v) = v

-- The metric and the role of a patched counter.
unfoldable pub patch_metric : Change CounterMetric → Change String → Counter → Counter
patch_metric keep r c = c
patch_metric (assign m) r c = record c {
  metric = m;
  role_id = if is_role m then assigned r else none;
}

unfoldable pub patch_role : Change String → Counter → Counter
patch_role keep c = c
patch_role (assign r) c = if is_role c.metric then record c { role_id = r } else c

unfoldable pub patch_template : Option Units → Units → Counter → Counter
patch_template none today c = c
patch_template (some t) today c = record c {
  template = t;
  channel_name = preview_counter_template t today;
}

unfoldable pub patched : PatchCounterDto → Units → ℕ → Counter → Counter
unfolding patch_metric patch_role patch_template
patched dto today now c =
    let moved = record c {
      channel_id = or_else dto.channel_id c.channel_id;
      type = or_else dto.type c.type;
    } in
    let named =
      patch_template dto.template today
        (patch_role dto.role_id (patch_metric dto.metric dto.role_id moved)) in
    record named {
      status = or_else dto.status c.status;
      target = changed dto.target c.target;
      timezone = changed dto.timezone c.timezone;
      date_format = changed dto.date_format c.date_format;
      updated_at = now;
    }

abbrev pub is_hex : ℕ → Bool
is_hex c = (leb 48 c && leb c 57) || (leb 65 c && leb c 70) || (leb 97 c && leb c 102)

abbrev pub is_dash : ℕ → Bool
is_dash c = c =? 45

-- `[1-5]` and `[89ab]`, the latter in either case.
abbrev pub is_version : ℕ → Bool
is_version c = leb 49 c && leb c 53

abbrev pub is_variant : ℕ → Bool
is_variant c = c =? 56 || c =? 57 || c =? 65 || c =? 66 || c =? 97 || c =? 98

-- As many units as classes, each in its class.
unfoldable pub in_classes : List (ℕ → Bool) → List ℕ → Bool
in_classes [] [] = true
in_classes [] (c ∷ text) = false
in_classes (p ∷ classes) [] = false
in_classes (p ∷ classes) (c ∷ text) = p c && in_classes classes text

abbrev pub hex : ℕ → List (ℕ → Bool) → List (ℕ → Bool)
hex zero rest = rest
hex (suc n) rest = is_hex ∷ hex n rest

-- `isUuid` of guilds-realtime.service.ts.
unfoldable pub is_uuid : String → Bool
unfolding in_classes
is_uuid id =
    in_classes
      (hex 8 (
        is_dash
        ∷ hex 4
            (is_dash ∷ is_version ∷ hex 3 (is_dash ∷ is_variant ∷ hex 3 (is_dash ∷ hex 12 [])))))
      (codes id)

module _ (orm : Orm) where
  -- `findGuildByIdOrDiscordId`: by the key of the guild, or by its id at Discord.
  unfoldable pub find_guild : String → CountersDb orm → Option Guild
  unfolding is_uuid
  find_guild id db =
      if is_uuid id
      then orm.find_one guild_key (λ g. g.id == id) db.guilds
      else orm.find_one guild_key (λ g. g.discord_guild_id == id) db.guilds

  unfoldable pub find_counter : String → String → CountersDb orm → Option Counter
  find_counter id guild db =
      orm.find_one counter_id (λ c. c.id == id && c.guild_id == guild) db.counters

  abbrev pub enqueue : Bool → CounterJob → CountersDb orm → CountersDb orm
  enqueue true job db = record db { queue = job ∷ db.queue }
  enqueue false job db = db

  -- `addCounterUpdate`
  abbrev pub add_counter_update : Bool → Counter → CountersDb orm → CountersDb orm
  add_counter_update queued c db =
      enqueue queued (update_job c.id c.guild_id c.channel_id c.type c.metric c.role_id) db

  abbrev pub save_counter : Counter → CountersDb orm → CountersDb orm
  save_counter c db = record db { counters = orm.save counter_id c db.counters }

  -- The row of a new counter; the database sets `created_at`.
  unfoldable pub new_counter : String → CreateCounterDto → Units → ℕ → ℕ → CountersDb orm → Counter
  new_counter guild dto today now created_at db = record {
    id = orm.new_key counter_id db.counters;
    guild_id = guild;
    channel_id = dto.channel_id;
    channel_name = preview_counter_template dto.template today;
    type = dto.type;
    metric = dto.metric;
    role_id = if is_role dto.metric then dto.role_id else none;
    template = dto.template;
    status = active;
    current_value = none;
    target = dto.target;
    timezone = dto.timezone;
    date_format = dto.date_format;
    created_at = created_at;
    updated_at = now;
  }

  unfoldable pub create :
      String → CreateCounterDto → Units → ℕ → ℕ → Bool → Action (CountersDb orm) Counter
  create guild_id dto today now created_at queued = do
    guild ← λ db. require guild_not_found (find_guild guild_id db) db
    saved ← query (new_counter guild.id dto today now created_at)
    modify (save_counter saved)
    modify (add_counter_update queued saved)
    pure saved

  unfoldable pub find_all_by_guild : String → Action (CountersDb orm) (List Counter)
  find_all_by_guild guild_id = do
    guild ← λ db. require guild_not_found (find_guild guild_id db) db
    query λ db. orm.find counter_id (λ c. c.guild_id == guild.id) (λ c. c.created_at) db.counters

  unfoldable pub update :
      String → String → PatchCounterDto → Units → ℕ → Bool → Action (CountersDb orm) Counter
  update guild_id id dto today now queued = do
    guild ← λ db. require guild_not_found (find_guild guild_id db) db
    counter ← λ db. require counter_not_found (find_counter id guild.id db) db
    modify (save_counter (patched dto today now counter))
    modify (add_counter_update queued (patched dto today now counter))
    pure (patched dto today now counter)

  unfoldable pub remove : String → String → Bool → Action (CountersDb orm) (Unit {0})
  remove guild_id id queued = do
    guild ← λ db. require guild_not_found (find_guild guild_id db) db
    counter ← λ db. require counter_not_found (find_counter id guild.id db) db
    modify (enqueue queued (delete_job counter.id counter.guild_id counter.channel_id))
    modify λ db. record db { counters = orm.remove counter_id counter.id db.counters }
