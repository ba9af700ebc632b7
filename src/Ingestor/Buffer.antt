-- ===== src/Ingestor/Buffer.antt =====
-- clickhouse-ingestor.service.ts: the buffer of events, its flushes and their retries.
-- `flush` runs until its first `await` at once, and the rest of it interleaves with later calls:
-- a batch that has left the buffer is a flight, and each settled insert is an input of its own.
use discord_bot_backend.Prelude.{
  ℕ, zero, suc, ◌+◌, ◌-◌, ◌*◌, ◌/◌, min, Bool, true, false, ◌&&◌, ◌||◌, List, [], ◌∷◌, ◌++◌, leb,
  ltb, ◌=?◌, length, if◌then◌else◌,
}
use discord_bot_backend.Ingestor.{RawEvent}

abbrev pub max_insert_retries : ℕ
max_insert_retries = 5

abbrev pub insert_retry_delay_ms : ℕ
insert_retry_delay_ms = 1000

-- `Math.min(Math.floor(delay * 1.5), 30_000)`
abbrev pub next_delay : ℕ → ℕ
next_delay delay = min (delay * 3 / 2) 30_000

-- A call of `flush` that waits for its insert, or sleeps before the next attempt: `delay` is the
-- sleep after the current attempt, should it fail.
pub record Flight : Type 0 where
  pub batch : List RawEvent
  pub attempt : ℕ
  pub delay : ℕ

pub record Config : Type 0 where
  pub batch_size : ℕ
  pub batch_interval_ms : ℕ

-- `stored` are the rows that ClickHouse has acknowledged.
pub record Ingestor : Type 0 where
  pub buffer : List RawEvent
  pub last_flush_at : ℕ
  pub timer : Bool
  pub flights : List Flight
  pub stored : List RawEvent

-- `onModuleInit`
unfoldable pub init : ℕ → Ingestor
init now = record { buffer = []; last_flush_at = now; timer = true; flights = []; stored = [] }

abbrev pub is_nil {ℓ} : {A : Type ℓ} → List A → Bool
is_nil [] = true
is_nil (x ∷ xs) = false

-- `flush`, up to its first insert.
unfoldable pub flush : ℕ → Ingestor → Ingestor
flush now s = if is_nil s.buffer then s else record s {
  buffer = [];
  last_flush_at = now;
  flights =
      s.flights ++ record { batch = s.buffer; attempt = 1; delay = insert_retry_delay_ms } ∷ [];
}

unfoldable pub push_event : Config → ℕ → RawEvent → Ingestor → Ingestor
push_event config now e s =
    let t = record s { buffer = s.buffer ++ e ∷ [] } in
    if leb config.batch_size (length t.buffer)
      || (ltb 0 (length t.buffer) && leb config.batch_interval_ms (now - t.last_flush_at))
    then flush now t
    else t

-- The callback of `setInterval`, until the timer is cleared.
unfoldable pub on_timer : ℕ → Ingestor → Ingestor
on_timer now s = if s.timer && ltb 0 (length s.buffer) then flush now s else s

-- `for (const e of batch) this.buffer.unshift(e)`
unfoldable pub unshift_all : List RawEvent → List RawEvent → List RawEvent
unshift_all [] buffer = buffer
unshift_all (e ∷ batch) buffer = unshift_all batch (e ∷ buffer)

-- One flight after its insert has settled: gone, or in its next attempt.
unfoldable pub after_insert : Bool → Flight → List Flight
after_insert true f = []
after_insert false f =
    if f.attempt =? max_insert_retries
    then []
    else record f { attempt = f.attempt + 1; delay = next_delay f.delay } ∷ []

unfoldable pub given_back : Bool → Flight → List RawEvent → List RawEvent
given_back true f buffer = buffer
given_back false f buffer =
    if f.attempt =? max_insert_retries then unshift_all f.batch buffer else buffer

unfoldable pub acknowledged : Bool → Flight → List RawEvent
acknowledged true f = f.batch
acknowledged false f = []

-- The insert of the flight between `before` and `after` has settled.
unfoldable pub settle : Bool → List Flight → Flight → List Flight → Ingestor → Ingestor
unfolding after_insert given_back acknowledged
settle done before f after s = record s {
  buffer = given_back done f s.buffer;
  flights = before ++ (after_insert done f ++ after);
  stored = s.stored ++ acknowledged done f;
}

-- The insert of the flight number `i` has settled, well (`true`) or not.
unfoldable pub settle_from : Bool → ℕ → List Flight → List Flight → Ingestor → Ingestor
settle_from done i before [] s = s
settle_from done zero before (f ∷ after) s = settle done before f after s
settle_from done (suc i) before (f ∷ after) s = settle_from done i (before ++ f ∷ []) after s

unfoldable pub on_settled : Bool → ℕ → Ingestor → Ingestor
on_settled done i s = settle_from done i [] s.flights s

-- `onModuleDestroy`
unfoldable pub shut_down : ℕ → Ingestor → Ingestor
shut_down now s =
    let t = record s { timer = false } in if ltb 0 (length t.buffer) then flush now t else t

-- What happens to the service, in the order in which it happens.
pub data Input : Type 0 where
  pushed : ℕ → RawEvent → Input
  timer_fired : ℕ → Input
  settled : Bool → ℕ → Input
  destroyed : ℕ → Input

unfoldable pub step : Config → Input → Ingestor → Ingestor
step config (pushed now e) s = push_event config now e s
step config (timer_fired now) s = on_timer now s
step config (settled done i) s = on_settled done i s
step config (destroyed now) s = shut_down now s

unfoldable pub run : Config → List Input → Ingestor → Ingestor
run config [] s = s
run config (i ∷ inputs) s = run config inputs (step config i s)

-- The events that were pushed.
unfoldable pub pushes : List Input → List RawEvent
pushes [] = []
pushes (pushed now e ∷ inputs) = e ∷ pushes inputs
pushes (_ ∷ inputs) = pushes inputs
