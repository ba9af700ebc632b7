-- ===== src/Ingestor/Accounting.antt =====
-- clickhouse-ingestor.service.ts: where the pushed events are, over any inputs.
use mathlib.Core.List.{append_assoc}
use discord_bot_backend.Prelude.{
  ℕ, zero, suc, ◌+◌, Bool, true, false, ◌≡◌, refl, ap, sym, ◌∙◌, List, [], ◌∷◌, ◌++◌, arith,
  Bool-cases, inl, inr, if◌then◌else◌, ◌=?◌, length, leb, ltb, ◌||◌, ◌-◌, ◌&&◌,
}
use discord_bot_backend.Ingestor.{RawEvent}
use discord_bot_backend.Ingestor.Buffer.{
  Flight, Config, Ingestor, init, flush, push_event, on_timer, unshift_all, settle, settle_from,
  on_settled, shut_down, Input, pushed, timer_fired, settled, destroyed, step, run, pushes,
  max_insert_retries, next_delay, is_nil,
}

module _ (p : RawEvent → Bool) where
  -- How many of the events pass the test.
  abbrev pub count : List RawEvent → ℕ
  count [] = 0
  count (e ∷ es) = (if p e then 1 else 0) + count es

  abbrev pub count_flights : List Flight → ℕ
  count_flights [] = 0
  count_flights (f ∷ fs) = count f.batch + count_flights fs

  abbrev pub held : Ingestor → ℕ
  held s = count s.stored + count_flights s.flights + count s.buffer

  count-append : (xs ys : List RawEvent) → count (xs ++ ys) ≡ count xs + count ys
  count-append [] ys = omega arith
  count-append (x ∷ xs) ys = omega (arith, count-append xs ys)

  count_flights-append :
      (xs ys : List Flight) → count_flights (xs ++ ys) ≡ count_flights xs + count_flights ys
  count_flights-append [] ys = omega arith
  count_flights-append (x ∷ xs) ys = omega (arith, count_flights-append xs ys)

  count-unshift_all : (xs ys : List RawEvent) → count (unshift_all xs ys) ≡ count xs + count ys
  unfolding unshift_all
  count-unshift_all [] ys = omega arith
  count-unshift_all (x ∷ xs) ys = omega (arith, count-unshift_all xs (x ∷ ys))

  flush-held : (now : ℕ) (s : Ingestor) → held (flush now s) ≡ held s
  unfolding flush
  flush-held now s = elim (Bool-cases (is_nil s.buffer)) [
    | inl e ↦ rw e
    | inr e ↦ rw e (
        omega (
          arith,
          count_flights-append s.flights
              (record { batch = s.buffer; attempt = 1; delay = 1000 } ∷ []),
        ))
  ]

  push_event-held :
      (config : Config) (now : ℕ) (e : RawEvent) (s : Ingestor)
      → held (push_event config now e s) ≡ held s + (if p e then 1 else 0)
  unfolding push_event
  push_event-held config now e s =
      let t = record s { buffer = s.buffer ++ e ∷ [] } in
      let more = count-append s.buffer (e ∷ []) in
      elim (Bool-cases (
        leb config.batch_size (length t.buffer)
        || (ltb 0 (length t.buffer) && leb config.batch_interval_ms (now - t.last_flush_at)))) [
          | inl due ↦ rw due (omega (arith, flush-held now t, more))
          | inr wait ↦ rw wait (omega (arith, more))
        ]

  on_timer-held : (now : ℕ) (s : Ingestor) → held (on_timer now s) ≡ held s
  unfolding on_timer
  on_timer-held now s = elim (Bool-cases (s.timer && ltb 0 (length s.buffer))) [
    | inl due ↦ rw due (flush-held now s)
    | inr idle ↦ rw idle
  ]

  shut_down-held : (now : ℕ) (s : Ingestor) → held (shut_down now s) ≡ held s
  unfolding shut_down
  shut_down-held now s = elim (Bool-cases (ltb 0 (length s.buffer))) [
    | inl due ↦ rw due (flush-held now (record s { timer = false }))
    | inr idle ↦ rw idle
  ]

  settle-held :
      (done : Bool) (before : List Flight) (f : Flight) (after : List Flight) (s : Ingestor)
      → s.flights ≡ before ++ f ∷ after
      → held (settle done before f after s) ≡ held s
  unfolding settle
  settle-held true before f after s e = omega (
    arith,
    ap count_flights e,
    count_flights-append before (f ∷ after),
    count_flights-append before after,
    count-append s.stored f.batch,
  )
  settle-held false before f after s e = elim (Bool-cases (f.attempt =? max_insert_retries)) [
    | inl last ↦ rw last (
        omega (
          arith,
          ap count_flights e,
          count_flights-append before (f ∷ after),
          count_flights-append before after,
          count-unshift_all f.batch s.buffer,
          count-append s.stored [],
        ))
    | inr again ↦ rw again (
        omega (
          arith,
          ap count_flights e,
          count_flights-append before (f ∷ after),
          count_flights-append before
              (record f { attempt = f.attempt + 1; delay = next_delay f.delay } ∷ after),
          count-append s.stored [],
        ))
  ]

  settle_from-held :
      (done : Bool) (i : ℕ) (before rest : List Flight) (s : Ingestor)
      → s.flights ≡ before ++ rest
      → held (settle_from done i before rest s) ≡ held s
  unfolding settle_from
  settle_from-held done i before [] s e = refl
  settle_from-held done zero before (f ∷ after) s e = settle-held done before f after s e
  settle_from-held done (suc i) before (f ∷ after) s e =
      settle_from-held done i (before ++ f ∷ []) after s
        (e ∙ sym (append_assoc before (f ∷ []) after))

  -- The weight of an input: the event that it pushes.
  step-held :
      (config : Config) (i : Input) (s : Ingestor)
      → held (step config i s) ≡ held s + count (pushes (i ∷ []))
  unfolding step pushes on_settled
  step-held config (pushed now e) s = omega (arith, push_event-held config now e s)
  step-held config (timer_fired now) s = omega (arith, on_timer-held now s)
  step-held config (settled done i) s = omega (arith, settle_from-held done i [] s.flights s refl)
  step-held config (destroyed now) s = omega (arith, shut_down-held now s)

  count-pushes :
      (i : Input) (inputs : List Input)
      → count (pushes (i ∷ inputs)) ≡ count (pushes (i ∷ [])) + count (pushes inputs)
  unfolding pushes
  count-pushes (pushed now e) inputs = omega arith
  count-pushes _ inputs = omega arith

  run-held :
      (config : Config) (inputs : List Input) (s : Ingestor)
      → held (run config inputs s) ≡ held s + count (pushes inputs)
  unfolding run pushes
  run-held config [] s = omega arith
  run-held config (i ∷ inputs) s =
      omega (
        arith,
        run-held config inputs (step config i s),
        step-held config i s,
        count-pushes i inputs,
      )

  -- From its start, through any sequence of pushes, timers, settled inserts and shutdowns, the service
  -- holds each pushed event exactly as often as it was pushed: for every test on events, those that
  -- ClickHouse acknowledged, those in flight and those in the buffer number together the pushed ones.
  pub run-accounts :
      (config : Config) (start : ℕ) (inputs : List Input)
      → let s = run config inputs (init start) in
        count s.stored + count_flights s.flights + count s.buffer ≡ count (pushes inputs)
  unfolding init
  run-accounts config start inputs = omega (arith, run-held config inputs (init start))
