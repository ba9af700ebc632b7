-- ===== src/Ingestor/Retries.antt =====
-- clickhouse-ingestor.service.ts: the attempts of a flush, and a batch that is given up.
use mathlib.Core.List.{append_assoc, append-nil, reverse-cons}
use discord_bot_backend.Prelude.{
  ℕ, zero, suc, ◌+◌, ◌-◌, ◌≤◌, ◌<◌, Bool, true, false, ◌≡◌, ◌≢◌, refl, ap, ◌∙◌, List, [], ◌∷◌, ◌++◌,
  arith, Bool-cases, inl, inr, ◌=?◌, length, leb, ltb, ◌||◌, ◌&&◌, reverse, All, All-append,
}
use discord_bot_backend.Ingestor.{RawEvent}
use discord_bot_backend.Ingestor.Buffer.{
  Flight, Config, Ingestor, init, flush, push_event, on_timer, unshift_all, after_insert, settle,
  settle_from, on_settled, shut_down, Input, pushed, timer_fired, settled, destroyed, step, run,
  max_insert_retries, next_delay, is_nil,
}

-- The sleeps of a flush, by the attempt that they follow; none follows the fifth.
abbrev pub delay_after : ℕ → ℕ
delay_after zero = 0
delay_after (suc zero) = 1000
delay_after (suc (suc zero)) = 1500
delay_after (suc (suc (suc zero))) = 2250
delay_after (suc (suc (suc (suc zero)))) = 3375
delay_after (suc (suc (suc (suc (suc n))))) = 5062

pub record IsTimely (f : Flight) : Type 0 where
  pub started : 1 ≤ f.attempt
  pub bounded : f.attempt ≤ max_insert_retries
  pub paced : f.delay ≡ delay_after f.attempt
  pub full : f.batch ≢ []

next-IsTimely :
    (f : Flight)
    → IsTimely f
    → (f.attempt =? max_insert_retries) ≡ false
    → IsTimely (record f { attempt = f.attempt + 1; delay = next_delay f.delay })
next-IsTimely f h e = record {
  started = omega arith;
  bounded = ground arith;
  paced = go f.attempt (ground arith) (ground arith) f.delay h.paced;
  full = h.full;
}
  where
    go : (n : ℕ) → 1 ≤ n → n < 5 → (d : ℕ) → d ≡ delay_after n → next_delay d ≡ delay_after (n + 1)
    go zero a b d p = absurd (omega arith)
    go (suc zero) a b d p = rw p refl
    go (suc (suc zero)) a b d p = rw p refl
    go (suc (suc (suc zero))) a b d p = rw p refl
    go (suc (suc (suc (suc zero)))) a b d p = rw p refl
    go (suc (suc (suc (suc (suc n))))) a b d p = absurd (omega arith)

flush-IsTimely :
    (now : ℕ) (s : Ingestor) → All IsTimely s.flights → All IsTimely (flush now s).flights
unfolding flush
flush-IsTimely now s h = elim (Bool-cases (is_nil s.buffer)) [
  | inl e ↦ rw e h
  | inr e ↦ rw e (
      All-append IsTimely s.flights _ h (
        record { started = omega arith; bounded = omega arith; paced = refl; full = ground arith },
        tt,
      ))
]

after_insert-IsTimely : (done : Bool) (f : Flight) → IsTimely f → All IsTimely (after_insert done f)
unfolding after_insert
after_insert-IsTimely true f h = tt
after_insert-IsTimely false f h = elim (Bool-cases (f.attempt =? max_insert_retries)) [
  | inl e ↦ rw e tt
  | inr e ↦ rw e (next-IsTimely f h e, tt)
]

settle_from-IsTimely :
    (done : Bool) (i : ℕ) (before rest : List Flight) (s : Ingestor)
    → All IsTimely before
    → All IsTimely rest
    → All IsTimely s.flights
    → All IsTimely (settle_from done i before rest s).flights
unfolding settle_from settle
settle_from-IsTimely done i before [] s hb hr h = h
settle_from-IsTimely done zero before (f ∷ after) s hb hr h =
    All-append IsTimely before _ hb
      (All-append IsTimely (after_insert done f) after (after_insert-IsTimely done f hr.0) hr.1)
settle_from-IsTimely done (suc i) before (f ∷ after) s hb hr h =
    settle_from-IsTimely done i (before ++ f ∷ []) after s
      (All-append IsTimely before (f ∷ []) hb (hr.0, tt)) hr.1 h

step-IsTimely :
    (config : Config) (i : Input) (s : Ingestor)
    → All IsTimely s.flights
    → All IsTimely (step config i s).flights
unfolding step push_event on_timer on_settled shut_down
step-IsTimely config (pushed now e) s h =
    let t = record s { buffer = s.buffer ++ e ∷ [] } in
    elim (Bool-cases (
      leb config.batch_size (length t.buffer)
      || (ltb 0 (length t.buffer) && leb config.batch_interval_ms (now - t.last_flush_at)))) [
        | inl due ↦ rw due (flush-IsTimely now t h)
        | inr wait ↦ rw wait h
      ]
step-IsTimely config (timer_fired now) s h =
    elim (Bool-cases (s.timer && ltb 0 (length s.buffer))) [
      | inl due ↦ rw due (flush-IsTimely now s h)
      | inr idle ↦ rw idle h
    ]
step-IsTimely config (settled done i) s h = settle_from-IsTimely done i [] s.flights s tt h h
step-IsTimely config (destroyed now) s h = elim (Bool-cases (ltb 0 (length s.buffer))) [
  | inl due ↦ rw due (flush-IsTimely now (record s { timer = false }) h)
  | inr idle ↦ rw idle h
]

run_from-IsTimely :
    (config : Config) (inputs : List Input) (s : Ingestor)
    → All IsTimely s.flights
    → All IsTimely (run config inputs s).flights
unfolding run
run_from-IsTimely config [] s h = h
run_from-IsTimely config (i ∷ inputs) s h =
    run_from-IsTimely config inputs (step config i s) (step-IsTimely config i s h)

-- Whatever happens, each batch in flight is not empty and in its first to fifth attempt, and its
-- sleeps are 1000, 1500, 2250 and 3375 ms, so that the cap of 30 seconds is never met.
pub run-IsTimely :
    (config : Config) (start : ℕ) (inputs : List Input)
    → All IsTimely (run config inputs (init start)).flights
unfolding init
run-IsTimely config start inputs = run_from-IsTimely config inputs (init start) tt

unshift_all_lem :
    (batch buffer : List RawEvent) → unshift_all batch buffer ≡ reverse batch ++ buffer
unfolding unshift_all
unshift_all_lem [] buffer = refl
unshift_all_lem (e ∷ batch) buffer =
    unshift_all_lem batch (e ∷ buffer) ∙ simp (reverse-cons, append_assoc)

settle_from-at :
    (done : Bool) (seen before after : List Flight) (f : Flight) (s : Ingestor)
    → settle_from done (length before) seen (before ++ f ∷ after) s
      ≡ settle done (seen ++ before) f after s
unfolding settle_from
settle_from-at done seen [] after f s = rw append-nil
settle_from-at done seen (g ∷ before) after f s =
    settle_from-at done (seen ++ g ∷ []) before after f s ∙ rw append_assoc

settle_last :
    (before after : List Flight) (f : Flight) (s : Ingestor)
    → f.attempt ≡ max_insert_retries
    → settle false before f after s
      ≡ record s { buffer = reverse f.batch ++ s.buffer; flights = before ++ after }
unfolding settle
settle_last before after f s last =
    let test : (f.attempt =? max_insert_retries) ≡ true = ground arith in
    simp (test, unshift_all_lem f.batch s.buffer, append-nil)

-- A batch whose insert fails for the fifth time goes back in front of the buffer in reverse order,
-- and nothing of it is stored.
pub on_settled-gives_up :
    (before after : List Flight) (f : Flight) (s : Ingestor)
    → s.flights ≡ before ++ f ∷ after
    → f.attempt ≡ max_insert_retries
    → on_settled false (length before) s
      ≡ record s { buffer = reverse f.batch ++ s.buffer; flights = before ++ after }
unfolding on_settled
on_settled-gives_up before after f s e last =
    ap (λ fs. settle_from false (length before) [] fs s) e
    ∙ settle_from-at false [] before after f s
    ∙ settle_last before after f s last
