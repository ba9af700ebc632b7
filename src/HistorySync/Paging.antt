-- ===== src/HistorySync/Paging.antt =====
-- The loop of `fetchMessagesForChannel` against the messages of the channel.
use mathlib.Core.List.{append_assoc, map-append, append-nil}
use discord_bot_backend.Prelude.{
  ℕ, suc, ◌+◌, ◌*◌, ◌≤◌, String, false, Option, none, some, ◌≡◌, refl, ap, sym, ◌∙◌, ltb, List, [],
  ◌∷◌, ◌++◌, map, length, take, drop, take-append-drop, take-all, take-prefix, take-nil, drop-all,
  List-cases, length-take, length-append, Bool-cases, inl, inr, arith,
}
use discord_bot_backend.Ingestor.{RawEvent}
use discord_bot_backend.HistorySync.{Message}
use discord_bot_backend.HistorySync.Fetch.{
  Weather, rate_limited, refusing, granting, Progress, all_of, last_id, begin, limit_of, advance,
  fetch_loop, fetch_messages_for_channel,
}

-- What Discord documents of a channel's messages: the newest first, and those before a given one.
pub record Serves (page : ℕ → Option String → List Message) (history : List Message) : Type 0 where
  pub first : (n : ℕ) → page n none ≡ take n history
  pub next :
      (n : ℕ) (newer : List Message) (m : Message) (older : List Message)
      → history ≡ newer ++ m ∷ older
      → page n (some m.id) ≡ take n older

-- No request is refused for good.
abbrev pub IsCalm : List Weather → Type 0
IsCalm [] = Unit
IsCalm (rate_limited ∷ weather) = IsCalm weather
IsCalm (refusing status ∷ weather) = ⊥
IsCalm (granting ∷ weather) = IsCalm weather

abbrev pub granted : List Weather → ℕ
granted [] = 0
granted (granting ∷ weather) = suc (granted weather)
granted (rate_limited ∷ weather) = granted weather
granted (refusing status ∷ weather) = granted weather

last_id-split :
    (before : Option String) (m : Message) (messages : List Message)
    → (init : List Message) × (l : Message) × (m ∷ messages ≡ init ++ l ∷ [])
      × (last_id before (m ∷ messages) ≡ some l.id)
last_id-split before m [] = ([], m, refl, refl)
last_id-split before m (n ∷ messages) =
    let (init, l, e, f) = last_id-split (some m.id) n messages in
    (m ∷ init, l, ap (λ ms. m ∷ ms) e, f)

module _ (page : ℕ → Option String → List Message) (event : Message → RawEvent) (depth : ℕ)
    (history : List Message) where
  -- The loop has seen the newest messages, and the server goes on with the rest.
  record Reading (seen rest : List Message) (p : Progress) : Type 0 where
    whole : history ≡ seen ++ rest
    counted : p.fetched ≡ length seen
    bounded : length seen ≤ depth
    made : p.events ≡ map event seen
    goes_on : (n : ℕ) → page n p.before ≡ take n rest

  begin-Reading : Serves page history → Reading [] history begin
  begin-Reading s = record {
    whole = refl;
    counted = refl;
    bounded = omega arith;
    made = refl;
    goes_on = s.first;
  }

  -- Nothing is left in the channel.
  at_end :
      (seen rest : List Message) (p : Progress)
      → Reading seen rest p
      → rest ≡ []
      → p.events ≡ map event (take depth history)
  at_end seen rest p r e =
      let all : history ≡ seen = r.whole ∙ ap (λ ms. seen ++ ms) e ∙ append-nil seen in
      r.made
      ∙ ap (map event)
          (sym all ∙ sym (take-all depth history (omega (arith, ap length all, r.bounded))))

  -- The scan is as deep as it may be.
  at_depth :
      (seen rest : List Message) (p : Progress)
      → Reading seen rest p
      → depth ≤ p.fetched
      → p.events ≡ map event (take depth history)
  at_depth seen rest p r h =
      r.made
      ∙ ap (map event) (
          sym (
            ap (take depth) r.whole
            ∙ take-prefix depth seen rest (omega (arith, r.counted, r.bounded))))

  advance-fetched :
      (messages : List Message) (p : Progress)
      → (advance page event depth messages p).fetched ≡ p.fetched + length messages
  unfolding advance
  advance-fetched messages p = refl

  advance-Reading :
      (seen rest : List Message) (p : Progress) (n : ℕ) (m : Message) (messages : List Message)
      → Serves page history
      → Reading seen rest p
      → n + p.fetched ≤ depth
      → take n rest ≡ m ∷ messages
      → Reading (seen ++ m ∷ messages) (drop n rest) (advance page event depth (m ∷ messages) p)
  unfolding advance
  advance-Reading seen rest p n m messages s r room e =
      let (init, l, split, last) = last_id-split p.before m messages in
      let whole : history ≡ (seen ++ m ∷ messages) ++ drop n rest =
        r.whole
        ∙ ap (λ ms. seen ++ ms) (sym (take-append-drop n rest) ∙ ap (λ ms. ms ++ drop n rest) e)
        ∙ sym (append_assoc seen (m ∷ messages) (drop n rest)) in
      let placed : history ≡ (seen ++ init) ++ l ∷ drop n rest =
        whole ∙ ap (λ ms. (seen ++ ms) ++ drop n rest) split ∙ simp append_assoc in
      let grown = length-append seen (m ∷ messages) in
      record {
        whole = whole;
        counted = omega (arith, r.counted, grown);
        bounded = omega (arith, r.counted, grown, ap length e, length-take n rest, room);
        made =
            ap (λ es. es ++ map event (m ∷ messages)) r.made
            ∙ sym (map-append event seen (m ∷ messages));
        goes_on = λ k. ap (page k) last ∙ s.next k (seen ++ init) l (drop n rest) placed;
      }

  loop_complete :
      (weather : List Weather) (seen rest : List Message) (p : Progress)
      → Serves page history
      → Reading seen rest p
      → IsCalm weather
      → depth ≤ p.fetched + 100 * granted weather
      → fetch_loop page event depth weather p ≡ all_of (map event (take depth history))
  unfolding fetch_loop
  loop_complete [] seen rest p s r calm enough =
      let over : ltb p.fetched depth ≡ false = ground (arith, enough) in
      rw over (ap all_of (at_depth seen rest p r (omega (arith, enough))))
  loop_complete (rate_limited ∷ weather) seen rest p s r calm enough =
      elim (Bool-cases (ltb p.fetched depth)) [
        | inl more ↦ rw (more, fetch_loop) (loop_complete weather seen rest p s r calm enough)
        | inr over ↦
            rw (over, fetch_loop) (ap all_of (at_depth seen rest p r (ground (arith, over))))
      ]
  loop_complete (refusing status ∷ weather) seen rest p s r calm enough = absurd calm
  loop_complete (granting ∷ weather) seen rest p s r calm enough =
      elim (Bool-cases (ltb p.fetched depth)) [
        | inr over ↦
            rw (over, fetch_loop) (ap all_of (at_depth seen rest p r (ground (arith, over))))
        | inl more ↦
            let n = limit_of page event depth p in
            let sent = r.goes_on n in
            elim (List-cases (take n rest)) [
              | inl nothing ↦
                  let empty : page n p.before ≡ [] = sent ∙ nothing in
                  rw (more, fetch_loop)
                    (rw empty (
                      ap all_of
                        (at_end seen rest p r (take-nil n rest (ground (arith, more)) nothing))))
              | inr (m, messages, some_sent) ↦
                  let some_page : page n p.before ≡ m ∷ messages = sent ∙ some_sent in
                  let next =
                    advance-Reading seen rest p n m messages s r (ground (arith, more)) some_sent in
                  elim (Bool-cases (ltb (length (m ∷ messages)) n)) [
                    | inl short ↦
                        rw (more, fetch_loop)
                          (rw (some_page, short)
                            (ap all_of (
                              at_end (seen ++ m ∷ messages) (drop n rest)
                                (advance page event depth (m ∷ messages) p) next
                                (drop-all n rest (
                                  ground
                                    (arith, short, ap length some_sent, length-take n rest))))))
                    | inr full ↦
                        rw (more, fetch_loop)
                          (rw (some_page, full)
                            (loop_complete weather (seen ++ m ∷ messages) (drop n rest)
                              (advance page event depth (m ∷ messages) p) s next calm
                              (ground (arith, full, enough, advance-fetched (m ∷ messages) p))))
                  ]
            ]
      ]

  -- Where no request is refused, the loop over a channel makes the events of its newest messages, as
  -- many as the depth of the scan allows, whatever the order in which requests are rate limited; one
  -- granted request for each hundred messages of the depth is enough for it to end.
  pub fetch_messages_for_channel_complete :
      (weather : List Weather)
      → Serves page history
      → IsCalm weather
      → depth ≤ 100 * granted weather
      → fetch_messages_for_channel page event depth weather
        ≡ all_of (map event (take depth history))
  unfolding fetch_messages_for_channel
  fetch_messages_for_channel_complete weather s calm enough =
      loop_complete weather [] history begin s (begin-Reading s) calm (omega (arith, enough))
