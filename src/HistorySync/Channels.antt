-- ===== src/HistorySync/Channels.antt =====
-- What a batch of channels gives, and all batches in turn, against what each channel gives.
use mathlib.Core.Path.{subst}
use discord_bot_backend.Prelude.{
  ℕ, zero, suc, ◌≤◌, min, String, Bool, true, Option, ◌≡◌, refl, ◌||◌, ltb, ◌=?◌, List, [], ◌∷◌,
  ◌++◌, map, count, length, All, All-append, ◌⊎◌, Bool-cases, inl, inr, arith,
}
use discord_bot_backend.Ingestor.{RawEvent}
use discord_bot_backend.HistorySync.{DiscordChannel, Message}
use discord_bot_backend.HistorySync.Fetch.{
  Weather, rate_limited, refusing, granting, Progress, Fetched, all_of, thrown, waiting, fetch_loop,
  fetch_messages_for_channel, begin, advance, no_messages, limit_of,
}
use discord_bot_backend.HistorySync.Batches.{slices}
use discord_bot_backend.HistorySync.Coverage.{count_all, count_all-chunks}
use discord_bot_backend.HistorySync.Run.{join_batch, join_sequence, read_channels, at_least_one}
use discord_bot_backend.HistorySync.Fresh.{mentions}

pub Fetched-cases :
    (f : Fetched)
    → ((status : ℕ) × (f ≡ thrown status))
      ⊎ ((p : Progress) × (f ≡ waiting p))
      ⊎ ((events : List RawEvent) × (f ≡ all_of events))
Fetched-cases (thrown status) = inl (status, refl)
Fetched-cases (waiting p) = inr (inl (p, refl))
Fetched-cases (all_of events) = inr (inr (events, refl))

pub mentions-append :
    (id : String) (xs ys : List RawEvent)
    → mentions id (xs ++ ys) ≡ (mentions id xs || mentions id ys)
mentions-append id [] ys = refl
mentions-append id (x ∷ xs) ys = ground (arith, mentions-append id xs ys)

-- The events, where there are any, mention the id.
abbrev pub mentioned : String → Fetched → Bool
mentioned id (thrown status) = true
mentioned id (waiting p) = true
mentioned id (all_of events) = mentions id events

join_pair-mentioned :
    (id : String) (f : Fetched) (results : List Fetched)
    → (mentioned id f || mentioned id (join_batch results)) ≡ true
    → mentioned id (join_batch (f ∷ results)) ≡ true
unfolding join_batch
join_pair-mentioned id (thrown status) results h = refl
join_pair-mentioned id (waiting p) results h = elim (Fetched-cases (join_batch results)) [
  | inl (status, e) ↦ rw e refl
  | inr (inl (q, e)) ↦ rw e refl
  | inr (inr (events, e)) ↦ rw e refl
]
join_pair-mentioned id (all_of xs) results h = elim (Fetched-cases (join_batch results)) [
  | inl (status, e) ↦ rw e refl
  | inr (inl (q, e)) ↦ rw e refl
  | inr (inr (events, e)) ↦ rw e (ground (arith, e, h, mentions-append id xs events))
]

join_step-mentioned :
    (id : String) (f : Fetched) (results : List Fetched)
    → (mentioned id f || mentioned id (join_sequence results)) ≡ true
    → mentioned id (join_sequence (f ∷ results)) ≡ true
unfolding join_sequence
join_step-mentioned id (thrown status) results h = refl
join_step-mentioned id (waiting p) results h = refl
join_step-mentioned id (all_of xs) results h = elim (Fetched-cases (join_sequence results)) [
  | inl (status, e) ↦ rw e refl
  | inr (inl (q, e)) ↦ rw e refl
  | inr (inr (events, e)) ↦ rw e (ground (arith, e, h, mentions-append id xs events))
]

at_least_one-ge : (n : ℕ) → 1 ≤ at_least_one n
at_least_one-ge zero = omega arith
at_least_one-ge (suc n) = omega arith

module _ (fetch : DiscordChannel → Fetched) (id : String) where
  abbrev hits : DiscordChannel → Bool
  hits c = mentioned id (fetch c)

  join_batch-mentioned :
      (batch : List DiscordChannel)
      → 1 ≤ count hits batch
      → mentioned id (join_batch (map fetch batch)) ≡ true
  join_batch-mentioned [] h = absurd (omega arith)
  join_batch-mentioned (c ∷ batch) h = elim (Bool-cases (hits c)) [
    | inl hit ↦ join_pair-mentioned id (fetch c) (map fetch batch) (ground (arith, hit))
    | inr missed ↦
        join_pair-mentioned id (fetch c) (map fetch batch)
          (ground (arith, missed, join_batch-mentioned batch (ground (arith, h, missed))))
  ]

  join_sequence-mentioned :
      (batches : List (List DiscordChannel))
      → 1 ≤ count_all hits batches
      → mentioned id (join_sequence (map (λ batch. join_batch (map fetch batch)) batches)) ≡ true
  join_sequence-mentioned [] h = absurd (omega arith)
  join_sequence-mentioned (batch ∷ batches) h =
      let rest = map (λ batch. join_batch (map fetch batch)) batches in
      elim (Bool-cases (mentioned id (join_batch (map fetch batch)))) [
        | inl hit ↦ join_step-mentioned id (join_batch (map fetch batch)) rest (ground (arith, hit))
        | inr missed ↦
            let none_here : 1 ≤ count hits batch → ⊥ =
              λ s. ground (arith, missed, join_batch-mentioned batch s) in
            join_step-mentioned id (join_batch (map fetch batch)) rest (
              ground
                (arith, missed, join_sequence-mentioned batches (ground (arith, h, none_here))))
      ]

  -- If a channel gives an event with the id, so do all together.
  pub read_channels-mentioned :
      (concurrency : ℕ) (channels : List DiscordChannel)
      → 1 ≤ count hits channels
      → mentioned id (read_channels fetch concurrency channels) ≡ true
  unfolding read_channels
  read_channels-mentioned concurrency channels h =
      let size = at_least_one (min concurrency (length channels)) in
      join_sequence-mentioned (slices size channels) (
        omega (
          arith,
          h,
          count_all-chunks hits (length channels) size channels (at_least_one-ge _) (omega arith),
        ))

-- Every event, where there are any, has a property.
abbrev pub Every : (RawEvent → Type 0) → Fetched → Type 0
Every P (thrown status) = Unit
Every P (waiting p) = Unit
Every P (all_of events) = All P events

module _ (P : RawEvent → Type 0) where
  join_pair-Every :
      (f : Fetched) (results : List Fetched)
      → Every P f
      → Every P (join_batch results)
      → Every P (join_batch (f ∷ results))
  unfolding join_batch
  join_pair-Every (thrown status) results hf h = tt
  join_pair-Every (waiting p) results hf h = elim (Fetched-cases (join_batch results)) [
    | inl (status, e) ↦ rw e tt
    | inr (inl (q, e)) ↦ rw e tt
    | inr (inr (events, e)) ↦ rw e tt
  ]
  join_pair-Every (all_of xs) results hf h = elim (Fetched-cases (join_batch results)) [
    | inl (status, e) ↦ rw e tt
    | inr (inl (q, e)) ↦ rw e tt
    | inr (inr (events, e)) ↦ rw e (All-append P xs events hf (subst (Every P) e h))
  ]

  join_step-Every :
      (f : Fetched) (results : List Fetched)
      → Every P f
      → Every P (join_sequence results)
      → Every P (join_sequence (f ∷ results))
  unfolding join_sequence
  join_step-Every (thrown status) results hf h = tt
  join_step-Every (waiting p) results hf h = tt
  join_step-Every (all_of xs) results hf h = elim (Fetched-cases (join_sequence results)) [
    | inl (status, e) ↦ rw e tt
    | inr (inl (q, e)) ↦ rw e tt
    | inr (inr (events, e)) ↦ rw e (All-append P xs events hf (subst (Every P) e h))
  ]

  module _ (fetch : DiscordChannel → Fetched) (all : (c : DiscordChannel) → Every P (fetch c)) where
    join_batch-Every : (batch : List DiscordChannel) → Every P (join_batch (map fetch batch))
    unfolding join_batch
    join_batch-Every [] = tt
    join_batch-Every (c ∷ batch) =
        join_pair-Every (fetch c) (map fetch batch) (all c) (join_batch-Every batch)

    join_sequence-Every :
        (batches : List (List DiscordChannel))
        → Every P (join_sequence (map (λ batch. join_batch (map fetch batch)) batches))
    unfolding join_sequence
    join_sequence-Every [] = tt
    join_sequence-Every (batch ∷ batches) =
        join_step-Every (join_batch (map fetch batch)) (map (λ b. join_batch (map fetch b)) batches)
          (join_batch-Every batch) (join_sequence-Every batches)

    pub read_channels-Every :
        (concurrency : ℕ) (channels : List DiscordChannel)
        → Every P (read_channels fetch concurrency channels)
    unfolding read_channels
    read_channels-Every concurrency channels =
        join_sequence-Every (slices (at_least_one (min concurrency (length channels))) channels)

  module _ (page : ℕ → Option String → List Message) (event : Message → RawEvent) (depth : ℕ)
      (made : (m : Message) → P (event m)) where
    map-All : (messages : List Message) → All P (map event messages)
    map-All [] = tt
    map-All (m ∷ messages) = (made m, map-All messages)

    advance-All :
        (messages : List Message) (p : Progress)
        → All P p.events
        → All P (advance page event depth messages p).events
    unfolding advance
    advance-All messages p h = All-append P p.events (map event messages) h (map-All messages)

    fetch_loop-Every :
        (weather : List Weather) (p : Progress)
        → All P p.events
        → Every P (fetch_loop page event depth weather p)
    unfolding fetch_loop
    fetch_loop-Every [] p h = elim (Bool-cases (ltb p.fetched depth)) [
      | inl more ↦ rw more tt
      | inr over ↦ rw over h
    ]
    fetch_loop-Every (rate_limited ∷ weather) p h = elim (Bool-cases (ltb p.fetched depth)) [
      | inl more ↦ rw (more, fetch_loop) (fetch_loop-Every weather p h)
      | inr over ↦ rw (over, fetch_loop) h
    ]
    fetch_loop-Every (refusing status ∷ weather) p h = elim (Bool-cases (ltb p.fetched depth)) [
      | inr over ↦ rw over h
      | inl more ↦ elim (Bool-cases (status =? 403 || status =? 404)) [
        | inl closed ↦ rw (more, closed) h
        | inr bad ↦ rw (more, bad) tt
      ]
    ]
    fetch_loop-Every (granting ∷ weather) p h =
        let n = limit_of page event depth p in
        let messages = page n p.before in
        let next = advance-All messages p h in
        elim (Bool-cases (ltb p.fetched depth)) [
          | inr over ↦ rw (over, fetch_loop) h
          | inl more ↦ elim (Bool-cases (no_messages messages)) [
            | inl nothing ↦ rw (more, nothing, fetch_loop) h
            | inr some_sent ↦ elim (Bool-cases (ltb (length messages) n)) [
              | inl short ↦ rw (more, some_sent, short, fetch_loop) next
              | inr full ↦
                  rw (more, some_sent, full, fetch_loop)
                    (fetch_loop-Every weather (advance page event depth messages p) next)
            ]
          ]
        ]

    -- The events of a channel are made of messages.
    pub fetch_messages_for_channel-Every :
        (weather : List Weather) → Every P (fetch_messages_for_channel page event depth weather)
    unfolding fetch_messages_for_channel
    fetch_messages_for_channel-Every weather = fetch_loop-Every weather begin tt
