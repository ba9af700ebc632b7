-- ===== src/HistorySync/Fresh.antt =====
-- Which events `run` takes for new, counted by the id of their message.
use discord_bot_backend.Prelude.{
  ℕ, suc, ◌+◌, ◌≤◌, String, Bool, true, false, Option, none, some, ◌≡◌, refl, ap, sym, ◌∙◌, ◌==◌,
  ◌&&◌, ◌||◌, ltb, eq_iff, List, [], ◌∷◌, ◌++◌, map, count, count-append, All, Bool-cases,
  Option-cases, inl, inr, if◌then◌else◌, arith,
}
use discord_bot_backend.Ingestor.{RawEvent, Enrichment}
use discord_bot_backend.Ingestor.Row.{Row}
use discord_bot_backend.HistorySync.Batches.{history_row}
use discord_bot_backend.HistorySync.Coverage.{count_all}
use discord_bot_backend.HistorySync.Run.{
  message_id, contains, existing_ids, new_events, enriched, insert_all,
}

-- Whether the payload is that of the message with an id.
abbrev pub is_id : String → Option String → Bool
is_id id none = false
is_id id (some other) = other == id

-- A stored message of the guild with the id.
abbrev pub is_message : String → String → Row → Bool
is_message guild id r =
    (r.guild_id == guild && r.event_type == "MESSAGE_CREATE") && is_id id (message_id r.payload)

abbrev pub copies : String → String → List Row → ℕ
copies guild id rows = count (is_message guild id) rows

abbrev pub mentions : String → List RawEvent → Bool
mentions id [] = false
mentions id (e ∷ events) = is_id id (message_id e.payload) || mentions id events

abbrev pub once : Bool → ℕ
once true = 1
once false = 0

pub contains-existing_ids :
    (guild id : String) (rows : List Row)
    → contains id (existing_ids guild rows) ≡ ltb 0 (copies guild id rows)
unfolding existing_ids
contains-existing_ids guild id [] = refl
contains-existing_ids guild id (r ∷ rows) = elim (Option-cases (message_id r.payload)) [
  | inl e ↦ ground (arith, e, contains-existing_ids guild id rows)
  | inr (m, e) ↦ ground (arith, e, contains-existing_ids guild id rows)
]

pub count-new_events :
    (id : String) (seen : List String) (events : List RawEvent)
    → count (λ e. is_id id (message_id e.payload)) (new_events seen events)
      ≡ (if contains id seen then 0 else once (mentions id events))
unfolding new_events
count-new_events id seen [] = ground arith
count-new_events id seen (e ∷ events) = elim (Option-cases (message_id e.payload)) [
  | inl none' ↦ ground (arith, none', count-new_events id seen events)
  | inr (m, some') ↦ elim (Bool-cases (contains m seen)) [
    | inl met ↦ elim (Bool-cases (m == id)) [
      | inl same ↦
          let found : contains id seen ≡ true =
            ap (λ i. contains i seen) (sym ((eq_iff m id).0 same)) ∙ met in
          ground (arith, some', met, found, count-new_events id seen events)
      | inr other ↦ ground (arith, some', met, other, count-new_events id seen events)
    ]
    | inr new ↦ elim (Bool-cases (m == id)) [
      | inl same ↦
          let missed : contains id seen ≡ false =
            ap (λ i. contains i seen) (sym ((eq_iff m id).0 same)) ∙ new in
          ground (arith, some', new, same, missed, count-new_events id (m ∷ seen) events)
      | inr other ↦ ground (arith, some', new, other, count-new_events id (m ∷ seen) events)
    ]
  ]
]

-- The event of a message of the guild.
abbrev pub IsMessageOf : String → RawEvent → Type 0
IsMessageOf guild e = (e.guild_id ≡ guild) × (e.event_type ≡ "MESSAGE_CREATE")

pub new_events-All :
    (P : RawEvent → Type 0) (seen : List String) (events : List RawEvent)
    → All P events
    → All P (new_events seen events)
unfolding new_events
new_events-All P seen [] h = tt
new_events-All P seen (e ∷ events) (he, h) = elim (Option-cases (message_id e.payload)) [
  | inl none' ↦ rw (none', new_events) (new_events-All P seen events h)
  | inr (m, some') ↦ elim (Bool-cases (contains m seen)) [
    | inl met ↦ rw (some', met, new_events) (new_events-All P seen events h)
    | inr new ↦ rw (some', new, new_events) (he, new_events-All P (m ∷ seen) events h)
  ]
]

module _ (digest : String → String) (salt : String) (now : ℕ) (enrichment : Enrichment) where
  -- The rows that `run` makes of events.
  abbrev pub rows_of : List RawEvent → List Row
  rows_of events = map (history_row digest salt now) (map (enriched enrichment) events)

  pub copies-rows_of-le :
      (guild id : String) (events : List RawEvent)
      → copies guild id (rows_of events) ≤ count (λ e. is_id id (message_id e.payload)) events
  unfolding history_row
  copies-rows_of-le guild id [] = omega arith
  copies-rows_of-le guild id (e ∷ events) = ground (arith, copies-rows_of-le guild id events)

  pub copies-rows_of :
      (guild id : String) (events : List RawEvent)
      → All (IsMessageOf guild) events
      → copies guild id (rows_of events) ≡ count (λ e. is_id id (message_id e.payload)) events
  unfolding history_row
  copies-rows_of guild id [] h = refl
  copies-rows_of guild id (e ∷ events) ((g, t), h) =
      let same : (e.guild_id == guild) ≡ true = (eq_iff e.guild_id guild).1 g in
      let kind : (e.event_type == "MESSAGE_CREATE") ≡ true =
        (eq_iff e.event_type "MESSAGE_CREATE").1 t in
      ground (arith, same, kind, copies-rows_of guild id events h)

module _ (p : Row → Bool) (accepted : ℕ → Bool) where
  pub insert_all-ge :
      (i : ℕ) (batches : List (List Row)) (stored : List Row)
      → count p stored ≤ count p (insert_all accepted i batches stored).1
  unfolding insert_all
  insert_all-ge i [] stored = omega arith
  insert_all-ge i (rows ∷ batches) stored = elim (Bool-cases (accepted i)) [
    | inl taken ↦
        rw (taken, insert_all)
          (omega
            (arith, insert_all-ge (suc i) batches (stored ++ rows), count-append p stored rows))
    | inr refused ↦ rw (refused, insert_all) (omega arith)
  ]

  pub insert_all-le :
      (i : ℕ) (batches : List (List Row)) (stored : List Row)
      → count p (insert_all accepted i batches stored).1 ≤ count p stored + count_all p batches
  unfolding insert_all
  insert_all-le i [] stored = omega arith
  insert_all-le i (rows ∷ batches) stored = elim (Bool-cases (accepted i)) [
    | inl taken ↦
        rw (taken, insert_all)
          (omega
            (arith, insert_all-le (suc i) batches (stored ++ rows), count-append p stored rows))
    | inr refused ↦ rw (refused, insert_all) (omega arith)
  ]

  pub insert_all-taken :
      (i : ℕ) (batches : List (List Row)) (stored : List Row)
      → (insert_all accepted i batches stored).0 ≡ true
      → count p (insert_all accepted i batches stored).1 ≡ count p stored + count_all p batches
  unfolding insert_all
  insert_all-taken i [] stored h = omega arith
  insert_all-taken i (rows ∷ batches) stored h = elim (Bool-cases (accepted i)) [
    | inl taken ↦
        let h' : (insert_all accepted (suc i) batches (stored ++ rows)).0 ≡ true =
          ground (arith, taken, h) in
        rw (taken, insert_all)
          (omega (
            arith,
            insert_all-taken (suc i) batches (stored ++ rows) h',
            count-append p stored rows,
          ))
    | inr refused ↦ absurd (ground (arith, refused, h))
  ]
