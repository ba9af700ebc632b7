-- ===== src/HistorySync/Coverage.antt =====
-- The inserts of `insertEvents` against the rows.
use discord_bot_backend.Prelude.{
  ℕ, zero, suc, ◌+◌, ◌≤◌, Bool, ◌≡◌, refl, ap, ◌=?◌, List, [], ◌∷◌, ◌++◌, length, take, drop,
  take-append-drop, length-take, length-drop, count, count-append, All, All-append, Bool-cases, inl,
  inr, if◌then◌else◌, arith,
}
use discord_bot_backend.Ingestor.Row.{Row}
use discord_bot_backend.HistorySync.Batches.{
  clickhouse_insert_chunk_size, get_week_start_key, Weeks, add_row, group_rows, chunks, slices,
  week_inserts, inserts,
}

module _ {ℓ} {A : Type ℓ} (p : A → Bool) where
  -- How many items of a list of lists pass a test.
  abbrev pub count_all : List (List A) → ℕ
  count_all [] = 0
  count_all (xs ∷ xss) = count p xs + count_all xss

  pub count_all-append :
      (xs ys : List (List A)) → count_all (xs ++ ys) ≡ count_all xs + count_all ys
  count_all-append [] ys = omega arith
  count_all-append (x ∷ xs) ys = omega (arith, count_all-append xs ys)

  pub count_all-chunks :
      (rounds size : ℕ) (xs : List A)
      → 1 ≤ size
      → length xs ≤ rounds
      → count_all (chunks rounds size xs) ≡ count p xs
  unfolding chunks
  count_all-chunks zero size [] h enough = refl
  count_all-chunks zero size (x ∷ xs) h enough = absurd (omega arith)
  count_all-chunks (suc rounds) size [] h enough = refl
  count_all-chunks (suc rounds) size (x ∷ xs) h enough =
      let split = take-append-drop size (x ∷ xs) in
      omega (
        arith,
        count_all-chunks rounds size (drop size (x ∷ xs)) h
            (omega (arith, length-drop size (x ∷ xs), h, enough)),
        ap (count p) split,
        count-append p (take size (x ∷ xs)) (drop size (x ∷ xs)),
      )

-- An insert as ClickHouse takes it: not empty, of a bounded size, and of rows of one week.
pub record IsInsert (rows : List Row) : Type 0 where
  pub some_rows : 1 ≤ length rows
  pub small : length rows ≤ clickhouse_insert_chunk_size
  pub week : ℕ
  pub one_week : All (λ r. get_week_start_key r.event_time ≡ week) rows

abbrev InWeek : ℕ → List Row → Type 0
InWeek week rows = All (λ r. get_week_start_key r.event_time ≡ week) rows

abbrev IsGrouped : Weeks → Type 0
IsGrouped weeks = All (λ w. InWeek w.0 w.1) weeks

pub All-take {ℓ κ} :
    {A : Type ℓ} (P : A → Type κ) (n : ℕ) (xs : List A) → All P xs → All P (take n xs)
All-take P zero xs h = tt
All-take P (suc n) [] h = tt
All-take P (suc n) (x ∷ xs) h = (h.0, All-take P n xs h.1)

pub All-drop {ℓ κ} :
    {A : Type ℓ} (P : A → Type κ) (n : ℕ) (xs : List A) → All P xs → All P (drop n xs)
All-drop P zero xs h = h
All-drop P (suc n) [] h = tt
All-drop P (suc n) (x ∷ xs) h = All-drop P n xs h.1

chunks-IsInsert :
    (rounds week : ℕ) (rows : List Row)
    → InWeek week rows
    → All IsInsert (chunks rounds clickhouse_insert_chunk_size rows)
unfolding chunks
chunks-IsInsert zero week rows h = tt
chunks-IsInsert (suc rounds) week [] h = tt
chunks-IsInsert (suc rounds) week (r ∷ rows) h =
    let n = length-take 10_000 (r ∷ rows) in
    (
      record {
        some_rows = omega (arith, n);
        small = omega (arith, n);
        week = week;
        one_week = All-take _ 10_000 (r ∷ rows) h;
      },
      chunks-IsInsert rounds week (drop 10_000 (r ∷ rows)) (All-drop _ 10_000 (r ∷ rows) h),
    )

add_row-IsGrouped :
    (week : ℕ) (row : Row) (weeks : Weeks)
    → get_week_start_key row.event_time ≡ week
    → IsGrouped weeks
    → IsGrouped (add_row week row weeks)
unfolding add_row
add_row-IsGrouped week row [] e h = ((e, tt), tt)
add_row-IsGrouped week row ((w, rows) ∷ weeks) e h = elim (Bool-cases (w =? week)) [
  | inl same ↦
      let in_week : get_week_start_key row.event_time ≡ w = ground (arith, same, e) in
      rw same (
        All-append (λ (r : Row). get_week_start_key r.event_time ≡ w) rows (row ∷ []) h.0
            (in_week, tt),
        h.1,
      )
  | inr other ↦ rw other (h.0, add_row-IsGrouped week row weeks e h.1)
]

group_rows-IsGrouped :
    (rows : List Row) (weeks : Weeks) → IsGrouped weeks → IsGrouped (group_rows rows weeks)
unfolding group_rows
group_rows-IsGrouped [] weeks h = h
group_rows-IsGrouped (row ∷ rows) weeks h =
    group_rows-IsGrouped rows (add_row (get_week_start_key row.event_time) row weeks)
      (add_row-IsGrouped (get_week_start_key row.event_time) row weeks refl h)

week_inserts-IsInsert : (weeks : Weeks) → IsGrouped weeks → All IsInsert (week_inserts weeks)
unfolding week_inserts
week_inserts-IsInsert [] h = tt
week_inserts-IsInsert ((week, rows) ∷ weeks) h =
    All-append IsInsert _ _ (chunks-IsInsert (length rows) week rows h.0)
      (week_inserts-IsInsert weeks h.1)

module _ (p : Row → Bool) where
  abbrev count_weeks : Weeks → ℕ
  count_weeks [] = 0
  count_weeks ((week, rows) ∷ weeks) = count p rows + count_weeks weeks

  count_weeks-add_row :
      (week : ℕ) (row : Row) (weeks : Weeks)
      → count_weeks (add_row week row weeks) ≡ (if p row then 1 else 0) + count_weeks weeks
  unfolding add_row
  count_weeks-add_row week row [] = omega arith
  count_weeks-add_row week row ((w, rows) ∷ weeks) = elim (Bool-cases (w =? week)) [
    | inl same ↦ rw same (omega (arith, count-append p rows (row ∷ [])))
    | inr other ↦ rw other (omega (arith, count_weeks-add_row week row weeks))
  ]

  count_weeks-group_rows :
      (rows : List Row) (weeks : Weeks)
      → count_weeks (group_rows rows weeks) ≡ count p rows + count_weeks weeks
  unfolding group_rows
  count_weeks-group_rows [] weeks = omega arith
  count_weeks-group_rows (row ∷ rows) weeks =
      let key = get_week_start_key row.event_time in
      omega (
        arith,
        count_weeks-group_rows rows (add_row key row weeks),
        count_weeks-add_row key row weeks,
      )

  count_all-week_inserts : (weeks : Weeks) → count_all p (week_inserts weeks) ≡ count_weeks weeks
  unfolding week_inserts
  count_all-week_inserts [] = refl
  count_all-week_inserts ((week, rows) ∷ weeks) = omega (
    arith,
    count_all-append p (slices 10_000 rows) (week_inserts weeks),
    count_all-chunks p (length rows) 10_000 rows (omega arith) (omega arith),
    count_all-week_inserts weeks,
  )

  -- The inserts of a list of rows hold each row exactly as often as the list does, for every test on
  -- rows; each insert has between 1 and 10,000 rows, all of one week.
  pub inserts-cover :
      (rows : List Row) → (count_all p (inserts rows) ≡ count p rows) × All IsInsert (inserts rows)
  unfolding inserts
  inserts-cover rows = (
    omega (arith, count_all-week_inserts (group_rows rows []), count_weeks-group_rows rows []),
    week_inserts-IsInsert (group_rows rows []) (group_rows-IsGrouped rows [] tt),
  )
