-- ===== src/HistorySync/Stored.antt =====
-- What holds of all rows holds of all rows of their inserts, and of those that are stored.
use discord_bot_backend.Prelude.{
  ℕ, zero, suc, Bool, ◌=?◌, List, [], ◌∷◌, ◌++◌, drop, length, All, All-append, Bool-cases, inl,
  inr,
}
use discord_bot_backend.Ingestor.Row.{Row}
use discord_bot_backend.HistorySync.Batches.{
  get_week_start_key, Weeks, add_row, group_rows, chunks, week_inserts, inserts,
}
use discord_bot_backend.HistorySync.Coverage.{All-take, All-drop}
use discord_bot_backend.HistorySync.Run.{insert_all}

module _ (P : Row → Type 0) where
  abbrev Holds : Weeks → Type 0
  Holds weeks = All (λ w. All P w.1) weeks

  add_row-Holds :
      (week : ℕ) (row : Row) (weeks : Weeks) → P row → Holds weeks → Holds (add_row week row weeks)
  unfolding add_row
  add_row-Holds week row [] h hs = ((h, tt), tt)
  add_row-Holds week row ((w, rows) ∷ weeks) h (hw, hs) = elim (Bool-cases (w =? week)) [
    | inl same ↦ rw same (All-append P rows (row ∷ []) hw (h, tt), hs)
    | inr other ↦ rw other (hw, add_row-Holds week row weeks h hs)
  ]

  group_rows-Holds :
      (rows : List Row) (weeks : Weeks) → All P rows → Holds weeks → Holds (group_rows rows weeks)
  unfolding group_rows
  group_rows-Holds [] weeks h hs = hs
  group_rows-Holds (row ∷ rows) weeks (h, hr) hs =
      group_rows-Holds rows (add_row (get_week_start_key row.event_time) row weeks) hr
        (add_row-Holds (get_week_start_key row.event_time) row weeks h hs)

  All-chunks :
      (rounds size : ℕ) (rows : List Row) → All P rows → All (All P) (chunks rounds size rows)
  unfolding chunks
  All-chunks zero size rows h = tt
  All-chunks (suc rounds) size [] h = tt
  All-chunks (suc rounds) size (row ∷ rows) h = (
    All-take P size (row ∷ rows) h,
    All-chunks rounds size (drop size (row ∷ rows)) (All-drop P size (row ∷ rows) h),
  )

  All-week_inserts : (weeks : Weeks) → Holds weeks → All (All P) (week_inserts weeks)
  unfolding week_inserts
  All-week_inserts [] h = tt
  All-week_inserts ((week, rows) ∷ weeks) (h, hs) =
      All-append (All P) _ _ (All-chunks (length rows) _ rows h) (All-week_inserts weeks hs)

  pub All-inserts : (rows : List Row) → All P rows → All (All P) (inserts rows)
  unfolding inserts
  All-inserts rows h = All-week_inserts (group_rows rows []) (group_rows-Holds rows [] h tt)

  pub All-insert_all :
      (accepted : ℕ → Bool) (i : ℕ) (batches : List (List Row)) (stored : List Row)
      → All (All P) batches
      → All P stored
      → All P (insert_all accepted i batches stored).1
  unfolding insert_all
  All-insert_all accepted i [] stored h hs = hs
  All-insert_all accepted i (rows ∷ batches) stored (hr, h) hs = elim (Bool-cases (accepted i)) [
    | inl taken ↦
        rw (taken, insert_all)
          (All-insert_all accepted (suc i) batches (stored ++ rows) h
            (All-append P stored rows hs hr))
    | inr refused ↦ rw (refused, insert_all) hs
  ]
