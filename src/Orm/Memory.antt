-- ===== src/Orm/Memory.antt =====
-- A table as a list of rows, the last written first: the interface `Orm` can be met. The witnesses
-- run on it.
use Prim.Native.String
use Prim.Native.String.{count}
use native.Mathlib.Nat.{le_refl}
use text.Mathlib.TextLemmas.{length-append as count-append}
use discord_bot_backend.Prelude.{
  ℕ, ◌≤◌, ◌<◌, String, Bool, true, false, Option, none, some, ◌≡◌, refl, inl, inr, List, [], ◌∷◌,
  ◌==◌, if◌then◌else◌, arith, ap, leb, All, take, drop, length, is_some, any, eq_iff, Bool-cases,
  Option-cases,
}
use discord_bot_backend.Orm.{Orm, updated}

module _ {Row : Type 0} (key : Row → String) where
  unfoldable pub get : String → List Row → Option Row
  get k [] = none
  get k (r ∷ t) = if key r == k then some r else get k t

  unfoldable pub remove : String → List Row → List Row
  remove k [] = []
  remove k (r ∷ t) = if key r == k then remove k t else r ∷ remove k t

  unfoldable pub update : (Row → Bool) → (Row → Row) → List Row → List Row
  update p f [] = []
  update p f (r ∷ t) = (if p r then f r else r) ∷ update p f t

  unfoldable pub longer_key : List Row → String
  longer_key [] = "k"
  longer_key (r ∷ t) = String.◌++◌ (key r) (longer_key t)

  pub get-key : (k : String) (t : List Row) (r : Row) → get k t ≡ some r → key r ≡ k
  unfolding get
  get-key k [] r h = cc
  get-key k (q ∷ t) r h = ground (arith, eq_iff (key q) k, get-key k t r)

  pub get-remove :
      (k j : String) (t : List Row) → get k (remove j t) ≡ (if j == k then none else get k t)
  unfolding get remove
  get-remove k j [] = ground arith
  get-remove k j (q ∷ t) =
      ground (arith, eq_iff (key q) k, eq_iff (key q) j, eq_iff j k, get-remove k j t)

  pub get-save :
      (k : String) (r : Row) (t : List Row)
      → get k (r ∷ t) ≡ (if key r == k then some r else get k t)
  unfolding get
  get-save k r t = refl

  pub get-update :
      (p : Row → Bool) (f : Row → Row) (k : String) (t : List Row)
      → ((r : Row) → key (f r) ≡ key r)
      → get k (update p f t) ≡ updated p f (get k t)
  unfolding get update
  get-update p f k [] same = refl
  get-update p f k (q ∷ t) same = elim (Bool-cases (p q)) [
    | inl yes' ↦
        rw (yes', same q)
          (elim (Bool-cases (key q == k)) [
            | inl here ↦ rw here (rw yes')
            | inr there ↦ rw there (get-update p f k t same)
          ])
    | inr no' ↦ rw no' (elim (Bool-cases (key q == k)) [
      | inl here ↦ rw here (rw no')
      | inr there ↦ rw there (get-update p f k t same)
    ])
  ]

  count_lem : (t : List Row) → 0 < count (longer_key t)
  unfolding longer_key
  count_lem [] = omega arith
  count_lem (r ∷ t) = omega (arith, count_lem t, count-append (key r) (longer_key t))

  pub get_of_count : (k : String) (t : List Row) → count (longer_key t) ≤ count k → get k t ≡ none
  unfolding get longer_key
  get_of_count k [] h = refl
  get_of_count k (r ∷ t) h = ground (
    arith,
    (λ (e : key r ≡ k). ap count e),
    eq_iff (key r) k,
    count_lem t,
    count-append (key r) (longer_key t),
    get_of_count k t,
  )

  -- Every row of `rows` that is the stored one, in turn.
  unfoldable pub scan : (Row → Bool) → List Row → List Row → Option Row
  scan p t [] = none
  scan p t (r ∷ rows) =
      let rest = scan p t rows in
      elim (get (key r) t) [ none ↦ rest | some q ↦ if p q then some q else rest ]

  pub earliest : (Row → ℕ) → Row → Option Row → Option Row
  earliest order q none = some q
  earliest order q (some best) = if leb (order q) (order best) then some q else some best

  unfoldable pub scan_first : (Row → Bool) → (Row → ℕ) → List Row → List Row → Option Row
  unfolding earliest
  scan_first p order t [] = none
  scan_first p order t (r ∷ rows) =
      let rest = scan_first p order t rows in
      elim (get (key r) t) [ none ↦ rest | some q ↦ if p q then earliest order q rest else rest ]

  pub scan-eq-some :
      (p : Row → Bool) (t rows : List Row) (r : Row)
      → scan p t rows ≡ some r
      → (get (key r) t ≡ some r) × (p r ≡ true)
  unfolding scan
  scan-eq-some p t [] r h = cc
  scan-eq-some p t (q ∷ rows) r h = elim (Option-cases (get (key q) t)) [
    | inl e ↦ scan-eq-some p t rows r (rw (e, scan) at h)
    | inr (s, e) ↦ ground (arith, get-key (key q) t s e, scan-eq-some p t rows r)
  ]

  pub scan-eq-none :
      (p : Row → Bool) (t rows : List Row) (k : String) (q r : Row)
      → scan p t rows ≡ none
      → get k rows ≡ some q
      → get k t ≡ some r
      → p r ≡ false
  unfolding scan get
  scan-eq-none p t [] k q r h e g = cc
  scan-eq-none p t (s ∷ rows) k q r h e g =
      ground (arith, eq_iff (key s) k, scan-eq-none p t rows k q r)

  pub scan_first-eq-some :
      (p : Row → Bool) (order : Row → ℕ) (t rows : List Row) (r : Row)
      → scan_first p order t rows ≡ some r
      → (get (key r) t ≡ some r) × (p r ≡ true)
  unfolding scan_first earliest
  scan_first-eq-some p order t [] r h = cc
  scan_first-eq-some p order t (q ∷ rows) r h = elim (Option-cases (get (key q) t)) [
    | inl e ↦ scan_first-eq-some p order t rows r (rw (e, scan_first) at h)
    | inr (s, e) ↦ ground (arith, get-key (key q) t s e, scan_first-eq-some p order t rows r)
  ]

  pub scan_first-eq-none :
      (p : Row → Bool) (order : Row → ℕ) (t rows : List Row) (k : String) (q r : Row)
      → scan_first p order t rows ≡ none
      → get k rows ≡ some q
      → get k t ≡ some r
      → p r ≡ false
  unfolding scan_first earliest get
  scan_first-eq-none p order t [] k q r h e g = cc
  scan_first-eq-none p order t (s ∷ rows) k q r h e g =
      ground (arith, eq_iff (key s) k, scan_first-eq-none p order t rows k q r)

  pub scan_first-le :
      (p : Row → Bool) (order : Row → ℕ) (t rows : List Row) (r : Row) (k : String) (q other : Row)
      → scan_first p order t rows ≡ some r
      → get k rows ≡ some q
      → get k t ≡ some other
      → p other ≡ true
      → order r ≤ order other
  unfolding scan_first earliest get
  scan_first-le p order t [] r k q other h e g y = cc
  scan_first-le p order t (s ∷ rows) r k q other h e g y =
      elim (Option-cases (scan_first p order t rows)) [
        | inl n ↦ ground (arith, eq_iff (key s) k, n, scan_first-eq-none p order t rows k q other)
        | inr (best, m) ↦
            ground (arith, eq_iff (key s) k, m, scan_first-le p order t rows best k q other m)
      ]

  -- The stored rows that pass, each once.
  unfoldable pub collect : (Row → Bool) → List Row → List Row → List Row
  collect p t [] = []
  collect p t (r ∷ rows) =
      let rest = collect p t rows in
      if is_some (get (key r) rows)
      then rest
      else (elim (get (key r) t) [ none ↦ rest | some q ↦ if p q then q ∷ rest else rest ])

  pub collect-All :
      (p : Row → Bool) (t rows : List Row)
      → All (λ r. (get (key r) t ≡ some r) × (p r ≡ true)) (collect p t rows)
  unfolding collect
  collect-All p t [] = tt
  collect-All p t (q ∷ rows) = elim (Option-cases (get (key q) t)) [
    | inl e ↦ ground (arith, e, collect-All p t rows)
    | inr (s, e) ↦ ground (arith, e, get-key (key q) t s e, collect-All p t rows)
  ]

  pub collect-any :
      (p q : Row → Bool) (k : String) (t rows : List Row) (r s : Row)
      → get k rows ≡ some s
      → get k t ≡ some r
      → p r ≡ true
      → q r ≡ true
      → any q (collect p t rows) ≡ true
  unfolding collect get
  collect-any p q k t [] r s e g y z = cc
  collect-any p q k t (u ∷ rows) r s e g y z = elim (Option-cases (get k rows)) [
    | inl n ↦ ground (arith, n, eq_iff (key u) k)
    | inr (v, f) ↦ elim (Option-cases (get (key u) rows)) [
      | inr (v', f') ↦ ground (arith, f', collect-any p q k t rows r v f g y z)
      | inl n ↦ ground (arith, n, collect-any p q k t rows r v f g y z)
    ]
  ]

-- An implementation of the interface.
abbrev pub memory : Orm
memory = record {
  Table = List;
  get = get;
  find_one = λ key p t. scan key p t t;
  find_first = λ key p order t. scan_first key p order t t;
  save = λ key r t. r ∷ t;
  find = λ key p order t. collect key p t t;
  find_and_count = λ key p order skip limit t.
      (take limit (drop skip (collect key p t t)), length (collect key p t t));
  remove = remove;
  update = update;
  new_key = longer_key;
  get-key = get-key;
  get-save = get-save;
  get-remove = get-remove;
  get-update = get-update;
  get-new_key = λ key t. get_of_count key (longer_key key t) t (le_refl _);
  find_one-eq-some = λ key p t r. scan-eq-some key p t t r;
  find_one-eq-none = λ key p t k r h g. scan-eq-none key p t t k r r h g g;
  find_first-eq-some = λ key p order t r. scan_first-eq-some key p order t t r;
  find_first-le =
      λ key p order t r k other h g. scan_first-le key p order t t r k other other h g g;
  find_first-eq-none = λ key p order t k r h g. scan_first-eq-none key p order t t k r r h g g;
  find-All = λ key p order t. collect-All key p t t;
  find-any = λ key p order q t r g y z. collect-any key p q (key r) t t r r g g y z;
  find_and_count_lem = λ key p order skip limit t. refl;
}
