-- ===== src/Orm.antt =====
-- The TypeORM repositories that every service is given (`Repository<Row>` and `EntityManager`), as
-- the services use them: a package outside the repository, so an interface with its documented
-- behaviour. `key` is the primary key column of the entity.
pub mod Memory
pub mod Keys
use discord_bot_backend.Prelude.{
  ℕ, ◌≤◌, String, Bool, true, false, Option, none, some, ◌≡◌, ◌==◌, if◌then◌else◌, List, All, any,
  take, drop, length,
}

-- The row that an update leaves in place of an old one.
abbrev pub updated : {Row : Type 0} → (Row → Bool) → (Row → Row) → Option Row → Option Row
updated p f none = none
updated p f (some r) = some (if p r then f r else r)

pub record Orm : Type 1 where
  pub Table : Type 0 → Type 0
  -- The row stored under a primary key.
  pub get : {Row : Type 0} → (Row → String) → String → Table Row → Option Row
  -- `findOne({ where })`, and with `order: { column: 'ASC' }`.
  pub find_one : {Row : Type 0} → (Row → String) → (Row → Bool) → Table Row → Option Row
  pub find_first :
      {Row : Type 0} → (Row → String) → (Row → Bool) → (Row → ℕ) → Table Row → Option Row
  -- `find({ where, order })`, and a page of it with the count of all (`findAndCount`).
  pub find : {Row : Type 0} → (Row → String) → (Row → Bool) → (Row → ℕ) → Table Row → List Row
  pub find_and_count :
      {Row : Type 0} → (Row → String) → (Row → Bool) → (Row → ℕ) → ℕ → ℕ → Table Row → List Row × ℕ
  -- `save(row)`: insert, or overwrite the row with that key.
  pub save : {Row : Type 0} → (Row → String) → Row → Table Row → Table Row
  pub remove : {Row : Type 0} → (Row → String) → String → Table Row → Table Row
  -- `update(where, changes)`, of columns other than the primary key.
  pub update : {Row : Type 0} → (Row → String) → (Row → Bool) → (Row → Row) → Table Row → Table Row
  -- The key that the database generates for a row to insert.
  pub new_key : {Row : Type 0} → (Row → String) → Table Row → String
  pub get-key :
      {Row : Type 0} (key : Row → String) (k : String) (t : Table Row) (r : Row)
      → get key k t ≡ some r
      → key r ≡ k
  pub get-save :
      {Row : Type 0} (key : Row → String) (k : String) (r : Row) (t : Table Row)
      → get key k (save key r t) ≡ (if key r == k then some r else get key k t)
  pub get-remove :
      {Row : Type 0} (key : Row → String) (k j : String) (t : Table Row)
      → get key k (remove key j t) ≡ (if j == k then none else get key k t)
  pub get-update :
      {Row : Type 0} (key : Row → String) (p : Row → Bool) (f : Row → Row) (k : String)
      (t : Table Row)
      → ((r : Row) → key (f r) ≡ key r)
      → get key k (update key p f t) ≡ updated p f (get key k t)
  pub get-new_key :
      {Row : Type 0} (key : Row → String) (t : Table Row) → get key (new_key key t) t ≡ none
  pub find_one-eq-some :
      {Row : Type 0} (key : Row → String) (p : Row → Bool) (t : Table Row) (r : Row)
      → find_one key p t ≡ some r
      → (get key (key r) t ≡ some r) × (p r ≡ true)
  pub find_one-eq-none :
      {Row : Type 0} (key : Row → String) (p : Row → Bool) (t : Table Row) (k : String) (r : Row)
      → find_one key p t ≡ none
      → get key k t ≡ some r
      → p r ≡ false
  pub find_first-eq-some :
      {Row : Type 0} (key : Row → String) (p : Row → Bool) (order : Row → ℕ) (t : Table Row)
      (r : Row)
      → find_first key p order t ≡ some r
      → (get key (key r) t ≡ some r) × (p r ≡ true)
  pub find_first-le :
      {Row : Type 0} (key : Row → String) (p : Row → Bool) (order : Row → ℕ) (t : Table Row)
      (r : Row) (k : String) (other : Row)
      → find_first key p order t ≡ some r
      → get key k t ≡ some other
      → p other ≡ true
      → order r ≤ order other
  pub find_first-eq-none :
      {Row : Type 0} (key : Row → String) (p : Row → Bool) (order : Row → ℕ) (t : Table Row)
      (k : String) (r : Row)
      → find_first key p order t ≡ none
      → get key k t ≡ some r
      → p r ≡ false
  pub find-All :
      {Row : Type 0} (key : Row → String) (p : Row → Bool) (order : Row → ℕ) (t : Table Row)
      → All (λ r. (get key (key r) t ≡ some r) × (p r ≡ true)) (find key p order t)
  -- A stored row that passes is among those found: a test of it succeeds on some row.
  pub find-any :
      {Row : Type 0} (key : Row → String) (p : Row → Bool) (order : Row → ℕ) (q : Row → Bool)
      (t : Table Row) (r : Row)
      → get key (key r) t ≡ some r
      → p r ≡ true
      → q r ≡ true
      → any q (find key p order t) ≡ true
  pub find_and_count_lem :
      {Row : Type 0} (key : Row → String) (p : Row → Bool) (order : Row → ℕ) (skip limit : ℕ)
      (t : Table Row)
      → find_and_count key p order skip limit t
        ≡ (take limit (drop skip (find key p order t)), length (find key p order t))
