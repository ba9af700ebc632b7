-- ===== src/Team/Paging.antt =====
-- The pages of the member list.
use mathlib.Core.List.{map-append}
use native.Mathlib.Nat.{zero-add, suc-add, zero-mul, suc-mul}
use discord_bot_backend.Prelude.{
  ℕ, zero, suc, ◌+◌, ◌*◌, ◌≤◌, ◌<◌, max, String, Bool, Option, some, ◌≡◌, refl, ◌==◌, ◌&&◌, List,
  [], ◌∷◌, ◌++◌, map, take, drop, length, Outcome, ok, throw, arith, ap, ◌∙◌,
}
use discord_bot_backend.Orm.{Orm}
use discord_bot_backend.Entities.{Company, CompanyMember, member_id}
use discord_bot_backend.Team.{TeamDb, default_company}
use discord_bot_backend.Team.Members.{
  MemberView, Meta, page_size, page_skip, total_pages, view_of, matches_search, get_team_members,
}

-- The first `n` pages of `size` rows.
abbrev pub pages {ℓ} : {A : Type ℓ} → ℕ → List A → ℕ → List A
pages size xs zero = []
pages size xs (suc n) = pages size xs n ++ take size (drop (n * size) xs)

take-add {ℓ} :
    {A : Type ℓ} (m n : ℕ) (xs : List A) → take (m + n) xs ≡ take m xs ++ take n (drop m xs)
take-add zero n xs = rw zero-add
take-add (suc m) zero [] = rw suc-add
take-add (suc m) (suc n) [] = rw suc-add
take-add (suc m) n (x ∷ xs) = rw suc-add (ap (λ ys. x ∷ ys) (take-add m n xs))

take_all {ℓ} : {A : Type ℓ} (n : ℕ) (xs : List A) → length xs ≤ n → take n xs ≡ xs
take_all zero [] h = refl
take_all zero (x ∷ xs) h = absurd (omega arith)
take_all (suc n) [] h = refl
take_all (suc n) (x ∷ xs) h = rw (take_all n xs (omega arith))

pages_lem {ℓ} : {A : Type ℓ} (size : ℕ) (xs : List A) (n : ℕ) → pages size xs n ≡ take (n * size) xs
pages_lem size xs zero = rw zero-mul
pages_lem size xs (suc n) = rw (pages_lem size xs n) (rw (suc-mul, ← take-add (n * size) size xs))

total_pages_bounds :
    (total size : ℕ)
    → 0 < size
    → (total ≤ total_pages total size * size) × (1 ≤ total_pages total size)
total_pages_bounds total size h = grind arith

module _ (orm : Orm) (ilike : String → String → Bool) where
  -- All rows that the list of a user's workspace is about, in its order.
  abbrev pub listed : String → Company → Option String → TeamDb orm → List CompanyMember
  listed user company search db =
      orm.find member_id (λ m. m.company_id == company.id && matches_search orm ilike search db m)
        (λ m. m.joined_at) db.members

  -- One page of the list is the matching stretch of all rows, and its meta data say how many rows
  -- and pages there are, and which page of which size this is.
  get_team_members_page :
      (user : String) (company : Company) (page limit : ℕ) (search : Option String)
      (db : TeamDb orm)
      → default_company orm user db ≡ some company
      → get_team_members orm ilike user page limit search db ≡ (
        ok (
          map (view_of orm db) (
              take (page_size limit) (drop (page_skip page limit) (listed user company search db))),
          record {
            total = length (listed user company search db);
            page = max 1 page;
            limit = page_size limit;
            total_pages = total_pages (length (listed user company search db)) (page_size limit);
          },
        ),
        db,
      )
  unfolding get_team_members
  get_team_members_page user company page limit search db e =
      rw (e, get_team_members)
        (rw
          (orm.find_and_count_lem member_id _ (λ m. m.joined_at) (page_skip page limit)
            (page_size limit) db.members)
          refl)

  abbrev rows_of : Outcome (List MemberView × Meta) × TeamDb orm → List MemberView
  rows_of (ok (rows, m), db) = rows
  rows_of (throw e, db) = []

  -- The rows of the pages 1 to n, put together.
  abbrev pub first_pages : String → ℕ → Option String → TeamDb orm → ℕ → List MemberView
  first_pages user limit search db zero = []
  first_pages user limit search db (suc n) =
      first_pages user limit search db n
      ++ rows_of (get_team_members orm ilike user (suc n) limit search db)

  first_pages_lem :
      (user : String) (company : Company) (limit : ℕ) (search : Option String) (db : TeamDb orm)
      (n : ℕ)
      → default_company orm user db ≡ some company
      → first_pages user limit search db n
        ≡ map (view_of orm db) (pages (page_size limit) (listed user company search db) n)
  first_pages_lem user company limit search db zero e = refl
  first_pages_lem user company limit search db (suc n) e =
      let skip : page_skip (suc n) limit ≡ n * page_size limit =
        ap (λ k. k * page_size limit) (omega arith) in
      rw (
        get_team_members_page user company (suc n) limit search db e,
        skip,
        first_pages_lem user company limit search db n e,
        map-append,
      )

  -- Reading the pages from 1 to the last one that any page's answer announces gives every row of
  -- the list once and in order.
  pub get_team_members-covers :
      (user : String) (company : Company) (page limit : ℕ) (search : Option String)
      (db db' : TeamDb orm) (rows : List MemberView) (info : Meta)
      → default_company orm user db ≡ some company
      → get_team_members orm ilike user page limit search db ≡ (ok (rows, info), db')
      → first_pages user limit search db info.total_pages
        ≡ map (view_of orm db) (listed user company search db)
  get_team_members-covers user company page limit search db db' rows info e h =
      let answer = get_team_members_page user company page limit search db e in
      let xs = listed user company search db in
      let last : info.total_pages ≡ total_pages (length xs) (page_size limit) =
        ground (arith, answer) in
      let bound = total_pages_bounds (length xs) (page_size limit) (omega arith) in
      rw
        (
          last,
          first_pages_lem user company limit search db (total_pages (length xs) (page_size limit))
              e,
        )
        (ap (map (view_of orm db)) (
          pages_lem (page_size limit) xs (total_pages (length xs) (page_size limit))
          ∙ take_all (total_pages (length xs) (page_size limit) * page_size limit) xs bound.0))
