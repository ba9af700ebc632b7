-- ===== src/Team/Mine.antt =====
-- team.service.ts: `getMyCompanies`, the order of a user's workspaces.
use Prim.Native.Nat.{Ordering}
use mathlib.Core.List.{Perm}
use mathlib.Core.List.Perm
use discord_bot_backend.Prelude.{
  String, Bool, true, false, none, some, ◌≡◌, ◌==◌, List, [], ◌∷◌, if◌then◌else◌, Action, query,
  Outcome, refl, All, arith, Bool-cases, inl, inr,
}
use discord_bot_backend.Orm.{Orm}
use discord_bot_backend.Entities.{CompanyMember, company_id, member_id}
use discord_bot_backend.Team.{TeamDb}
use discord_bot_backend.Team.Members.{CompanyView}

-- The comparator; `locale_compare` is `localeCompare` with base sensitivity.
unfoldable pub compare_views : (String → String → Ordering) → CompanyView → CompanyView → Ordering
compare_views locale_compare a b =
    if a.is_owner
    then (if b.is_owner then locale_compare a.name b.name else Ordering.lt)
    else (if b.is_owner then Ordering.gt else locale_compare a.name b.name)

abbrev not_after : Ordering → Bool
not_after Ordering.gt = false
not_after _ = true

module _ (locale_compare : String → String → Ordering) where
  -- `sort`, which is stable.
  pub place : CompanyView → List CompanyView → List CompanyView
  place x [] = x ∷ []
  place x (y ∷ ys) =
      if not_after (compare_views locale_compare x y) then x ∷ y ∷ ys else y ∷ place x ys

  unfoldable pub sort_views : List CompanyView → List CompanyView
  unfolding place compare_views
  sort_views [] = []
  sort_views (x ∷ xs) = place x (sort_views xs)

  abbrev pub OwnFirst : List CompanyView → Type 0
  OwnFirst [] = Unit
  OwnFirst (x ∷ xs) = (x.is_owner ≡ false → All (λ y. y.is_owner ≡ false) xs) × OwnFirst xs

  place-false :
      (x : CompanyView) (ys : List CompanyView)
      → x.is_owner ≡ false
      → All (λ y. y.is_owner ≡ false) ys
      → All (λ y. y.is_owner ≡ false) (place x ys)
  unfolding place
  place-false x [] h hs = (h, tt)
  place-false x (y ∷ ys) h (hy, hs) = ground (arith, place-false x ys h hs)

  place-OwnFirst : (x : CompanyView) (ys : List CompanyView) → OwnFirst ys → OwnFirst (place x ys)
  unfolding place compare_views
  place-OwnFirst x [] o = ((λ _. tt), tt)
  place-OwnFirst x (y ∷ ys) (first, o) =
      ground (arith, place-OwnFirst x ys o, place-false x ys, first)

  place-perm : (x : CompanyView) (ys : List CompanyView) → Perm (place x ys) (x ∷ ys)
  unfolding place
  place-perm x [] = Perm.refl _
  place-perm x (y ∷ ys) = elim (Bool-cases (not_after (compare_views locale_compare x y))) [
    | inl e ↦ rw e (Perm.refl _)
    | inr e ↦ rw e (Perm.trans (Perm.cons y (place-perm x ys)) (Perm.swap x y ys))
  ]

  pub sort_views-OwnFirst : (xs : List CompanyView) → OwnFirst (sort_views xs)
  unfolding sort_views
  sort_views-OwnFirst [] = tt
  sort_views-OwnFirst (x ∷ xs) = place-OwnFirst x (sort_views xs) (sort_views-OwnFirst xs)

  pub sort_views-perm : (xs : List CompanyView) → Perm (sort_views xs) xs
  unfolding sort_views
  sort_views-perm [] = Perm.refl _
  sort_views-perm (x ∷ xs) =
      Perm.trans (place-perm x (sort_views xs)) (Perm.cons x (sort_views-perm xs))

module _ (orm : Orm) (locale_compare : String → String → Ordering) where
  -- The memberships whose workspace exists, with that workspace.
  pub views_of : String → TeamDb orm → List CompanyMember → List CompanyView
  views_of user db [] = []
  views_of user db (m ∷ ms) =
      let rest = views_of user db ms in
      elim (orm.get company_id m.company_id db.companies) [
        | none ↦ rest
        | some c ↦
            record { id = c.id; name = c.name; role = m.role; is_owner = c.owner_id == user } ∷ rest
      ]

  unfoldable pub get_my_companies : String → Action (TeamDb orm) (List CompanyView)
  unfolding views_of
  get_my_companies user = query λ db.
      sort_views locale_compare (
        views_of user db
          (orm.find member_id (λ m. m.user_id == user) (λ m. m.joined_at) db.members))

  -- The list holds one entry for each membership of the user whose workspace exists, those of the
  -- user's own workspaces first, and listing changes nothing.
  pub get_my_companies-OwnFirst :
      (user : String) (db : TeamDb orm)
      → (views : List CompanyView) × (get_my_companies user db ≡ (Outcome.ok views, db))
        × OwnFirst locale_compare views
        × Perm views (
            views_of user db
              (orm.find member_id (λ m. m.user_id == user) (λ m. m.joined_at) db.members))
  unfolding get_my_companies
  get_my_companies-OwnFirst user db =
      (_, refl, sort_views-OwnFirst locale_compare _, sort_views-perm locale_compare _)
