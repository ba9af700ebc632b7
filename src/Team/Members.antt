-- ===== src/Team/Members.antt =====
-- team.service.ts: the methods on the members of a workspace.
use discord_bot_backend.Prelude.{
  ℕ, ◌+◌, ◌-◌, ◌*◌, ◌/◌, min, max, String, Bool, true, false, Option, none, some, ◌==◌, ◌&&◌, ◌||◌,
  not, List, [], map, if◌then◌else◌, HttpError, Action, ◌>>=◌, ◌>>◌, pure, query, modify, require,
  throw_if, ◌=?◌, trim, is_empty,
}
use discord_bot_backend.Orm.{Orm}
use discord_bot_backend.Entities.{
  User, CompanyMember, CompanyMemberRole, member, member_id, user_id,
}
use discord_bot_backend.Team.{TeamDb, default_company, member_of, save_member}
use discord_bot_backend.Team.Invites.{username_of, is_owner, insufficient_permissions}

abbrev pub team_member_not_found : HttpError
team_member_not_found = record { status = 404; code = "TEAM_MEMBER_NOT_FOUND" }

abbrev pub is_member : CompanyMemberRole → Bool
is_member member = true
is_member _ = false

-- A row of a page; `joined_at` is printed by `toISOString`.
pub record MemberView : Type 0 where
  pub id : String
  pub name : String
  pub email : Option String
  pub avatar : Option String
  pub role : CompanyMemberRole
  pub joined_at : ℕ

pub record Meta : Type 0 where
  pub total : ℕ
  pub page : ℕ
  pub limit : ℕ
  pub total_pages : ℕ

pub record CompanyView : Type 0 where
  pub id : String
  pub name : String
  pub role : CompanyMemberRole
  pub is_owner : Bool

abbrev pub email_of : Option User → Option String
email_of none = none
email_of (some u) = u.email

abbrev pub avatar_of : Option User → Option String
avatar_of none = none
avatar_of (some u) = u.avatar_url

-- `Math.min(100, Math.max(1, limit))`; the query's page and limit are whole numbers.
abbrev pub page_size : ℕ → ℕ
page_size limit = min 100 (max 1 limit)

abbrev pub page_skip : ℕ → ℕ → ℕ
page_skip page limit = (max 1 page - 1) * page_size limit

-- `Math.ceil(total / take) || 1`
abbrev pub total_pages : ℕ → ℕ → ℕ
total_pages total size = let pages = (total + (size - 1)) / size in if pages =? 0 then 1 else pages

module _ (orm : Orm) where
  abbrev pub view_of : TeamDb orm → CompanyMember → MemberView
  view_of db m =
      let user = orm.get user_id m.user_id db.users in
      record {
        id = m.id;
        name = username_of user;
        email = email_of user;
        avatar = avatar_of user;
        role = m.role;
        joined_at = m.joined_at;
      }

  -- The `where` of the member list; `ilike` is the database's `ILIKE '%…%'` on a text.
  abbrev pub matches_search :
      (String → String → Bool) → Option String → TeamDb orm → CompanyMember → Bool
  matches_search ilike none db m = true
  matches_search ilike (some search) db m =
      if is_empty (trim search) then true else (elim (orm.get user_id m.user_id db.users) [
        | none ↦ false
        | some u ↦
            ilike (trim search) u.username
            || (elim u.email [ none ↦ false | some email ↦ ilike (trim search) email ])
      ])

  unfoldable pub get_team_members :
      (String → String → Bool)
      → String
      → ℕ
      → ℕ
      → Option String
      → Action (TeamDb orm) (List MemberView × Meta)
  get_team_members ilike user page limit search db = elim (default_company orm user db) [
    | none ↦ pure ([], record { total = 0; page = 1; limit = limit; total_pages = 0 }) db
    | some company ↦
        let (members, total) =
          orm.find_and_count member_id
            (λ m. m.company_id == company.id && matches_search ilike search db m) (λ m. m.joined_at)
            (page_skip page limit) (page_size limit) db.members in
        pure
          (
            map (view_of db) members,
            record {
              total = total;
              page = max 1 page;
              limit = page_size limit;
              total_pages = total_pages total (page_size limit);
            },
          )
          db
  ]

  -- `findOne({ where: { id: memberId, companyId } })`
  unfoldable pub member_by_id : String → String → TeamDb orm → Option CompanyMember
  member_by_id id company db =
      orm.find_one member_id (λ m. m.id == id && m.company_id == company) db.members

  unfoldable pub update_team_member_role :
      String → String → CompanyMemberRole → Action (TeamDb orm) MemberView
  unfolding save_member
  update_team_member_role user id role = do
    company ← λ db. require team_member_not_found (default_company orm user db) db
    owner_member ← λ db. require insufficient_permissions (member_of orm company.id user db) db
    throw_if (not (is_owner owner_member.role)) insufficient_permissions
    m ← λ db. require team_member_not_found (member_by_id id company.id db) db
    modify (save_member orm (record m { role = role }))
    query (λ db. view_of db (record m { role = role }))

  unfoldable pub remove_team_member : String → String → Action (TeamDb orm) (Unit {0})
  remove_team_member user id = do
    company ← λ db. require team_member_not_found (default_company orm user db) db
    current ← λ db. require insufficient_permissions (member_of orm company.id user db) db
    throw_if (is_member current.role) insufficient_permissions
    m ← λ db. require team_member_not_found (member_by_id id company.id db) db
    throw_if (m.user_id == user) insufficient_permissions
    throw_if (not (is_owner current.role) && is_owner m.role) insufficient_permissions
    modify λ db. record db { members = orm.remove member_id m.id db.members }
