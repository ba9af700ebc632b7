-- ===== src/Team.antt =====
-- apps/frontend-api/src/team/team.service.ts: workspaces, their members and their invites.
-- This file has the tables and `ensureDefaultWorkspace`; the children have the other methods and
-- the proofs. A joined relation (`relations: ['company']`) is a read of that table by its key, and
-- `new Date()` is an argument for each time that it is read.
pub mod Invites
pub mod Members
pub mod Accept
pub mod Roles
mod Tests
pub mod Mine
pub mod Paging
pub mod Workspace
pub mod Lockout
use Prim.Native.String.{◌++◌ as append}
use discord_bot_backend.Prelude.{
  ℕ, ◌≤◌, String, Bool, true, false, Option, none, some, ◌≡◌, ◌==◌, ◌&&◌, if◌then◌else◌, List, map,
  HttpError, Outcome, ok, Action, ◌>>=◌, ◌>>◌, pure, query, modify, trim, is_empty, is_some,
}
use discord_bot_backend.Orm.{Orm}
use discord_bot_backend.Entities.{
  User, Company, CompanyMember, CompanyInvite, CompanyMemberRole, owner, company_id, member_id,
}

pub record TeamDb (orm : Orm) : Type 0 where
  pub companies : orm.Table Company
  pub members : orm.Table CompanyMember
  pub invites : orm.Table CompanyInvite
  pub users : orm.Table User

-- The name of a new workspace.
unfoldable pub workspace_name : Option String → String
unfolding trim
workspace_name none = "My Workspace"
workspace_name (some display_name) =
    if is_empty (trim display_name)
    then "My Workspace"
    else append (trim display_name) "'s Workspace"

module _ (orm : Orm) where
  -- `getDefaultCompanyForUser`: the oldest company that the user owns.
  unfoldable pub default_company : String → TeamDb orm → Option Company
  default_company user db =
      orm.find_first company_id (λ c. c.owner_id == user) (λ c. c.created_at) db.companies

  -- `findOne({ where: { companyId, userId } })` of the members.
  unfoldable pub member_of : String → String → TeamDb orm → Option CompanyMember
  member_of company user db =
      orm.find_one member_id (λ m. m.company_id == company && m.user_id == user) db.members

  unfoldable pub add_company : Company → TeamDb orm → TeamDb orm
  add_company c db = record db { companies = orm.save company_id c db.companies }

  unfoldable pub save_member : CompanyMember → TeamDb orm → TeamDb orm
  save_member m db = record db { members = orm.save member_id m db.members }

  -- A row that `create` made and `save` gives a new key.
  abbrev pub new_company : String → String → ℕ → TeamDb orm → Company
  new_company name user now db = record {
    id = orm.new_key company_id db.companies;
    name = name;
    owner_id = user;
    created_at = now;
  }

  abbrev pub new_member : String → String → CompanyMemberRole → ℕ → TeamDb orm → CompanyMember
  new_member company user role now db = record {
    id = orm.new_key member_id db.members;
    company_id = company;
    user_id = user;
    role = role;
    joined_at = now;
  }

  -- `created_at` is the time of the database's insert, `joined_at` that of the service.
  unfoldable pub ensure_default_workspace :
      String → Option String → ℕ → ℕ → Action (TeamDb orm) Company
  unfolding add_company save_member
  ensure_default_workspace user display_name created_at joined_at db =
      elim (default_company user db) [
        | some existing ↦ (ok existing, db)
        | none ↦
            let company = new_company (workspace_name display_name) user created_at db in
            let db' = add_company company db in
            let m = new_member company.id user owner joined_at db' in
            (ok company, save_member m db')
      ]
