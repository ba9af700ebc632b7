-- ===== src/Team/Workspace.antt =====
-- team.service.ts: `ensureDefaultWorkspace`, called once and again.
use discord_bot_backend.Prelude.{
  ℕ, String, Option, none, some, ◌≡◌, ◌==◌, if◌then◌else◌, ok, arith, eq_iff, eq_refl, Option-cases,
  inl, inr,
}
use discord_bot_backend.Orm.{Orm}
use discord_bot_backend.Entities.{Company, owner, company_id, member_id}
use discord_bot_backend.Team.{
  TeamDb, default_company, add_company, save_member, new_company, new_member, workspace_name,
  ensure_default_workspace,
}

module _ (orm : Orm) where
  -- The tables with a new workspace and its owner.
  abbrev founded : Company → String → ℕ → TeamDb orm → TeamDb orm
  founded company user joined_at db =
      let db' = add_company orm company db in
      save_member orm (new_member orm company.id user owner joined_at db') db'

  default_company-founded :
      (user : String) (name : String) (created_at joined_at : ℕ) (db : TeamDb orm)
      → default_company orm user db ≡ none
      → let company = new_company orm name user created_at db in
        default_company orm user (founded company user joined_at db) ≡ some company
  unfolding default_company add_company save_member
  default_company-founded user name created_at joined_at db missing =
      let company = new_company orm name user created_at db in
      let after = orm.save company_id company db.companies in
      elim (Option-cases
        (orm.find_first company_id (λ c. c.owner_id == user) (λ c. c.created_at) after)) [
          | inl e ↦ ground (
            arith,
            orm.find_first-eq-none company_id _ _ after company.id company e,
            orm.get-save company_id company.id company db.companies,
            eq_refl company.id,
            eq_refl user,
          )
          | inr (c, e) ↦
              let (kept, mine) = orm.find_first-eq-some company_id _ _ after c e in
              ground (
                arith,
                e,
                kept,
                mine,
                orm.get-save company_id c.id company db.companies,
                eq_iff company.id c.id,
                orm.find_first-eq-none company_id _ _ db.companies c.id c missing,
              )
        ]

  ensure_default_workspace-again :
      (user : String) (name : Option String) (t u : ℕ) (db : TeamDb orm) (company : Company)
      → default_company orm user db ≡ some company
      → ensure_default_workspace orm user name t u db ≡ (ok company, db)
  unfolding ensure_default_workspace
  ensure_default_workspace-again user name t u db company e = rw (e, ensure_default_workspace)

  ensure_default_workspace-founds :
      (user : String) (name : Option String) (t u : ℕ) (db : TeamDb orm)
      → default_company orm user db ≡ none
      → let company = new_company orm (workspace_name name) user t db in
        ensure_default_workspace orm user name t u db ≡ (ok company, founded company user u db)
  unfolding ensure_default_workspace
  ensure_default_workspace-founds user name t u db e = rw (e, ensure_default_workspace)

  -- A call for a user returns a workspace, which is the user's default one from then on; a second
  -- call, whatever its other arguments, returns that same workspace and writes nothing.
  pub ensure_default_workspace-idempotent :
      (user : String) (name name' : Option String) (t u t' u' : ℕ) (db : TeamDb orm)
      → (company : Company) × (db' : TeamDb orm) × (ensure_default_workspace orm user name t u db
          ≡ (ok company, db'))
        × (default_company orm user db' ≡ some company)
        × (ensure_default_workspace orm user name' t' u' db' ≡ (ok company, db'))
  ensure_default_workspace-idempotent user name name' t u t' u' db =
      elim (Option-cases (default_company orm user db)) [
        | inr (c, e) ↦ (
          c,
          db,
          ensure_default_workspace-again user name t u db c e,
          e,
          ensure_default_workspace-again user name' t' u' db c e,
        )
        | inl e ↦
            let company = new_company orm (workspace_name name) user t db in
            let now = default_company-founded user (workspace_name name) t u db e in
            (
              company,
              founded company user u db,
              ensure_default_workspace-founds user name t u db e,
              now,
              ensure_default_workspace-again user name' t' u' (founded company user u db) company
                  now,
            )
      ]

  -- The founder of a new workspace is stored as a member with the role of owner, and all members
  -- stored before stay.
  pub ensure_default_workspace-owner :
      (user : String) (name : Option String) (t u : ℕ) (db : TeamDb orm) (k : String)
      → default_company orm user db ≡ none
      → let company = new_company orm (workspace_name name) user t db in
        orm.get member_id k (ensure_default_workspace orm user name t u db).1.members ≡ (
          if orm.new_key member_id db.members == k
          then some (new_member orm company.id user owner u db)
          else orm.get member_id k db.members)
  unfolding add_company save_member
  ensure_default_workspace-owner user name t u db k e =
      let company = new_company orm (workspace_name name) user t db in
      rw (ensure_default_workspace-founds user name t u db e)
        (orm.get-save member_id k (new_member orm company.id user owner u db) db.members)
