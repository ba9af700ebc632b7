-- ===== src/Team/Lockout.antt =====
-- team.service.ts: `updateTeamMemberRole` after a change of the owner's own role.
use discord_bot_backend.Prelude.{
  ℕ, String, false, some, ◌≡◌, ◌≢◌, HttpError, ok, throw, arith, eq_iff, Option-cases, inl, inr,
}
use discord_bot_backend.Orm.{Orm}
use discord_bot_backend.Entities.{Company, CompanyMember, CompanyMemberRole, owner, member_id}
use discord_bot_backend.Team.{TeamDb, default_company, member_of, save_member}
use discord_bot_backend.Team.Invites.{is_owner, insufficient_permissions, accept_invite}
use discord_bot_backend.Team.Members.{
  MemberView, member_by_id, update_team_member_role, remove_team_member,
}
use discord_bot_backend.Team.Accept.{HasUniqueMembers}
use discord_bot_backend.Team.Roles.{member_of-eq-some, member_by_id-eq-some}

module _ (orm : Orm) where
  not_owner_after :
      (company user : String) (db : TeamDb orm) (m x : CompanyMember) (role : CompanyMemberRole)
      → HasUniqueMembers orm db
      → orm.get member_id m.id db.members ≡ some m
      → m.company_id ≡ company
      → m.user_id ≡ user
      → role ≢ owner
      → member_of orm company user (save_member orm (record m { role = role }) db) ≡ some x
      → is_owner x.role ≡ false
  unfolding save_member
  not_owner_after company user db m x role unique stored c u demoted h =
      let (kept, there, same) = member_of-eq-some orm company user _ x h in
      ground (
        arith,
        kept,
        orm.get-save member_id x.id (record m { role = role }) db.members,
        eq_iff m.id x.id,
        unique m x stored,
      )

  default_company-save_member :
      (user : String) (m : CompanyMember) (db : TeamDb orm) (c : Company)
      → default_company orm user db ≡ some c
      → default_company orm user (save_member orm m db) ≡ some c
  unfolding default_company save_member
  default_company-save_member user m db c h = h

  update_refused :
      (user id : String) (role : CompanyMemberRole) (db : TeamDb orm) (c : Company)
      → default_company orm user db ≡ some c
      → ((x : CompanyMember) → member_of orm c.id user db ≡ some x → is_owner x.role ≡ false)
      → update_team_member_role orm user id role db ≡ (throw insufficient_permissions, db)
  unfolding update_team_member_role
  update_refused user id role db c e all = elim (Option-cases (member_of orm c.id user db)) [
    | inl f ↦ rw (e, f)
    | inr (x, f) ↦ rw (e, f, all x f)
  ]

  -- If the owner of a workspace sets the owner's own role to another one, no further change of role
  -- by that user succeeds, whatever the member and the role: it is answered
  -- INSUFFICIENT_PERMISSIONS and nothing changes; given that the user is a member of the workspace
  -- only once.
  pub update_team_member_role-lockout :
      (user id : String) (role : CompanyMemberRole) (db db' : TeamDb orm) (view : MemberView)
      (self : CompanyMember) (id' : String) (role' : CompanyMemberRole)
      → HasUniqueMembers orm db
      → orm.get member_id id db.members ≡ some self
      → self.user_id ≡ user
      → role ≢ owner
      → update_team_member_role orm user id role db ≡ (ok view, db')
      → update_team_member_role orm user id' role' db' ≡ (throw insufficient_permissions, db')
  unfolding update_team_member_role
  update_team_member_role-lockout user id role db db' view self id' role' unique stored same demoted
        h =
      elim (Option-cases (default_company orm user db)) [
        | inl e ↦ ground (arith, e)
        | inr (c, e) ↦ elim (Option-cases (member_of orm c.id user db)) [
          | inl f ↦ ground (arith, e, f)
          | inr (a, f) ↦ elim (Option-cases (member_by_id orm id c.id db)) [
            | inl g ↦ ground (arith, e, f, g)
            | inr (m, g) ↦
                let after : db' ≡ save_member orm (record m { role = role }) db =
                  ground (arith, e, f, g) in
                let (kept, row, home) = member_by_id-eq-some orm id c.id db m g in
                rw after (
                  update_refused user id' role' (save_member orm (record m { role = role }) db) c
                    (default_company-save_member user (record m { role = role }) db c e)
                    λ x.
                      not_owner_after c.id user db m x role unique (ground (arith, kept, row)) home
                        (ground (arith, kept, stored)) demoted)
          ]
        ]
      ]

  -- A call that throws leaves all tables as they were.
  pub update_team_member_role-throw :
      (user id : String) (role : CompanyMemberRole) (db db' : TeamDb orm) (err : HttpError)
      → update_team_member_role orm user id role db ≡ (throw err, db')
      → db' ≡ db
  unfolding update_team_member_role
  update_team_member_role-throw user id role db db' err h = ground arith

  pub remove_team_member-throw :
      (user id : String) (db db' : TeamDb orm) (err : HttpError)
      → remove_team_member orm user id db ≡ (throw err, db')
      → db' ≡ db
  unfolding remove_team_member
  remove_team_member-throw user id db db' err h = ground arith

  pub accept_invite-throw :
      (user token : String) (now joined_at : ℕ) (db db' : TeamDb orm) (err : HttpError)
      → accept_invite orm user token now joined_at db ≡ (throw err, db')
      → db' ≡ db
  unfolding accept_invite
  accept_invite-throw user token now joined_at db db' err h = ground arith
