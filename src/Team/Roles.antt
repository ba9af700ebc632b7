-- ===== src/Team/Roles.antt =====
-- Who may change a workspace's members, and what a change does.
use discord_bot_backend.Prelude.{
  String, none, some, ◌≡◌, ◌≢◌, ◌==◌, if◌then◌else◌, ok, arith, eq_iff, Option-cases, inl, inr,
}
use discord_bot_backend.Orm.{Orm}
use discord_bot_backend.Entities.{
  Company, CompanyMember, CompanyMemberRole, owner, member, member_id, company_id,
}
use discord_bot_backend.Team.{TeamDb, default_company, member_of}
use discord_bot_backend.Team.Members.{
  MemberView, member_by_id, update_team_member_role, remove_team_member,
}

module _ (orm : Orm) where
  pub member_of-eq-some :
      (company user : String) (db : TeamDb orm) (m : CompanyMember)
      → member_of orm company user db ≡ some m
      → (orm.get member_id m.id db.members ≡ some m) × (m.company_id ≡ company) × (m.user_id ≡ user)
  unfolding member_of
  member_of-eq-some company user db m h = ground (
    arith,
    orm.find_one-eq-some member_id _ db.members m h,
    eq_iff m.company_id company,
    eq_iff m.user_id user,
  )

  pub member_by_id-eq-some :
      (id company : String) (db : TeamDb orm) (m : CompanyMember)
      → member_by_id orm id company db ≡ some m
      → (orm.get member_id id db.members ≡ some m) × (m.id ≡ id) × (m.company_id ≡ company)
  unfolding member_by_id
  member_by_id-eq-some id company db m h = ground (
    arith,
    orm.find_one-eq-some member_id _ db.members m h,
    eq_iff m.id id,
    eq_iff m.company_id company,
  )

  pub default_company-eq-some :
      (user : String) (db : TeamDb orm) (c : Company)
      → default_company orm user db ≡ some c
      → (orm.get company_id c.id db.companies ≡ some c) × (c.owner_id ≡ user)
  unfolding default_company
  default_company-eq-some user db c h =
      ground (arith, orm.find_first-eq-some company_id _ _ db.companies c h, eq_iff c.owner_id user)

  -- Why a removal by `user` of the row `id` was carried out.
  pub record MayRemove (user id : String) (db : TeamDb orm) : Type 0 where
    pub company : Company
    pub actor : CompanyMember
    pub target : CompanyMember
    pub owned :
        (orm.get company_id company.id db.companies ≡ some company) × (company.owner_id ≡ user)
    pub acting : member_of orm company.id user db ≡ some actor
    pub stored : orm.get member_id id db.members ≡ some target
    pub inside : (target.id ≡ id) × (target.company_id ≡ company.id)
    pub privileged : actor.role ≢ member
    pub other : target.user_id ≢ user
    pub owners_by_owners : target.role ≡ owner → actor.role ≡ owner

  -- A removal that succeeds was asked for by an owner or admin among the members of a workspace that
  -- the caller owns; it deletes the row that was asked for, which stands in that workspace, is not
  -- the caller's, and is an owner's only if the caller is an owner; all other rows stay.
  pub remove_team_member-MayRemove :
      (user id : String) (db db' : TeamDb orm) (k : String)
      → remove_team_member orm user id db ≡ (ok tt, db')
      → MayRemove user id db
        × (orm.get member_id k db'.members
            ≡ (if id == k then none else orm.get member_id k db.members))
  unfolding remove_team_member
  remove_team_member-MayRemove user id db db' k h =
      elim (Option-cases (default_company orm user db)) [
        | inl e ↦ ground (arith, e)
        | inr (c, e) ↦ elim (Option-cases (member_of orm c.id user db)) [
          | inl f ↦ ground (arith, e, f)
          | inr (a, f) ↦ elim (Option-cases (member_by_id orm id c.id db)) [
            | inl g ↦ ground (arith, e, f, g)
            | inr (m, g) ↦ (
              record {
                company = c;
                actor = a;
                target = m;
                owned = default_company-eq-some user db c e;
                acting = f;
                stored = (member_by_id-eq-some id c.id db m g).0;
                inside = ground (arith, member_by_id-eq-some id c.id db m g);
                privileged = ground (arith, e, f, g);
                other = ground (arith, e, f, g, eq_iff m.user_id user);
                owners_by_owners = ground (arith, e, f, g);
              },
              ground (
                arith,
                e,
                f,
                g,
                orm.get-remove member_id k m.id db.members,
                member_by_id-eq-some id c.id db m g,
              ),
            )
          ]
        ]
      ]

  -- Why a change of role by `user` was carried out.
  pub record MayUpdate (user id : String) (db : TeamDb orm) : Type 0 where
    pub company : Company
    pub actor : CompanyMember
    pub target : CompanyMember
    pub owned :
        (orm.get company_id company.id db.companies ≡ some company) × (company.owner_id ≡ user)
    pub acting : member_of orm company.id user db ≡ some actor
    pub stored : orm.get member_id id db.members ≡ some target
    pub inside : (target.id ≡ id) × (target.company_id ≡ company.id)
    pub privileged : actor.role ≡ owner

  -- A change of role that succeeds was asked for by a member with the role of owner in a workspace
  -- that the caller owns; the row that was asked for stands in that workspace and gets the new role
  -- and no other change, and all other rows stay.
  pub update_team_member_role-MayUpdate :
      (user id : String) (role : CompanyMemberRole) (db db' : TeamDb orm) (view : MemberView)
      (k : String)
      → update_team_member_role orm user id role db ≡ (ok view, db')
      → (may : MayUpdate user id db) × (orm.get member_id k db'.members ≡ (
          if id == k
          then some (record may.target { role = role })
          else orm.get member_id k db.members))
  unfolding update_team_member_role
  update_team_member_role-MayUpdate user id role db db' view k h =
      elim (Option-cases (default_company orm user db)) [
        | inl e ↦ ground (arith, e)
        | inr (c, e) ↦ elim (Option-cases (member_of orm c.id user db)) [
          | inl f ↦ ground (arith, e, f)
          | inr (a, f) ↦ elim (Option-cases (member_by_id orm id c.id db)) [
            | inl g ↦ ground (arith, e, f, g)
            | inr (m, g) ↦ (
              record {
                company = c;
                actor = a;
                target = m;
                owned = default_company-eq-some user db c e;
                acting = f;
                stored = (member_by_id-eq-some id c.id db m g).0;
                inside = ground (arith, member_by_id-eq-some id c.id db m g);
                privileged = ground (arith, e, f, g);
              },
              ground (
                arith,
                e,
                f,
                g,
                orm.get-save member_id k (record m { role = role }) db.members,
                member_by_id-eq-some id c.id db m g,
              ),
            )
          ]
        ]
      ]
