-- ===== src/Team/Accept.antt =====
-- What accepting an invite does to the tables.
use discord_bot_backend.Prelude.{
  ℕ, String, false, none, some, ◌≡◌, ◌==◌, leb, ◌⊎◌, if◌then◌else◌, ok, throw, trim, arith, eq_iff,
  Option-cases, Bool-cases, inl, inr,
}
use discord_bot_backend.Orm.{Orm}
use discord_bot_backend.Entities.{CompanyMember, CompanyInvite, member_id, invite_id}
use discord_bot_backend.Team.{TeamDb, member_of, new_member}
use discord_bot_backend.Team.Invites.{
  Joined, find_invite, accept_invite, invite_not_found, get_invite_preview, InvitePreview,
}

module _ (orm : Orm) where
  -- The tables when `user` has joined by `invite`.
  abbrev pub accepted : CompanyInvite → String → ℕ → TeamDb orm → TeamDb orm
  accepted invite user joined_at db = record db {
    members =
        orm.save member_id (new_member orm invite.company_id user invite.role joined_at db)
          db.members;
    invites = orm.remove invite_id invite.id db.invites;
  }

  pub record Accepted (user token : String) (now joined_at : ℕ) (db db' : TeamDb orm) : Type 0 where
    pub invite : CompanyInvite
    pub found : find_invite orm (trim token) db ≡ some invite
    pub in_time : leb invite.expires_at now ≡ false
    pub outsider : member_of orm invite.company_id user db ≡ none
    pub after : db' ≡ accepted invite user joined_at db

  pub accept_invite-Accepted :
      (user token : String) (now joined_at : ℕ) (db db' : TeamDb orm) (joined : Joined)
      → accept_invite orm user token now joined_at db ≡ (ok joined, db')
      → Accepted user token now joined_at db db'
  unfolding accept_invite
  accept_invite-Accepted user token now joined_at db db' joined h =
      elim (Option-cases (find_invite orm (trim token) db)) [
        | inl e ↦ ground (arith, e)
        | inr (invite, e) ↦ record {
          invite = invite;
          found = e;
          in_time = ground (arith, e);
          outsider = ground (arith, e);
          after = ground (arith, e);
        }
      ]

  -- The unique index on `invite_token`.
  abbrev pub HasUniqueTokens : TeamDb orm → Type 0
  HasUniqueTokens db =
      (a b : CompanyInvite)
      → orm.get invite_id a.id db.invites ≡ some a
      → orm.get invite_id b.id db.invites ≡ some b
      → a.invite_token ≡ b.invite_token
      → a.id ≡ b.id

  find_invite_of_used :
      (token : String) (invite : CompanyInvite) (db : TeamDb orm)
      (invites : orm.Table CompanyInvite)
      → HasUniqueTokens db
      → find_invite orm token db ≡ some invite
      → invites ≡ orm.remove invite_id invite.id db.invites
      → find_invite orm token (record db { invites = invites }) ≡ none
  unfolding find_invite
  find_invite_of_used token invite db invites unique found e =
      elim (Option-cases (orm.find_one invite_id (λ i. i.invite_token == token) invites)) [
        | inl gone ↦ gone
        | inr (other, h) ↦
            let (kept, same) = orm.find_one-eq-some invite_id _ invites other h in
            let (there, this) = orm.find_one-eq-some invite_id _ db.invites invite found in
            let removed = orm.get-remove invite_id other.id invite.id db.invites in
            ground (
              arith,
              e,
              kept,
              removed,
              unique invite other there,
              eq_iff invite.invite_token token,
              eq_iff other.invite_token token,
              eq_iff invite.id other.id,
            )
      ]

  -- An invite is good for one member: once a user has joined by a token, whoever presents the same
  -- token again, at whatever time, is answered INVITE_NOT_FOUND and the tables stay as they are;
  -- given that no two stored invites share a token.
  pub accept_invite-once :
      (user token : String) (now joined_at : ℕ) (db db' : TeamDb orm) (joined : Joined)
      (other : String) (now' joined_at' : ℕ)
      → HasUniqueTokens db
      → accept_invite orm user token now joined_at db ≡ (ok joined, db')
      → accept_invite orm other token now' joined_at' db' ≡ (throw invite_not_found, db')
  unfolding accept_invite find_invite
  accept_invite-once user token now joined_at db db' joined other now' joined_at' unique h =
      let a = accept_invite-Accepted user token now joined_at db db' joined h in
      let used =
        find_invite_of_used (trim token) a.invite db db'.invites unique a.found
          (ground (arith, a.after)) in
      rw used

  -- The new member has the role of the invite, in the invite's workspace, and no stored member is
  -- lost or changed.
  pub accept_invite-members :
      (user token : String) (now joined_at : ℕ) (db db' : TeamDb orm) (joined : Joined) (k : String)
      → accept_invite orm user token now joined_at db ≡ (ok joined, db')
      → (invite : CompanyInvite) × (find_invite orm (trim token) db ≡ some invite)
        × (joined.company_id ≡ invite.company_id)
        × (orm.get member_id k db'.members ≡ (
            if orm.new_key member_id db.members == k
            then some (new_member orm invite.company_id user invite.role joined_at db)
            else orm.get member_id k db.members))
  unfolding accept_invite
  accept_invite-members user token now joined_at db db' joined k h =
      let a = accept_invite-Accepted user token now joined_at db db' joined h in
      let new = new_member orm a.invite.company_id user a.invite.role joined_at db in
      let read = orm.get-save member_id k new db.members in
      (a.invite, a.found, ground (arith, a.found, a.in_time, a.outsider), rw (a.after) read)

  accept_invite-cases :
      (user token : String) (now joined_at : ℕ) (db : TeamDb orm)
      → ((accept_invite orm user token now joined_at db).1 ≡ db)
        ⊎ Accepted user token now joined_at db (accept_invite orm user token now joined_at db).1
  unfolding accept_invite
  accept_invite-cases user token now joined_at db =
      elim (Option-cases (find_invite orm (trim token) db)) [
        | inl e ↦ inl (rw e)
        | inr (invite, e) ↦ elim (Bool-cases (leb invite.expires_at now)) [
          | inl late ↦ inl (rw (e, late))
          | inr early ↦ elim (Option-cases (member_of orm invite.company_id user db)) [
            | inl out ↦ inr (record {
              invite = invite;
              found = e;
              in_time = early;
              outsider = out;
              after = rw (e, early, out);
            })
            | inr (m, there) ↦ inl (rw (e, early, there))
          ]
        ]
      ]

  abbrev pub HasUniqueMembers : TeamDb orm → Type 0
  HasUniqueMembers db =
      (a b : CompanyMember)
      → orm.get member_id a.id db.members ≡ some a
      → orm.get member_id b.id db.members ≡ some b
      → a.company_id ≡ b.company_id
      → a.user_id ≡ b.user_id
      → a.id ≡ b.id

  -- No stored member is the given user in the given workspace.
  member_of-none :
      (company user : String) (db : TeamDb orm) (m : CompanyMember)
      → member_of orm company user db ≡ none
      → orm.get member_id m.id db.members ≡ some m
      → m.company_id ≡ company
      → m.user_id ≡ user
      → ⊥
  unfolding member_of
  member_of-none company user db m h g c u = ground (
    arith,
    orm.find_one-eq-none member_id _ db.members m.id m h g,
    eq_iff m.company_id company,
    eq_iff m.user_id user,
  )

  save-HasUniqueMembers :
      (db : TeamDb orm) (new : CompanyMember) (a b : CompanyMember)
      → HasUniqueMembers db
      → member_of orm new.company_id new.user_id db ≡ none
      → orm.get member_id a.id (orm.save member_id new db.members) ≡ some a
      → orm.get member_id b.id (orm.save member_id new db.members) ≡ some b
      → a.company_id ≡ b.company_id
      → a.user_id ≡ b.user_id
      → a.id ≡ b.id
  save-HasUniqueMembers db new a b unique out ha hb c u = ground (
    arith,
    orm.get-save member_id a.id new db.members,
    orm.get-save member_id b.id new db.members,
    eq_iff new.id a.id,
    eq_iff new.id b.id,
    unique a b,
    member_of-none new.company_id new.user_id db a out,
    member_of-none new.company_id new.user_id db b out,
  )

  -- Accepting an invite never makes a user a member of one workspace twice.
  pub accept_invite-HasUniqueMembers :
      (user token : String) (now joined_at : ℕ) (db : TeamDb orm)
      → HasUniqueMembers db
      → HasUniqueMembers (accept_invite orm user token now joined_at db).1
  accept_invite-HasUniqueMembers user token now joined_at db unique =
      elim (accept_invite-cases user token now joined_at db) [
        | inl same ↦ rw same unique
        | inr a ↦ rw (a.after) λ x y.
            save-HasUniqueMembers db
              (new_member orm a.invite.company_id user a.invite.role joined_at db) x y unique
              a.outsider
      ]

  -- When the preview of an invite is shown, accepting it at that time succeeds for a user who is not
  -- yet in the workspace: it has the previewed name, and the new member the previewed role.
  pub accept_invite-preview :
      (user token : String) (now joined_at : ℕ) (db db' : TeamDb orm) (preview : InvitePreview)
      (invite : CompanyInvite)
      → get_invite_preview orm token now db ≡ (ok preview, db')
      → find_invite orm (trim token) db ≡ some invite
      → member_of orm invite.company_id user db ≡ none
      → (accept_invite orm user token now joined_at db ≡ (
        ok (record { company_id = invite.company_id; company_name = preview.company_name }),
        accepted invite user joined_at db,
      ))
        × (invite.role ≡ preview.role)
  unfolding get_invite_preview accept_invite
  accept_invite-preview user token now joined_at db db' preview invite h e out =
      (ground (arith, e, out), ground (arith, e))
