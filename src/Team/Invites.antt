-- ===== src/Team/Invites.antt =====
-- team.service.ts: the methods on invites.
use discord_bot_backend.Prelude.{
  ℕ, ◌+◌, ◌*◌, String, Bool, true, false, Option, none, some, ◌==◌, ◌&&◌, not, leb, if◌then◌else◌,
  HttpError, Action, ◌>>=◌, ◌>>◌, pure, query, modify, require, throw_if, trim, is_empty, is_some,
}
use discord_bot_backend.Orm.{Orm}
use discord_bot_backend.Entities.{
  User, Company, CompanyInvite, CompanyMemberRole, owner, admin, company_id, invite_id, user_id,
}
use discord_bot_backend.Team.{TeamDb, default_company, member_of, save_member, new_member}

abbrev pub invite_expiry_days : ℕ
invite_expiry_days = 7

-- `setDate(getDate() + days)`, in a time zone whose days have 24 hours.
abbrev pub add_days : ℕ → ℕ → ℕ
add_days days time = time + days * 86_400_000

abbrev pub invite_not_found : HttpError
invite_not_found = record { status = 404; code = "INVITE_NOT_FOUND" }

abbrev pub invite_expired : HttpError
invite_expired = record { status = 410; code = "INVITE_EXPIRED" }

abbrev pub already_team_member : HttpError
already_team_member = record { status = 409; code = "ALREADY_TEAM_MEMBER" }

abbrev pub insufficient_permissions : HttpError
insufficient_permissions = record { status = 403; code = "INSUFFICIENT_PERMISSIONS" }

abbrev pub is_owner : CompanyMemberRole → Bool
is_owner owner = true
is_owner _ = false

abbrev pub is_admin : CompanyMemberRole → Bool
is_admin admin = true
is_admin _ = false

pub record InvitePreview : Type 0 where
  pub company_name : String
  pub inviter_name : String
  pub role : CompanyMemberRole

pub record Joined : Type 0 where
  pub company_id : String
  pub company_name : String

-- `o?.name ?? ''`
abbrev pub name_of : Option Company → String
name_of none = ""
name_of (some c) = c.name

abbrev pub username_of : Option User → String
username_of none = ""
username_of (some u) = u.username

-- `name?.trim() || null`
unfoldable pub trimmed_name : Option String → Option String
unfolding trim
trimmed_name none = none
trimmed_name (some name) = if is_empty (trim name) then none else some (trim name)

module _ (orm : Orm) where
  unfoldable pub find_invite : String → TeamDb orm → Option CompanyInvite
  find_invite token db = orm.find_one invite_id (λ i. i.invite_token == token) db.invites

  unfoldable pub get_invite_preview : String → ℕ → Action (TeamDb orm) InvitePreview
  get_invite_preview token now = do
    invite ← λ db. require invite_not_found (find_invite (trim token) db) db
    throw_if (leb invite.expires_at now) invite_expired
    λ db.
        pure
          (record {
            company_name = name_of (orm.get company_id invite.company_id db.companies);
            inviter_name = username_of (orm.get user_id invite.invited_by db.users);
            role = invite.role;
          })
          db

  -- The token comes from `randomBytes`, the URL from the configuration and the token.
  unfoldable pub invite_team_member :
      (String → String)
      → String
      → CompanyMemberRole
      → Option String
      → String
      → ℕ
      → ℕ
      → Action (TeamDb orm) (String × String)
  unfolding trimmed_name
  invite_team_member invite_url user role name token now created_at = do
    company ← λ db. require insufficient_permissions (default_company orm user db) db
    inviter ← λ db. require insufficient_permissions (member_of orm company.id user db) db
    throw_if (not (is_owner inviter.role) && not (is_admin inviter.role)) insufficient_permissions
    modify λ db. record db {
      invites =
          orm.save invite_id
            (record {
              id = orm.new_key invite_id db.invites;
              company_id = company.id;
              email = none;
              invitee_display_name = trimmed_name name;
              role = role;
              invite_token = token;
              invited_by = user;
              expires_at = add_days invite_expiry_days now;
              created_at = created_at;
            })
            db.invites;
    }
    pure (token, invite_url token)

  unfoldable pub accept_invite : String → String → ℕ → ℕ → Action (TeamDb orm) Joined
  unfolding save_member
  accept_invite user token now joined_at = do
    invite ← λ db. require invite_not_found (find_invite (trim token) db) db
    throw_if (leb invite.expires_at now) invite_expired
    existing ← query (member_of orm invite.company_id user)
    throw_if (is_some existing) already_team_member
    modify λ db. save_member orm (new_member orm invite.company_id user invite.role joined_at db) db
    modify λ db. record db { invites = orm.remove invite_id invite.id db.invites }
    λ db.
        pure
          (record {
            company_id = invite.company_id;
            company_name = name_of (orm.get company_id invite.company_id db.companies);
          })
          db
