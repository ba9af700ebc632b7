-- ===== src/AdminAuth.antt =====
-- apps/admin-api/src/auth/auth.service.ts: login of administrators, with a log of the attempts, and the
-- rotation of their refresh tokens. Random tokens and each reading of the clock are arguments.
use Prim.Native.String.{◌++◌ as append, count as units}
pub mod Attempts
pub mod Once
pub mod Spends
mod Tests
use discord_bot_backend.Prelude.{
  ℕ, suc, ◌-◌, String, Bool, true, false, Option, none, some, ◌==◌, ◌&&◌, not, leb, is_empty,
  is_some, if◌then◌else◌, trim, HttpError, Outcome, ok, throw, List, [], ◌∷◌,
}
use discord_bot_backend.Orm.{Orm}
use discord_bot_backend.Sessions.{
  RefreshToken, token_id, Session, find_token, issue, revoke, revoke_all,
}
use discord_bot_backend.Team.Invites.{add_days}
use discord_bot_backend.Auth.{Crypto}

pub data AdminUserRole : Type 0 where
  admin super_admin : AdminUserRole

pub record AdminUser : Type 0 where
  pub id : String
  pub email : String
  pub name : String
  pub avatar_url : Option String
  pub role : AdminUserRole
  pub password_hash : String
  pub created_at : ℕ
  pub last_login_at : Option ℕ

-- The fields of the JSON text in `details` stand in a list.
pub record ActivityLog : Type 0 where
  pub id : String
  pub user_id : Option String
  pub admin_user_id : Option String
  pub action : String
  pub details : Option (List (String × String))
  pub created_at : ℕ

abbrev pub log_id : ActivityLog → String
log_id a = a.id

abbrev pub admin_id : AdminUser → String
admin_id a = a.id

pub record AdminDb (orm : Orm) : Type 0 where
  pub admins : orm.Table AdminUser
  pub tokens : orm.Table RefreshToken
  pub log : orm.Table ActivityLog

abbrev pub refresh_token_ttl_days : ℕ
refresh_token_ttl_days = 7

abbrev pub invalid_credentials : HttpError
invalid_credentials = record { status = 401; code = "INVALID_CREDENTIALS" }

abbrev pub unauthorized : HttpError
unauthorized = record { status = 401; code = "UNAUTHORIZED" }

-- `new Error('ADMIN_JWT_SECRET is not set')`, as the exception filter answers it.
abbrev pub no_secret : HttpError
no_secret = record { status = 500; code = "INTERNAL_SERVER_ERROR" }

abbrev pub first_two : String → String
first_two String.[] = String.[]
first_two (String.◌∷◌ c String.[]) = String.◌∷◌ c String.[]
first_two (String.◌∷◌ c (String.◌∷◌ d s)) = String.◌∷◌ c (String.◌∷◌ d String.[])

-- `email.slice(-1)`
abbrev pub last_one : String → String
last_one String.[] = String.[]
last_one (String.◌∷◌ c s) = if is_empty s then String.◌∷◌ c String.[] else last_one s

-- What the log keeps of an address, whose characters are of one unit each.
unfoldable pub masked : String → String
masked email =
    if leb (units email) 2 then "***" else append (first_two email) (append "***" (last_one email))

module _ (orm : Orm) (crypto : Crypto) (secret : Option String) where
  -- `activityLogRepository.save(create(…))`
  unfoldable pub log_entry :
      Option String → String → Option (List (String × String)) → ℕ → AdminDb orm → AdminDb orm
  log_entry who action details now db = record db {
    log =
        orm.save log_id
          (record {
            id = orm.new_key log_id db.log;
            user_id = none;
            admin_user_id = who;
            action = action;
            details = details;
            created_at = now;
          })
          db.log;
  }

  unfoldable pub log_login_success : String → ℕ → AdminDb orm → AdminDb orm
  unfolding log_entry
  log_login_success who now db = log_entry (some who) "admin_login_success" none now db

  unfoldable pub log_login_failure : Option String → String → ℕ → AdminDb orm → AdminDb orm
  unfolding log_entry masked
  log_login_failure who email now db =
      log_entry who "admin_login_failure" (some (("emailMasked", masked email) ∷ [])) now db

  unfoldable pub create_session :
      String → String → ℕ → ℕ → AdminDb orm → Outcome Session × AdminDb orm
  create_session who fresh now created_at db =
      let expires_at = add_days refresh_token_ttl_days now in
      let session : Outcome Session × AdminDb orm = (
        ok (record {
          access_token = crypto.sign who now;
          refresh_token = fresh;
          expires_at = expires_at;
        }),
        record db { tokens = issue orm who (crypto.digest fresh) expires_at created_at db.tokens },
      ) in
      elim secret [
        | none ↦ (throw no_secret, db)
        | some s ↦ if is_empty s then (throw no_secret, db) else session
      ]

  -- The administrator in the answer of a login has the new `last_login_at`.
  unfoldable pub login :
      String → String → String → ℕ → ℕ → AdminDb orm → Outcome Session × AdminDb orm
  unfolding create_session log_login_success log_login_failure
  login email password fresh now created_at db =
      elim (orm.find_one admin_id (λ a. a.email == trim (crypto.to_lower_case email)) db.admins) [
        | none ↦ (throw invalid_credentials, log_login_failure none email created_at db)
        | some a ↦
            if crypto.compare_password password a.password_hash
            then create_session a.id fresh now created_at (
                log_login_success a.id created_at (record db {
                  admins = orm.save admin_id (record a { last_login_at = some now }) db.admins;
                }))
            else (throw invalid_credentials, log_login_failure (some a.id) email created_at db)
      ]

  unfoldable pub revoke_all_refresh_tokens : String → ℕ → AdminDb orm → AdminDb orm
  revoke_all_refresh_tokens who now db = record db { tokens = revoke_all orm who now db.tokens }

  -- The part of `refresh` for a token that is not revoked.
  unfoldable pub rotate :
      RefreshToken → String → ℕ → ℕ → AdminDb orm → Outcome Session × AdminDb orm
  unfolding create_session
  rotate token fresh now created_at db =
      if leb token.expires_at now
      then (throw unauthorized, db)
      else (elim (orm.find_one admin_id (λ a. a.id == token.user_id) db.admins) [
        | none ↦ (throw unauthorized, db)
        | some a ↦
            create_session a.id fresh now created_at
              (record db { tokens = revoke orm now token db.tokens })
      ])

  unfoldable pub refresh : String → String → ℕ → ℕ → AdminDb orm → Outcome Session × AdminDb orm
  unfolding revoke_all_refresh_tokens rotate
  refresh value fresh now created_at db = elim (find_token orm (crypto.digest value) db.tokens) [
    | none ↦ (throw unauthorized, db)
    | some token ↦
        if is_some token.revoked_at
        then (throw unauthorized, revoke_all_refresh_tokens token.user_id now db)
        else rotate token fresh now created_at db
  ]

  unfoldable pub logout : String → Option String → ℕ → AdminDb orm → AdminDb orm
  logout who none now db = db
  logout who (some value) now db =
      if is_empty value
      then db
      else (elim (orm.find_one token_id
          (λ r. r.token_hash == crypto.digest value && r.user_id == who) db.tokens) [
            | none ↦ db
            | some token ↦
                if is_some token.revoked_at
                then db
                else record db { tokens = revoke orm now token db.tokens }
          ])
