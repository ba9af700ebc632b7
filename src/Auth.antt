-- ===== src/Auth.antt =====
-- apps/frontend-api/src/auth/auth.service.ts: registration, login and the rotation of refresh
-- tokens. Random tokens and each reading of the clock are arguments.
use Prim.Native.String.{◌++◌ as append}
pub mod Rotation
pub mod Once
pub mod Chain
mod Tests
use discord_bot_backend.Prelude.{
  ℕ, String, Bool, true, false, Option, none, some, ◌==◌, ◌&&◌, not, leb, if◌then◌else◌, HttpError,
  Outcome, ok, throw, Action, resume, ◌>>=◌, ◌>>◌, pure, query, modify, throw_if, require, abort,
  trim, is_empty, is_some, or_else,
}
use discord_bot_backend.Orm.{Orm}
use discord_bot_backend.Entities.{User, free, UserStatus, active, banned, user_id}
use discord_bot_backend.Sessions.{
  RefreshToken, token_id, Session, find_token, issue, revoke, revoke_all,
}
use discord_bot_backend.Team.{TeamDb, ensure_default_workspace}
use discord_bot_backend.Team.Invites.{add_days}

-- What the services take from the language's Unicode tables (`toLowerCase`), from `node:crypto`
-- (SHA-256 in hexadecimal), from bcrypt and from the JWT library.
pub record Crypto : Type 0 where
  pub to_lower_case : String → String
  pub digest : String → String
  -- The second argument is the random salt.
  pub hash_password : String → String → String
  pub compare_password : String → String → Bool
  -- The second argument is the time of issue.
  pub sign : String → ℕ → String

pub record AuthDb (orm : Orm) : Type 0 where
  pub team : TeamDb orm
  pub tokens : orm.Table RefreshToken

pub record DiscordUser : Type 0 where
  pub id : String
  pub username : String
  pub discriminator : Option String
  pub avatar : Option String
  pub email : Option String

abbrev pub refresh_token_ttl_days : ℕ
refresh_token_ttl_days = 7

abbrev pub token_invalid : HttpError
token_invalid = record { status = 401; code = "TOKEN_INVALID" }

abbrev pub token_expired : HttpError
token_expired = record { status = 401; code = "TOKEN_EXPIRED" }

abbrev pub invalid_credentials : HttpError
invalid_credentials = record { status = 401; code = "INVALID_CREDENTIALS" }

abbrev pub email_exists : HttpError
email_exists = record { status = 422; code = "VALIDATION_ERROR" }

abbrev pub upsert_failed : HttpError
upsert_failed = record { status = 500; code = "INTERNAL_SERVER_ERROR" }

abbrev pub is_active : UserStatus → Bool
is_active active = true
is_active banned = false

-- `if (!avatarHash) return null`
pub build_avatar_url : String → Option String → Option String
build_avatar_url discord_id none = none
build_avatar_url discord_id (some hash) =
    if is_empty hash
    then none
    else some (
        append "https://cdn.discordapp.com/avatars/"
          (append discord_id (append "/" (append hash ".png?size=80"))))

-- `column = value` in a `where`, for a nullable column.
abbrev pub equals : Option String → String → Bool
equals none value = false
equals (some text) value = text == value

module _ (orm : Orm) where
  abbrev pub save_user : User → AuthDb orm → AuthDb orm
  save_user u db = record db {
    team = record (db.team) { users = orm.save user_id u db.team.users };
  }

  abbrev pub user_by_email : String → AuthDb orm → Option User
  user_by_email email db = orm.find_one user_id (λ u. equals u.email email) db.team.users

  abbrev pub user_by_discord_id : String → AuthDb orm → Option User
  user_by_discord_id id db = orm.find_one user_id (λ u. equals u.discord_id id) db.team.users

  unfoldable pub user_by_id : String → AuthDb orm → Option User
  user_by_id id db = orm.find_one user_id (λ u. u.id == id) db.team.users

  abbrev pub with_tokens :
      (orm.Table RefreshToken → orm.Table RefreshToken) → AuthDb orm → AuthDb orm
  with_tokens f db = record db { tokens = f db.tokens }

  -- `ensureDefaultWorkspace`, whose result the callers drop.
  unfoldable pub ensure_workspace : String → String → ℕ → AuthDb orm → AuthDb orm
  ensure_workspace user name now db = record db {
    team = (ensure_default_workspace orm user (some name) now now db.team).1;
  }

module _ (orm : Orm) (crypto : Crypto) where
  open crypto use {to_lower_case, digest, hash_password, compare_password, sign}

  unfoldable pub create_session : String → String → ℕ → ℕ → Action (AuthDb orm) Session
  create_session user fresh now created_at = do
    let expires_at = add_days refresh_token_ttl_days now
    modify (with_tokens orm (issue orm user (digest fresh) expires_at created_at))
    pure (record { access_token = sign user now; refresh_token = fresh; expires_at = expires_at })

  unfoldable pub register :
      String → String → String → String → String → ℕ → ℕ → Action (AuthDb orm) (User × Session)
  unfolding create_session
  register full_name email password salt fresh created_at now = do
    let normalized = trim (to_lower_case email)
    existing ← query (user_by_email orm normalized)
    throw_if (is_some existing) email_exists
    user ← query λ db. record {
      id = orm.new_key user_id db.team.users;
      discord_id = none;
      username = trim full_name;
      discriminator = none;
      avatar_url = none;
      email = some normalized;
      password_hash = some (hash_password password salt);
      plan = free;
      status = active;
      created_at = created_at;
      last_login_at = none;
    }
    modify (save_user orm user)
    modify (ensure_workspace orm user.id (trim full_name) now)
    session ← create_session user.id fresh now created_at
    pure (user, session)

  -- `password_hash` is tested for its truth value: an empty one counts as missing.
  abbrev pub has_password : User → Option String
  has_password u = elim (u.password_hash) [
    | none ↦ none
    | some hash ↦ if is_empty hash then none else some hash
  ]

  unfoldable pub login : String → String → String → ℕ → ℕ → Action (AuthDb orm) (User × Session)
  unfolding create_session
  login email password fresh now created_at = do
    user ← λ db. require invalid_credentials (user_by_email orm (trim (to_lower_case email)) db) db
    hash ← require invalid_credentials (has_password user)
    throw_if (not (is_active user.status)) invalid_credentials
    throw_if (not (compare_password password hash)) invalid_credentials
    let seen = record user { last_login_at = some now }
    modify (save_user orm seen)
    modify (ensure_workspace orm seen.id seen.username now)
    session ← create_session seen.id fresh now created_at
    pure (seen, session)

  -- `insert … on conflict (discord_id) do update`.
  pub upserted : DiscordUser → ℕ → AuthDb orm → User
  unfolding build_avatar_url
  upserted d now db = elim (user_by_discord_id orm d.id db) [
    | none ↦ record {
      id = orm.new_key user_id db.team.users;
      discord_id = some d.id;
      username = d.username;
      discriminator = d.discriminator;
      avatar_url = build_avatar_url d.id d.avatar;
      email = d.email;
      password_hash = none;
      plan = free;
      status = active;
      created_at = now;
      last_login_at = some now;
    }
    | some u ↦ record u {
      username = d.username;
      discriminator = d.discriminator;
      avatar_url = build_avatar_url d.id d.avatar;
      email = d.email;
      last_login_at = some now;
    }
  ]

  unfoldable pub upsert_user_from_discord : DiscordUser → ℕ → Action (AuthDb orm) User
  unfolding upserted
  upsert_user_from_discord d now = do
    modify λ db. save_user orm (upserted d now db) db
    user ← λ db. require upsert_failed (user_by_discord_id orm d.id db) db
    modify (ensure_workspace orm user.id d.username now)
    pure user

  unfoldable pub verify_discord_token :
      DiscordUser → String → ℕ → ℕ → Action (AuthDb orm) (User × Session)
  unfolding upsert_user_from_discord create_session
  verify_discord_token d fresh now created_at = do
    user ← upsert_user_from_discord d now
    session ← create_session user.id fresh now created_at
    pure (user, session)

  -- `revokeAllRefreshTokensForUser`
  unfoldable pub revoke_all_refresh_tokens : String → ℕ → Action (AuthDb orm) (Unit {0})
  revoke_all_refresh_tokens user now = modify (with_tokens orm (revoke_all orm user now))

  -- The part of `refresh` after the tests on `revokedAt` and `expiresAt`.
  pub rotate : RefreshToken → String → ℕ → ℕ → Action (AuthDb orm) Session
  unfolding create_session
  rotate token fresh now created_at = do
    user ← λ db. require token_invalid (user_by_id orm token.user_id db) db
    throw_if (not (is_active user.status)) token_invalid
    modify (with_tokens orm (revoke orm now token))
    create_session user.id fresh now created_at

  unfoldable pub refresh : String → String → ℕ → ℕ → Action (AuthDb orm) Session
  unfolding revoke_all_refresh_tokens rotate
  refresh value fresh now created_at = do
    token ← λ db. require token_invalid (find_token orm (digest value) db.tokens) db
    λ db.
        (if is_some token.revoked_at
            then (do revoke_all_refresh_tokens token.user_id now; abort token_invalid)
            else (do
              throw_if (leb token.expires_at now) token_expired
              rotate token fresh now created_at))
          db

  -- `findOne({ where: { tokenHash, userId } })`; an absent or empty value is no token.
  unfoldable pub logout : String → Option String → ℕ → Action (AuthDb orm) (Unit {0})
  logout user none now = pure tt
  logout user (some value) now =
      if is_empty value
      then pure tt
      else modify λ db.
        elim (orm.find_one token_id (λ r. r.token_hash == digest value && r.user_id == user)
          db.tokens) [
            | none ↦ db
            | some token ↦
                if is_some token.revoked_at then db else with_tokens orm (revoke orm now token) db
          ]
