-- ===== src/AdminAuth/Once.antt =====
-- The refresh tokens of administrators over any sequence of calls.
use discord_bot_backend.Prelude.{
  ℕ, String, Option, none, some, ◌≢◌, ◌==◌, ◌&&◌, leb, is_empty, is_some, Bool-cases, Option-cases,
  inl, inr, List, [], ◌∷◌, All,
}
use discord_bot_backend.Orm.{Orm}
use discord_bot_backend.Auth.{Crypto}
use discord_bot_backend.Sessions.{RefreshToken, token_id, find_token}
use discord_bot_backend.Sessions.Spent.{Spent, issue-Spent, revoke-Spent, revoke_all-Spent}
use discord_bot_backend.Team.Invites.{add_days}
use discord_bot_backend.AdminAuth.{
  AdminUser, AdminDb, admin_id, log_entry, log_login_success, log_login_failure, create_session,
  login, rotate, refresh, logout, revoke_all_refresh_tokens, refresh_token_ttl_days,
}
use discord_bot_backend.AdminAuth.Attempts.{known}

-- A call of the service, with the random token and the readings of the clock that it makes.
pub data Call : Type 0 where
  logged_in : (email password fresh : String) (now created_at : ℕ) → Call
  refreshed : (value fresh : String) (now created_at : ℕ) → Call
  logged_out : (who : String) → Option String → (now : ℕ) → Call

module _ (orm : Orm) (crypto : Crypto) (secret : Option String) where
  abbrev pub perform : Call → AdminDb orm → AdminDb orm
  perform (logged_in email password fresh now t) db =
      (login orm crypto secret email password fresh now t db).1
  perform (refreshed value fresh now t) db = (refresh orm crypto secret value fresh now t db).1
  perform (logged_out who value now) db = logout orm crypto secret who value now db

  abbrev pub perform_all : List Call → AdminDb orm → AdminDb orm
  perform_all [] db = db
  perform_all (c ∷ calls) db = perform_all calls (perform c db)

  -- The random token of a call has another hash.
  abbrev pub IsOther : String → Call → Type 0
  IsOther hash (logged_in email password fresh now t) = crypto.digest fresh ≢ hash
  IsOther hash (refreshed value fresh now t) = crypto.digest fresh ≢ hash
  IsOther hash (logged_out who value now) = Unit

  abbrev pub IsSpent : String → AdminDb orm → Type 0
  IsSpent hash db = Spent orm hash db.tokens

  pub create_session-IsSpent :
      (hash who fresh : String) (now t : ℕ) (db : AdminDb orm)
      → crypto.digest fresh ≢ hash
      → IsSpent hash db
      → IsSpent hash (create_session orm crypto secret who fresh now t db).1
  unfolding create_session
  create_session-IsSpent hash who fresh now t db other s =
      let issued =
        issue-Spent orm hash who (crypto.digest fresh) (add_days refresh_token_ttl_days now) t
          db.tokens s other in
      elim (Option-cases secret) [
        | inl unset ↦ rw (unset, create_session) s
        | inr (k, set) ↦ elim (Bool-cases (is_empty k)) [
          | inl empty ↦ rw (set, empty, create_session) s
          | inr key ↦ rw (set, key, create_session) issued
        ]
      ]

  login-IsSpent :
      (hash email password fresh : String) (now t : ℕ) (db : AdminDb orm)
      → crypto.digest fresh ≢ hash
      → IsSpent hash db
      → IsSpent hash (login orm crypto secret email password fresh now t db).1
  unfolding login log_login_success log_login_failure log_entry
  login-IsSpent hash email password fresh now t db other s =
      elim (Option-cases (known orm crypto secret email db)) [
        | inl nobody ↦ rw (nobody, login) s
        | inr (a, there) ↦ elim (Bool-cases (crypto.compare_password password a.password_hash)) [
          | inl right ↦
              rw (there, right, login) (create_session-IsSpent hash a.id fresh now t _ other s)
          | inr wrong ↦ rw (there, wrong, login) s
        ]
      ]

  abbrev pub owner : RefreshToken → AdminDb orm → Option AdminUser
  owner token db = orm.find_one admin_id (λ a. a.id == token.user_id) db.admins

  rotate-IsSpent :
      (hash : String) (token : RefreshToken) (fresh : String) (now t : ℕ) (db : AdminDb orm)
      → crypto.digest fresh ≢ hash
      → IsSpent hash db
      → IsSpent hash (rotate orm crypto secret token fresh now t db).1
  unfolding rotate
  rotate-IsSpent hash token fresh now t db other s = elim (Bool-cases (leb token.expires_at now)) [
    | inl over ↦ rw (over, rotate) s
    | inr live ↦ elim (Option-cases (owner token db)) [
      | inl nobody ↦ rw (live, nobody, rotate) s
      | inr (a, there) ↦
          rw (live, there, rotate)
            (create_session-IsSpent hash a.id fresh now t _ other
              (revoke-Spent orm hash now token db.tokens s))
    ]
  ]

  refresh-IsSpent :
      (hash value fresh : String) (now t : ℕ) (db : AdminDb orm)
      → crypto.digest fresh ≢ hash
      → IsSpent hash db
      → IsSpent hash (refresh orm crypto secret value fresh now t db).1
  unfolding refresh revoke_all_refresh_tokens
  refresh-IsSpent hash value fresh now t db other s =
      elim (Option-cases (find_token orm (crypto.digest value) db.tokens)) [
        | inl unknown ↦ rw (unknown, refresh) s
        | inr (token, there) ↦ elim (Bool-cases (is_some token.revoked_at)) [
          | inl revoked ↦
              rw (there, revoked, refresh) (revoke_all-Spent orm hash token.user_id now db.tokens s)
          | inr live ↦ rw (there, live, refresh) (rotate-IsSpent hash token fresh now t db other s)
        ]
      ]

  logout-IsSpent :
      (hash who : String) (value : Option String) (now : ℕ) (db : AdminDb orm)
      → IsSpent hash db
      → IsSpent hash (logout orm crypto secret who value now db)
  unfolding logout
  logout-IsSpent hash who none now db s = s
  logout-IsSpent hash who (some value) now db s = elim (Bool-cases (is_empty value)) [
    | inl empty ↦ rw (empty, logout) s
    | inr named ↦
        elim (Option-cases (
          orm.find_one token_id (λ r. r.token_hash == crypto.digest value && r.user_id == who)
            db.tokens)) [
              | inl unknown ↦ rw (named, unknown, logout) s
              | inr (token, there) ↦ elim (Bool-cases (is_some token.revoked_at)) [
                | inl revoked ↦ rw (named, there, revoked, logout) s
                | inr live ↦
                    rw (named, there, live, logout) (revoke-Spent orm hash now token db.tokens s)
              ]
            ]
  ]

  pub perform_all-IsSpent :
      (hash : String) (calls : List Call) (db : AdminDb orm)
      → All (IsOther hash) calls
      → IsSpent hash db
      → IsSpent hash (perform_all calls db)
  perform_all-IsSpent hash [] db h s = s
  perform_all-IsSpent hash (logged_in email password fresh now t ∷ calls) db (o, h) s =
      perform_all-IsSpent hash calls _ h (login-IsSpent hash email password fresh now t db o s)
  perform_all-IsSpent hash (refreshed value fresh now t ∷ calls) db (o, h) s =
      perform_all-IsSpent hash calls _ h (refresh-IsSpent hash value fresh now t db o s)
  perform_all-IsSpent hash (logged_out who value now ∷ calls) db (o, h) s =
      perform_all-IsSpent hash calls _ h (logout-IsSpent hash who value now db s)
