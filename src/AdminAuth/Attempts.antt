-- ===== src/AdminAuth/Attempts.antt =====
-- The log of the attempts to log in.
use discord_bot_backend.Prelude.{
  ℕ, String, Bool, false, Option, none, some, ◌≡◌, refl, ap, ◌∙◌, ◌==◌, is_empty, trim,
  if◌then◌else◌, Bool-cases, Option-cases, inl, inr, [], ◌∷◌,
}
use discord_bot_backend.Orm.{Orm}
use discord_bot_backend.Auth.{Crypto}
use discord_bot_backend.AdminAuth.{
  AdminUser, ActivityLog, AdminDb, log_id, admin_id, masked, log_entry, log_login_success,
  log_login_failure, create_session, login,
}

module _ (orm : Orm) (crypto : Crypto) (secret : Option String) where
  -- The administrator with the address, and whether the password is theirs.
  abbrev pub known : String → AdminDb orm → Option AdminUser
  known email db =
      orm.find_one admin_id (λ a. a.email == trim (crypto.to_lower_case email)) db.admins

  abbrev pub succeeds : String → Option AdminUser → Bool
  succeeds password none = false
  succeeds password (some a) = crypto.compare_password password a.password_hash

  abbrev pub id_of : Option AdminUser → Option String
  id_of none = none
  id_of (some a) = some a.id

  -- The entry that an attempt is to leave.
  abbrev pub attempt : String → String → ℕ → AdminDb orm → ActivityLog
  attempt email password created_at db =
      let valid = succeeds password (known email db) in
      record {
        id = orm.new_key log_id db.log;
        user_id = none;
        admin_user_id = id_of (known email db);
        action = if valid then "admin_login_success" else "admin_login_failure";
        details = if valid then none else some (("emailMasked", masked email) ∷ []);
        created_at = created_at;
      }

  log-create_session :
      (who fresh : String) (now created_at : ℕ) (db : AdminDb orm)
      → (create_session orm crypto secret who fresh now created_at db).1.log ≡ db.log
  unfolding create_session
  log-create_session who fresh now created_at db = elim (Option-cases secret) [
    | inl unset ↦ rw (unset, create_session) refl
    | inr (s, set) ↦ elim (Bool-cases (is_empty s)) [
      | inl empty ↦ rw (set, empty, create_session) refl
      | inr key ↦ rw (set, key, create_session) refl
    ]
  ]

  -- Every attempt to log in, whatever its end, adds one entry to the log and changes none: it tells
  -- whether the password was right, whose address it was, if it is known, and of a failed attempt the
  -- masked address.
  pub login-attempt :
      (email password fresh k : String) (now created_at : ℕ) (db : AdminDb orm)
      → orm.get log_id k (login orm crypto secret email password fresh now created_at db).1.log ≡ (
          if orm.new_key log_id db.log == k
          then some (attempt email password created_at db)
          else orm.get log_id k db.log)
  unfolding login log_login_success log_login_failure log_entry
  login-attempt email password fresh k now created_at db = elim (Option-cases (known email db)) [
    | inl nobody ↦ rw (nobody, login) (orm.get-save log_id k _ db.log)
    | inr (a, there) ↦ elim (Bool-cases (crypto.compare_password password a.password_hash)) [
      | inl right ↦
          rw (there, right, login)
            (ap (orm.get log_id k) (log-create_session a.id fresh now created_at _)
              ∙ orm.get-save log_id k _ db.log)
      | inr wrong ↦ rw (there, wrong, login) (orm.get-save log_id k _ db.log)
    ]
  ]
