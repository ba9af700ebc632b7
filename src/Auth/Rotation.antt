-- ===== src/Auth/Rotation.antt =====
-- auth.service.ts: what each call of the service does to the stored refresh tokens.
use discord_bot_backend.Prelude.{
  ℕ, String, true, false, Option, none, some, ◌≡◌, ◌≢◌, ◌==◌, arith, Option-cases, Bool-cases, inl,
  inr, leb, is_some, trim, ◌&&◌, is_empty, ok, throw,
}
use discord_bot_backend.Orm.{Orm}
use discord_bot_backend.Entities.{User}
use discord_bot_backend.Sessions.{RefreshToken, Session, token_id, find_token, issue, revoke}
use discord_bot_backend.Sessions.Spent.{
  Spent, find_token-Spent, issue-Spent, revoke-Spent, revoke_all-Spent,
}
use discord_bot_backend.Team.Invites.{add_days}
use discord_bot_backend.Auth.{
  has_password, user_by_email, user_by_discord_id, Crypto, AuthDb, DiscordUser, create_session,
  register, login, refresh, logout, verify_discord_token, token_invalid, with_tokens, user_by_id,
  ensure_workspace, save_user, is_active, upserted, refresh_token_ttl_days,
}

module _ (orm : Orm) (crypto : Crypto) where
  open crypto use {digest}

  -- What a rotation that succeeds has found and done.
  pub record Rotated (value fresh : String) (now created_at : ℕ) (db db' : AuthDb orm)
      : Type 0 where
    pub token : RefreshToken
    pub user : User
    pub found : find_token orm (digest value) db.tokens ≡ some token
    pub unrevoked : token.revoked_at ≡ none
    pub in_time : leb token.expires_at now ≡ false
    pub known : user_by_id orm token.user_id db ≡ some user
    pub is_live : is_active user.status ≡ true
    pub after :
        db'
        ≡ with_tokens orm
            (λ t.
              issue orm user.id
                (digest fresh)
                (add_days refresh_token_ttl_days now)
                created_at
                (revoke orm now token t))
            db

  pub refresh-Rotated :
      (value fresh : String) (now created_at : ℕ) (db db' : AuthDb orm) (session : Session)
      → refresh orm crypto value fresh now created_at db ≡ (ok session, db')
      → Rotated value fresh now created_at db db'
  unfolding refresh
  refresh-Rotated value fresh now created_at db db' session h =
      elim (Option-cases (find_token orm (digest value) db.tokens)) [
        | inl e ↦ ground (arith, e)
        | inr (token, e) ↦ elim (Option-cases (user_by_id orm token.user_id db)) [
          | inl f ↦ ground (arith, e, f)
          | inr (user, f) ↦ record {
            token = token;
            user = user;
            found = e;
            unrevoked = ground (arith, e, f);
            in_time = ground (arith, e, f);
            known = f;
            is_live = ground (arith, e, f);
            after = ground (arith, e, f);
          }
        ]
      ]

  -- A token that is presented again after all stored tokens of its hash have been revoked is
  -- refused, and if one is found, all tokens of its user are revoked.
  pub refresh_of_Spent :
      (value fresh : String) (now created_at : ℕ) (db : AuthDb orm)
      → Spent orm (digest value) db.tokens
      → (refresh orm crypto value fresh now created_at db).0 ≡ throw token_invalid
  unfolding refresh
  refresh_of_Spent value fresh now created_at db spent =
      elim (Option-cases (find_token orm (digest value) db.tokens)) [
        | inl e ↦ rw e
        | inr (token, e) ↦
            ground (arith, e, find_token-Spent orm (digest value) db.tokens token spent e)
      ]

  -- One call of the service by anybody, at any time.
  pub data Step (hash : String) (db : AuthDb orm) : AuthDb orm → Type 0 where
    registered :
        (full_name email password salt fresh : String) (t now : ℕ)
        → digest fresh ≢ hash
        → Step hash db (register orm crypto full_name email password salt fresh t now db).1
    logged_in :
        (email password fresh : String) (now t : ℕ)
        → digest fresh ≢ hash
        → Step hash db (login orm crypto email password fresh now t db).1
    verified :
        (d : DiscordUser) (fresh : String) (now t : ℕ)
        → digest fresh ≢ hash
        → Step hash db (verify_discord_token orm crypto d fresh now t db).1
    refreshed :
        (value fresh : String) (now t : ℕ)
        → digest fresh ≢ hash
        → Step hash db (refresh orm crypto value fresh now t db).1
    logged_out :
        (user : String) (value : Option String) (now : ℕ)
        → Step hash db (logout orm crypto user value now db).1

  pub data Reach (hash : String) (db : AuthDb orm) : AuthDb orm → Type 0 where
    here : Reach hash db db
    next : {a b : AuthDb orm} → Reach hash db a → Step hash a b → Reach hash db b

  create_session-Spent :
      (hash user fresh : String) (now t : ℕ) (db : AuthDb orm)
      → digest fresh ≢ hash
      → Spent orm hash db.tokens
      → Spent orm hash (create_session orm crypto user fresh now t db).1.tokens
  unfolding create_session
  create_session-Spent hash user fresh now t db other spent =
      issue-Spent orm hash user (digest fresh) (add_days refresh_token_ttl_days now) t db.tokens
        spent other

  pub register-Spent :
      (hash full_name email password salt fresh : String) (t now : ℕ) (db : AuthDb orm)
      → digest fresh ≢ hash
      → Spent orm hash db.tokens
      → Spent orm hash (register orm crypto full_name email password salt fresh t now db).1.tokens
  unfolding register ensure_workspace
  register-Spent hash full_name email password salt fresh t now db other spent =
      elim (Bool-cases (is_some (user_by_email orm (trim (crypto.to_lower_case email)) db))) [
        | inl taken ↦ rw taken spent
        | inr free ↦ rw free (
            issue-Spent orm hash _ (digest fresh) (add_days refresh_token_ttl_days now) t db.tokens
              spent other)
      ]

  pub login-Spent :
      (hash email password fresh : String) (now t : ℕ) (db : AuthDb orm)
      → digest fresh ≢ hash
      → Spent orm hash db.tokens
      → Spent orm hash (login orm crypto email password fresh now t db).1.tokens
  unfolding login ensure_workspace
  login-Spent hash email password fresh now t db other spent =
      elim (Option-cases (user_by_email orm (trim (crypto.to_lower_case email)) db)) [
        | inl e ↦ rw e spent
        | inr (u, e) ↦ elim (Option-cases (has_password orm crypto u)) [
          | inl f ↦ rw (e, f) spent
          | inr (p, f) ↦ elim (Bool-cases (is_active u.status)) [
            | inr g ↦ rw (e, f, g) spent
            | inl g ↦ elim (Bool-cases (crypto.compare_password password p)) [
              | inr k ↦ rw (e, f, g, k) spent
              | inl k ↦
                  rw (e, f, g, k)
                    (issue-Spent orm hash u.id (digest fresh) (add_days refresh_token_ttl_days now)
                      t db.tokens spent other)
            ]
          ]
        ]
      ]

  pub verify-Spent :
      (hash : String) (d : DiscordUser) (fresh : String) (now t : ℕ) (db : AuthDb orm)
      → digest fresh ≢ hash
      → Spent orm hash db.tokens
      → Spent orm hash (verify_discord_token orm crypto d fresh now t db).1.tokens
  unfolding verify_discord_token ensure_workspace
  verify-Spent hash d fresh now t db other spent =
      elim (Option-cases
        (user_by_discord_id orm d.id (save_user orm (upserted orm crypto d now db) db))) [
          | inl e ↦ rw e spent
          | inr (u, e) ↦ rw e (
              issue-Spent orm hash u.id (digest fresh) (add_days refresh_token_ttl_days now) t
                db.tokens spent other)
        ]

  pub refresh-Spent :
      (hash value fresh : String) (now t : ℕ) (db : AuthDb orm)
      → digest fresh ≢ hash
      → Spent orm hash db.tokens
      → Spent orm hash (refresh orm crypto value fresh now t db).1.tokens
  unfolding refresh
  refresh-Spent hash value fresh now t db other spent =
      elim (Option-cases (find_token orm (digest value) db.tokens)) [
        | inl e ↦ rw e spent
        | inr (token, e) ↦ elim (Bool-cases (is_some token.revoked_at)) [
          | inl reused ↦
              rw (e, reused) (revoke_all-Spent orm hash token.user_id now db.tokens spent)
          | inr unused ↦ elim (Bool-cases (leb token.expires_at now)) [
            | inl late ↦ rw (e, unused, late) spent
            | inr early ↦ elim (Option-cases (user_by_id orm token.user_id db)) [
              | inl f ↦ rw (e, unused, early, f) spent
              | inr (u, f) ↦ elim (Bool-cases (is_active u.status)) [
                | inr g ↦ rw (e, unused, early, f, g) spent
                | inl g ↦
                    rw (e, unused, early, f, g)
                      (issue-Spent orm hash u.id (digest fresh)
                        (add_days refresh_token_ttl_days now) t (revoke orm now token db.tokens)
                        (revoke-Spent orm hash now token db.tokens spent) other)
              ]
            ]
          ]
        ]
      ]

  pub logout-Spent :
      (hash user : String) (value : Option String) (now : ℕ) (db : AuthDb orm)
      → Spent orm hash db.tokens
      → Spent orm hash (logout orm crypto user value now db).1.tokens
  unfolding logout
  logout-Spent hash user none now db spent = spent
  logout-Spent hash user (some value) now db spent = elim (Bool-cases (is_empty value)) [
    | inl e ↦ rw e spent
    | inr e ↦
        elim (Option-cases (
          orm.find_one token_id (λ r. r.token_hash == digest value && r.user_id == user)
            db.tokens)) [
              | inl f ↦ rw (e, f) spent
              | inr (token, f) ↦ elim (Bool-cases (is_some token.revoked_at)) [
                | inl g ↦ rw (e, f, g) spent
                | inr g ↦ rw (e, f, g) (revoke-Spent orm hash now token db.tokens spent)
              ]
            ]
  ]
