-- ===== src/Auth/Chain.antt =====
-- A rotation and the next use of its two tokens, the exchanged one and the new one.
use discord_bot_backend.Prelude.{
  ℕ, ◌<◌, String, true, none, some, ◌≡◌, ◌≢◌, refl, ap, ◌∙◌, arith, eq_iff, eq_refl, ok, throw,
}
use discord_bot_backend.Orm.{Orm}
use discord_bot_backend.Entities.{User, user_id}
use discord_bot_backend.Sessions.{
  RefreshToken, Session, token_id, find_token, issue, revoke, revoke_all,
}
use discord_bot_backend.Sessions.Spent.{
  HasUniqueHashes, find_token-eq-some, revoke_all-revoked, rotated-get, rotated-new_key,
  find_token_of_unique,
}
use discord_bot_backend.Team.Invites.{add_days}
use discord_bot_backend.Auth.{
  Crypto, AuthDb, refresh, token_invalid, with_tokens, user_by_id, is_active,
  refresh_token_ttl_days,
}
use discord_bot_backend.Auth.Rotation.{Rotated, refresh-Rotated}

module _ (orm : Orm) (crypto : Crypto) where
  open crypto use {digest}

  -- The row of an exchanged token is the only one of its hash.
  find_token-Rotated :
      (value fresh : String) (now t : ℕ) (db db' : AuthDb orm)
      → HasUniqueHashes orm db.tokens
      → digest fresh ≢ digest value
      → (a : Rotated orm crypto value fresh now t db db')
      → find_token orm (digest value) db'.tokens ≡ some (record (a.token) { revoked_at = some now })
  find_token-Rotated value fresh now t db db' unique other a =
      let (stored, same) = find_token-eq-some orm (digest value) db.tokens a.token a.found in
      let read = λ (k : String).
        rotated-get orm now (add_days refresh_token_ttl_days now) t a.user.id (digest fresh) a.token
          db.tokens k in
      let apart = rotated-new_key orm now a.token db.tokens in
      let new = orm.new_key token_id (revoke orm now a.token db.tokens) in
      rw (a.after) (
        find_token_of_unique orm (digest value) _ (record (a.token) { revoked_at = some now })
          (ground (arith, read a.token.id, apart, eq_iff new a.token.id, eq_refl a.token.id)) same
          λ q g h. ground (
            arith,
            g,
            read q.id,
            stored,
            eq_iff new q.id,
            eq_iff a.token.id q.id,
            unique a.token q,
          ))

  refresh_of_revoked :
      (value fresh : String) (now t : ℕ) (db : AuthDb orm) (row : RefreshToken) (past : ℕ)
      → find_token orm (digest value) db.tokens ≡ some row
      → row.revoked_at ≡ some past
      → refresh orm crypto value fresh now t db
        ≡ (throw token_invalid, with_tokens orm (revoke_all orm row.user_id now) db)
  unfolding refresh
  refresh_of_revoked value fresh now t db row past e f = ground (arith, e)

  refresh_of_live :
      (value fresh : String) (now t : ℕ) (db : AuthDb orm) (row : RefreshToken) (user : User)
      → find_token orm (digest value) db.tokens ≡ some row
      → row.revoked_at ≡ none
      → now < row.expires_at
      → user_by_id orm row.user_id db ≡ some user
      → is_active user.status ≡ true
      → refresh orm crypto value fresh now t db ≡ (
        ok (record {
          access_token = crypto.sign user.id now;
          refresh_token = fresh;
          expires_at = add_days refresh_token_ttl_days now;
        }),
        with_tokens orm
            (λ x.
              issue orm user.id
                (digest fresh)
                (add_days refresh_token_ttl_days now)
                t
                (revoke orm now row x))
            db,
      )
  unfolding refresh
  refresh_of_live value fresh now t db row user e f g u l = ground (arith, e, u, l)

  user_by_id-id :
      (id : String) (db : AuthDb orm) (user : User)
      → user_by_id orm id db ≡ some user
      → user.id ≡ id
  unfolding user_by_id
  user_by_id-id id db user h =
      ground (arith, orm.find_one-eq-some user_id _ db.team.users user h, eq_iff user.id id)

  user_kept :
      (id : String) (db : AuthDb orm) (tokens : orm.Table RefreshToken)
      → user_by_id orm id (record db { tokens = tokens }) ≡ user_by_id orm id db
  unfolding user_by_id
  user_kept id db tokens = refl

  -- Presenting an exchanged token again right after its rotation is answered TOKEN_INVALID, and every
  -- stored token of its user is then revoked, the one that the rotation gave out included.
  pub refresh-reuse :
      (value fresh : String) (now t : ℕ) (db db' : AuthDb orm) (session : Session)
      (old : RefreshToken) (fresh' : String) (now' t' : ℕ) (k : String) (r : RefreshToken)
      → HasUniqueHashes orm db.tokens
      → digest fresh ≢ digest value
      → refresh orm crypto value fresh now t db ≡ (ok session, db')
      → find_token orm (digest value) db.tokens ≡ some old
      → orm.get token_id k (refresh orm crypto value fresh' now' t' db').1.tokens ≡ some r
      → r.user_id ≡ old.user_id
      → ((refresh orm crypto value fresh' now' t' db').0 ≡ throw token_invalid)
        × (r.revoked_at ≡ some now')
  refresh-reuse value fresh now t db db' session old fresh' now' t' k r unique other h found g
        mine =
      let a = refresh-Rotated orm crypto value fresh now t db db' session h in
      let row = record (a.token) { revoked_at = some now } in
      let again =
        refresh_of_revoked value fresh' now' t' db' row now
          (find_token-Rotated value fresh now t db db' unique other a) refl in
      let one : a.token.user_id ≡ old.user_id = ground (arith, found, a.found) in
      (
        ap (λ x. x.0) again,
        revoke_all-revoked orm a.token.user_id now' db'.tokens k r
            (rw (ap (λ x. x.1.tokens) again) at g) (ground (arith, mine, one)),
      )

  abbrev new_row :
      {value fresh : String} {now t : ℕ} {db db' : AuthDb orm}
      → Rotated orm crypto value fresh now t db db'
      → RefreshToken
  new_row {fresh} {now} {t} {db} a = record {
    id = orm.new_key token_id (revoke orm now a.token db.tokens);
    user_id = a.user.id;
    token_hash = digest fresh;
    expires_at = add_days refresh_token_ttl_days now;
    revoked_at = none;
    created_at = t;
  }

  find_token-new :
      (value fresh : String) (now t : ℕ) (db db' : AuthDb orm)
      → ((q : RefreshToken)
          → orm.get token_id q.id db.tokens ≡ some q
          → q.token_hash ≢ digest fresh)
      → (a : Rotated orm crypto value fresh now t db db')
      → find_token orm (digest fresh) db'.tokens ≡ some (new_row a)
  find_token-new value fresh now t db db' unused a =
      let (stored, same) = find_token-eq-some orm (digest value) db.tokens a.token a.found in
      let read = λ (k : String).
        rotated-get orm now (add_days refresh_token_ttl_days now) t a.user.id (digest fresh) a.token
          db.tokens k in
      let new = orm.new_key token_id (revoke orm now a.token db.tokens) in
      rw (a.after) (
        find_token_of_unique orm (digest fresh) _ (new_row a)
          (ground (arith, read new, eq_refl new)) refl
          λ q g h. ground (
            arith,
            g,
            read q.id,
            stored,
            eq_iff new q.id,
            eq_iff a.token.id q.id,
            unused a.token,
            unused q,
          ))

  -- The new refresh token of a rotation can be exchanged in turn until it expires, 7 days after, if
  -- no token stored before had its hash and the user is still known and active.
  pub refresh-continues :
      (value fresh : String) (now t : ℕ) (db db' : AuthDb orm) (session : Session) (fresh' : String)
      (now' t' : ℕ)
      → ((q : RefreshToken)
          → orm.get token_id q.id db.tokens ≡ some q
          → q.token_hash ≢ digest fresh)
      → refresh orm crypto value fresh now t db ≡ (ok session, db')
      → now' < add_days refresh_token_ttl_days now
      → (session' : Session) × (after : AuthDb orm) × (refresh orm crypto fresh fresh' now' t' db'
          ≡ (ok session', after))
        × (session'.expires_at ≡ add_days refresh_token_ttl_days now')
  refresh-continues value fresh now t db db' session fresh' now' t' unused h early =
      let a = refresh-Rotated orm crypto value fresh now t db db' session h in
      let (stored, same) = find_token-eq-some orm (digest value) db.tokens a.token a.found in
      let id = user_by_id-id a.token.user_id db a.user a.known in
      let done =
        refresh_of_live fresh fresh' now' t' db' (new_row a) a.user
          (find_token-new value fresh now t db db' unused a) refl early
          (rw id (
            ap (λ x. user_by_id orm a.token.user_id x) (a.after)
            ∙ user_kept a.token.user_id db _
            ∙ a.known))
          a.is_live in
      (_, _, done, refl)
