-- ===== src/Auth/Once.antt =====
-- auth.service.ts: refresh tokens over any sequence of calls of the service.
use mathlib.Core.Path.{subst}
use discord_bot_backend.Prelude.{
  ℕ, String, false, none, some, ◌≡◌, ◌≢◌, ap, sym, ◌==◌, ◌&&◌, arith, eq_iff, Option-cases,
  Bool-cases, inl, inr, is_some, is_empty, ok, throw,
}
use discord_bot_backend.Orm.{Orm}
use discord_bot_backend.Sessions.{RefreshToken, Session, token_id, find_token, revoke}
use discord_bot_backend.Sessions.Spent.{
  Spent, HasUniqueHashes, find_token-eq-some, issue-Spent, revoke-spends,
}
use discord_bot_backend.Team.Invites.{add_days}
use discord_bot_backend.Auth.{
  Crypto, AuthDb, refresh, logout, token_invalid, refresh_token_ttl_days,
}
use discord_bot_backend.Auth.Rotation.{
  Rotated, refresh-Rotated, refresh_of_Spent, Step, registered, logged_in, verified, refreshed,
  logged_out, Reach, here, next, register-Spent, login-Spent, verify-Spent, refresh-Spent,
  logout-Spent,
}

module _ (orm : Orm) (crypto : Crypto) where
  open crypto use {digest}

  Step-Spent :
      {hash : String} {a b : AuthDb orm}
      → Spent orm hash a.tokens
      → Step orm crypto hash a b
      → Spent orm hash b.tokens
  Step-Spent {hash} {a} s (registered full_name email password salt fresh t now n) =
      register-Spent orm crypto hash full_name email password salt fresh t now a n s
  Step-Spent {hash} {a} s (logged_in email password fresh now t n) =
      login-Spent orm crypto hash email password fresh now t a n s
  Step-Spent {hash} {a} s (verified d fresh now t n) =
      verify-Spent orm crypto hash d fresh now t a n s
  Step-Spent {hash} {a} s (refreshed value fresh now t n) =
      refresh-Spent orm crypto hash value fresh now t a n s
  Step-Spent {hash} {a} s (logged_out user value now) =
      logout-Spent orm crypto hash user value now a s

  Reach-Spent :
      {hash : String} {a b : AuthDb orm}
      → Spent orm hash a.tokens
      → Reach orm crypto hash a b
      → Spent orm hash b.tokens
  Reach-Spent s here = s
  Reach-Spent s (next r st) = Step-Spent (Reach-Spent s r) st

  Rotated-Spent :
      (value fresh : String) (now t : ℕ) (db db' : AuthDb orm)
      → HasUniqueHashes orm db.tokens
      → digest fresh ≢ digest value
      → Rotated orm crypto value fresh now t db db'
      → Spent orm (digest value) db'.tokens
  Rotated-Spent value fresh now t db db' unique other a =
      let (stored, same) = find_token-eq-some orm (digest value) db.tokens a.token a.found in
      let spent = revoke-spends orm now a.token db.tokens unique stored in
      rw (a.after) (
        issue-Spent orm (digest value) a.user.id (digest fresh)
          (add_days refresh_token_ttl_days now) t (revoke orm now a.token db.tokens)
          (subst (λ h. Spent orm h (revoke orm now a.token db.tokens)) same spent) other)

  -- A refresh token is good for one rotation: after it has been exchanged, and then any calls of the
  -- service by anybody at any times, presenting it again is answered TOKEN_INVALID; given that no
  -- two stored tokens have one hash before, and that no token made since has its hash.
  pub refresh-once :
      (value fresh : String) (now t : ℕ) (db db' : AuthDb orm) (session : Session)
      (later : AuthDb orm) (fresh' : String) (now' t' : ℕ)
      → HasUniqueHashes orm db.tokens
      → digest fresh ≢ digest value
      → refresh orm crypto value fresh now t db ≡ (ok session, db')
      → Reach orm crypto (digest value) db' later
      → (refresh orm crypto value fresh' now' t' later).0 ≡ throw token_invalid
  refresh-once value fresh now t db db' session later fresh' now' t' unique other h reach =
      let a = refresh-Rotated orm crypto value fresh now t db db' session h in
      refresh_of_Spent orm crypto value fresh' now' t' later
        (Reach-Spent (Rotated-Spent value fresh now t db db' unique other a) reach)

  -- The only row of its hash, if revoked, leaves the hash spent.
  revoked-Spent :
      (t : orm.Table RefreshToken) (q : RefreshToken)
      → HasUniqueHashes orm t
      → orm.get token_id q.id t ≡ some q
      → q.revoked_at ≢ none
      → Spent orm q.token_hash t
  revoked-Spent t q unique stored old r g same =
      ground
        (arith, g, stored, old, ap (λ k. orm.get token_id k t) (unique q r stored g (sym same)))

  logout-spends :
      (user value : String) (now : ℕ) (db : AuthDb orm) (token : RefreshToken)
      → HasUniqueHashes orm db.tokens
      → is_empty value ≡ false
      → find_token orm (digest value) db.tokens ≡ some token
      → token.user_id ≡ user
      → Spent orm (digest value) (logout orm crypto user (some value) now db).1.tokens
  unfolding logout
  logout-spends user value now db token unique given found mine =
      let (stored, same) = find_token-eq-some orm (digest value) db.tokens token found in
      elim (Option-cases (
        orm.find_one token_id (λ r. r.token_hash == digest value && r.user_id == user) db.tokens)) [
          | inl f ↦ ground (
            arith,
            orm.find_one-eq-none token_id _ db.tokens token.id token f stored,
            eq_iff token.token_hash (digest value),
            eq_iff token.user_id user,
          )
          | inr (q, f) ↦
              let (kept, test) = orm.find_one-eq-some token_id _ db.tokens q f in
              let alike : q.token_hash ≡ digest value =
                ground (arith, test, eq_iff q.token_hash (digest value)) in
              elim (Bool-cases (is_some q.revoked_at)) [
                | inl g ↦
                    rw (given, f, g)
                      (subst (λ h. Spent orm h db.tokens) alike
                        (revoked-Spent db.tokens q unique kept (λ n. ground (arith, n, g))))
                | inr g ↦
                    rw (given, f, g)
                      (subst (λ h. Spent orm h (revoke orm now q db.tokens)) alike
                        (revoke-spends orm now q db.tokens unique kept))
              ]
        ]

  -- Logging out with a token that belongs to the user ends it: after that, and then any calls of the
  -- service, presenting it is answered TOKEN_INVALID; given that no two stored tokens have one hash
  -- before, and that no token made since has its hash.
  pub logout-ends :
      (user value : String) (now : ℕ) (db : AuthDb orm) (token : RefreshToken) (later : AuthDb orm)
      (fresh : String) (now' t' : ℕ)
      → HasUniqueHashes orm db.tokens
      → is_empty value ≡ false
      → find_token orm (digest value) db.tokens ≡ some token
      → token.user_id ≡ user
      → Reach orm crypto (digest value) (logout orm crypto user (some value) now db).1 later
      → (refresh orm crypto value fresh now' t' later).0 ≡ throw token_invalid
  logout-ends user value now db token later fresh now' t' unique given found mine reach =
      refresh_of_Spent orm crypto value fresh now' t' later
        (Reach-Spent (logout-spends user value now db token unique given found mine) reach)
