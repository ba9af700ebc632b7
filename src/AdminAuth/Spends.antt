-- ===== src/AdminAuth/Spends.antt =====
-- An administrator's refresh token after it was exchanged.
use mathlib.Core.Path.{subst}
use discord_bot_backend.Prelude.{
  ℕ, String, true, Option, ◌≡◌, ◌≢◌, refl, ap, sym, ◌∙◌, leb, is_some, Outcome, ok, throw,
  Bool-cases, Option-cases, inl, inr, List, All, arith,
}
use discord_bot_backend.Orm.{Orm}
use discord_bot_backend.Auth.{Crypto}
use discord_bot_backend.Sessions.{RefreshToken, Session, find_token, revoke}
use discord_bot_backend.Sessions.Spent.{
  Spent, HasUniqueHashes, find_token-eq-some, find_token-Spent, revoke-spends,
}
use discord_bot_backend.AdminAuth.{AdminDb, rotate, refresh, unauthorized}
use discord_bot_backend.AdminAuth.Once.{
  Call, perform_all, IsOther, IsSpent, owner, create_session-IsSpent, perform_all-IsSpent,
}

module _ (orm : Orm) (crypto : Crypto) (secret : Option String) where
  refresh_of_spent :
      (value fresh : String) (now t : ℕ) (db : AdminDb orm)
      → IsSpent orm crypto secret (crypto.digest value) db
      → (refresh orm crypto secret value fresh now t db).0 ≡ throw unauthorized
  unfolding refresh
  refresh_of_spent value fresh now t db s =
      elim (Option-cases (find_token orm (crypto.digest value) db.tokens)) [
        | inl unknown ↦ rw (unknown, refresh) refl
        | inr (token, there) ↦
            let spent = find_token-Spent orm (crypto.digest value) db.tokens token s there in
            elim (Option-cases token.revoked_at) [
              | inl live ↦ absurd (spent live)
              | inr (at, revoked) ↦
                  let told : is_some token.revoked_at ≡ true = ap is_some revoked in
                  rw (there, told, refresh) refl
            ]
      ]

  rotate-spends :
      (token : RefreshToken) (fresh : String) (now t : ℕ) (db : AdminDb orm) (session : Session)
      → crypto.digest fresh ≢ token.token_hash
      → Spent orm token.token_hash (revoke orm now token db.tokens)
      → (rotate orm crypto secret token fresh now t db).0 ≡ ok session
      → IsSpent orm crypto secret token.token_hash (rotate orm crypto secret token fresh now t db).1
  unfolding rotate
  rotate-spends token fresh now t db session other s h =
      elim (Bool-cases (leb token.expires_at now)) [
        | inl over ↦ absurd (ground (arith, over, h))
        | inr live ↦ elim (Option-cases (owner orm crypto secret token db)) [
          | inl nobody ↦ absurd (ground (arith, live, nobody, h))
          | inr (a, there) ↦
              rw (live, there, rotate)
                (create_session-IsSpent orm crypto secret token.token_hash a.id fresh now t
                  (record db { tokens = revoke orm now token db.tokens }) other s)
        ]
      ]

  refresh-ok-IsSpent :
      (value fresh : String) (now t : ℕ) (db : AdminDb orm) (session : Session)
      → HasUniqueHashes orm db.tokens
      → crypto.digest fresh ≢ crypto.digest value
      → (refresh orm crypto secret value fresh now t db).0 ≡ ok session
      → IsSpent orm crypto secret
          (crypto.digest value)
          (refresh orm crypto secret value fresh now t db).1
  unfolding refresh
  refresh-ok-IsSpent value fresh now t db session unique other h =
      elim (Option-cases (find_token orm (crypto.digest value) db.tokens)) [
        | inl unknown ↦ absurd (ground (arith, unknown, h))
        | inr (token, there) ↦ elim (Bool-cases (is_some token.revoked_at)) [
          | inl revoked ↦ absurd (ground (arith, there, revoked, h))
          | inr live ↦
              let (stored, same) =
                find_token-eq-some orm (crypto.digest value) db.tokens token there in
              let result : refresh orm crypto secret value fresh now t db
                  ≡ rotate orm crypto secret token fresh now t db =
                rw (there, live, refresh) refl in
              subst
                (λ (r : Outcome Session × AdminDb orm).
                  IsSpent orm crypto secret (crypto.digest value) r.1)
                (sym result)
                (subst
                  (λ hash.
                    IsSpent orm crypto secret hash
                      (rotate orm crypto secret token fresh now t db).1)
                  same
                  (rotate-spends token fresh now t db session (λ e. other (e ∙ same))
                    (revoke-spends orm now token db.tokens unique stored)
                    (ap (λ (r : Outcome Session × AdminDb orm). r.0) (sym result) ∙ h)))
        ]
      ]

  -- An administrator's refresh token is good for one rotation: after it has been exchanged, and then any
  -- calls of the service at any times, presenting it again is answered UNAUTHORIZED; given that no two
  -- stored tokens have one hash before, and that no token made since has its hash.
  pub refresh-spends :
      (value fresh : String) (now t : ℕ) (db : AdminDb orm) (session : Session) (calls : List Call)
      (fresh' : String) (now' t' : ℕ)
      → HasUniqueHashes orm db.tokens
      → crypto.digest fresh ≢ crypto.digest value
      → (refresh orm crypto secret value fresh now t db).0 ≡ ok session
      → All (IsOther orm crypto secret (crypto.digest value)) calls
      → (refresh orm crypto secret value fresh' now' t' (
          perform_all orm crypto secret calls (refresh orm crypto secret value fresh now t db).1)).0
        ≡ throw unauthorized
  refresh-spends value fresh now t db session calls fresh' now' t' unique other h others =
      refresh_of_spent value fresh' now' t' _ (
        perform_all-IsSpent orm crypto secret (crypto.digest value) calls _ others
          (refresh-ok-IsSpent value fresh now t db session unique other h))
