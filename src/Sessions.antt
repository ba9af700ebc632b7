-- ===== src/Sessions.antt =====
-- The refresh tokens of apps/frontend-api/src/auth/auth.service.ts and of
-- apps/admin-api/src/auth/auth.service.ts: the two tables have the same columns but for the name of
-- the owner's (`user_id`, `admin_user_id`), and both services write them by the same statements.
pub mod Spent
use discord_bot_backend.Prelude.{ℕ, String, Option, none, some, ◌==◌}
use discord_bot_backend.Orm.{Orm}

pub record RefreshToken : Type 0 where
  pub id : String
  pub user_id : String
  pub token_hash : String
  pub expires_at : ℕ
  pub revoked_at : Option ℕ
  pub created_at : ℕ

abbrev pub token_id : RefreshToken → String
token_id r = r.id

-- What `createSession` returns.
pub record Session : Type 0 where
  pub access_token : String
  pub refresh_token : String
  pub expires_at : ℕ

module _ (orm : Orm) where
  -- `findOne({ where: { tokenHash } })`
  unfoldable pub find_token : String → orm.Table RefreshToken → Option RefreshToken
  find_token hash t = orm.find_one token_id (λ r. r.token_hash == hash) t

  -- The row that `createSession` saves.
  unfoldable pub issue : String → String → ℕ → ℕ → orm.Table RefreshToken → orm.Table RefreshToken
  issue user hash expires_at created_at t =
      orm.save token_id
        (record {
          id = orm.new_key token_id t;
          user_id = user;
          token_hash = hash;
          expires_at = expires_at;
          revoked_at = none;
          created_at = created_at;
        })
        t

  -- `record.revokedAt = now; save(record)`
  unfoldable pub revoke : ℕ → RefreshToken → orm.Table RefreshToken → orm.Table RefreshToken
  revoke now r t = orm.save token_id (record r { revoked_at = some now }) t

  -- `update({ userId }, { revokedAt: now })`
  unfoldable pub revoke_all : String → ℕ → orm.Table RefreshToken → orm.Table RefreshToken
  revoke_all user now t =
      orm.update token_id (λ r. r.user_id == user) (λ r. record r { revoked_at = some now }) t
