-- ===== src/Auth/Tests.antt =====
-- Runs of the auth service, and its theorems at such runs.
use discord_bot_backend.Prelude.{
  ℕ, String, Option, none, some, ◌≡◌, ◌≢◌, refl, ◌==◌, [], ◌∷◌, ok, throw, arith, eq_iff, trim,
}
use discord_bot_backend.Orm.Memory.{memory, get, scan, scan_first, update, longer_key}
use discord_bot_backend.Entities.{User, free, active}
use discord_bot_backend.Team.{ensure_default_workspace, default_company}
use discord_bot_backend.Team.Invites.{add_days}
use discord_bot_backend.Sessions.{
  RefreshToken, Session, token_id, find_token, issue, revoke, revoke_all,
}
use discord_bot_backend.Sessions.Spent.{HasUniqueHashes}
use discord_bot_backend.Auth.{
  Crypto, AuthDb, user_by_id, create_session, register, login, refresh, logout, invalid_credentials,
  email_exists, token_invalid, token_expired, ensure_workspace, refresh_token_ttl_days,
}
use discord_bot_backend.Auth.Rotation.{here, next, logged_out}
use discord_bot_backend.Auth.Once.{refresh-once}
use discord_bot_backend.Auth.Chain.{refresh-reuse, refresh-continues}

abbrev plain : Crypto
plain = record {
  to_lower_case = λ s. s;
  digest = λ s. s;
  hash_password = λ p salt. p;
  compare_password = λ p h. p == h;
  sign = λ user now. user;
}

abbrev ann : User
ann = record {
  id = "ann";
  discord_id = none;
  username = "Ann";
  discriminator = none;
  avatar_url = none;
  email = some "ann@x";
  password_hash = some "pw";
  plan = free;
  status = active;
  created_at = 0;
  last_login_at = none;
}

abbrev first : RefreshToken
first = record {
  id = "r1";
  user_id = "ann";
  token_hash = "a";
  expires_at = 1000;
  revoked_at = none;
  created_at = 0;
}

abbrev db : AuthDb memory
db = record {
  team = record { companies = []; members = []; invites = []; users = ann ∷ [] };
  tokens = first ∷ [];
}

auth : Unit {0}
unfolding trim find_token issue revoke revoke_all user_by_id create_session register login refresh
    logout ensure_workspace ensure_default_workspace default_company get scan scan_first update
    longer_key
auth = tt

abbrev session : Session
session = record { access_token = "ann"; refresh_token = "b"; expires_at = add_days 7 5 }

abbrev rotated : AuthDb memory
rotated = record db {
  tokens =
      record {
        id = "r1r1k";
        user_id = "ann";
        token_hash = "b";
        expires_at = add_days 7 5;
        revoked_at = none;
        created_at = 6;
      }
      ∷ record first { revoked_at = some 5 }
      ∷ first
      ∷ [];
}

rotation : refresh memory plain "a" "b" 5 6 db ≡ (ok session, rotated)
unfolding auth
rotation = refl

refusals :
    ((refresh memory plain "z" "b" 5 6 db).0 ≡ throw token_invalid)
    × ((refresh memory plain "a" "b" 1000 6 db).0 ≡ throw token_expired)
    × ((login memory plain "ann@x" "no" "b" 5 6 db).0 ≡ throw invalid_credentials)
    × ((register memory plain "Ann" " ann@x " "pw" "s" "b" 5 6 db).0 ≡ throw email_exists)
unfolding auth
refusals = (refl, refl, refl, refl)

db-HasUniqueHashes : HasUniqueHashes memory db.tokens
unfolding get
db-HasUniqueHashes a b ha hb e = ground (arith, eq_iff "r1" a.id, eq_iff "r1" b.id)

b_not_a : ◌≢◌ {A = String} "b" "a"
b_not_a = ground (arith, eq_iff "b" "a")

refresh-once_example :
    (refresh memory plain "a" "c" 7 8 (logout memory plain "ann" (some "b") 6 rotated).1).0
    ≡ throw token_invalid
refresh-once_example =
    refresh-once memory plain "a" "b" 5 6 db rotated session
      (logout memory plain "ann" (some "b") 6 rotated).1 "c" 7 8 db-HasUniqueHashes b_not_a rotation
      (next here (logged_out "ann" (some "b") 6))

refresh-reuse_example :
    ((refresh memory plain "a" "c" 7 8 rotated).0 ≡ throw token_invalid)
    × (◌≡◌ {A = Option ℕ} (some 7) (some 7))
unfolding auth
refresh-reuse_example =
    refresh-reuse memory plain "a" "b" 5 6 db rotated session first "c" 7 8 "r1r1k"
      (record {
        id = "r1r1k";
        user_id = "ann";
        token_hash = "b";
        expires_at = add_days 7 5;
        revoked_at = some 7;
        created_at = 6;
      })
      db-HasUniqueHashes b_not_a rotation refl refl refl

only_a : (q : RefreshToken) → memory.get token_id q.id db.tokens ≡ some q → q.token_hash ≢ "b"
unfolding get
only_a q g = ground (arith, eq_iff "r1" q.id, eq_iff "a" "b")

refresh-continues_example :
    (session' : Session) × (after : AuthDb memory) × (refresh memory plain "b" "c" 7 8 rotated
      ≡ (ok session', after))
    × (session'.expires_at ≡ add_days refresh_token_ttl_days 7)
refresh-continues_example =
    refresh-continues memory plain "a" "b" 5 6 db rotated session "c" 7 8 only_a rotation
      (omega arith)
