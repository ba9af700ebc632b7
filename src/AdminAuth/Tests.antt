-- ===== src/AdminAuth/Tests.antt =====
-- Calls of the service for administrators, and its theorems at them.
use discord_bot_backend.Prelude.{
  String, none, some, ◌≡◌, ◌≢◌, refl, ◌==◌, List, [], ◌∷◌, ok, throw, arith, eq_iff, trim,
}
use discord_bot_backend.Orm.Memory.{memory, get, scan, update, longer_key}
use discord_bot_backend.Team.Invites.{add_days}
use discord_bot_backend.Sessions.{RefreshToken, Session, find_token, issue, revoke, revoke_all}
use discord_bot_backend.Sessions.Spent.{HasUniqueHashes}
use discord_bot_backend.Auth.{Crypto}
use discord_bot_backend.AdminAuth.{
  AdminUser, AdminUserRole, AdminDb, log_id, masked, log_entry, log_login_success,
  log_login_failure, create_session, login, rotate, refresh, revoke_all_refresh_tokens, logout,
  invalid_credentials, unauthorized, no_secret,
}
use discord_bot_backend.AdminAuth.Attempts.{attempt, login-attempt}
use discord_bot_backend.AdminAuth.Once.{Call, logged_in, logged_out, perform_all}
use discord_bot_backend.AdminAuth.Spends.{refresh-spends}

abbrev plain : Crypto
plain = record {
  to_lower_case = λ s. s;
  digest = λ s. s;
  hash_password = λ p salt. p;
  compare_password = λ p h. p == h;
  sign = λ user now. user;
}

abbrev eve : AdminUser
eve = record {
  id = "eve";
  email = "eve@x";
  name = "Eve";
  avatar_url = none;
  role = AdminUserRole.super_admin;
  password_hash = "pw";
  created_at = 0;
  last_login_at = none;
}

abbrev first : RefreshToken
first = record {
  id = "r1";
  user_id = "eve";
  token_hash = "a";
  expires_at = 1000;
  revoked_at = none;
  created_at = 0;
}

abbrev db : AdminDb memory
db = record { admins = eve ∷ []; tokens = first ∷ []; log = [] }

abbrev session : Session
session = record { access_token = "eve"; refresh_token = "b"; expires_at = add_days 7 5 }

admins : Unit {0}
unfolding trim get scan update longer_key find_token issue revoke revoke_all masked log_entry
    log_login_success log_login_failure create_session login rotate refresh
    revoke_all_refresh_tokens logout
admins = tt

calls :
    ((refresh memory plain (some "key") "a" "b" 5 6 db).0 ≡ ok session)
    × ((refresh memory plain none "a" "b" 5 6 db).0 ≡ throw no_secret)
    × ((refresh memory plain (some "key") "a" "b" 1000 6 db).0 ≡ throw unauthorized)
    × ((login memory plain (some "key") "eve@x" "no" "b" 5 6 db).0 ≡ throw invalid_credentials)
    × ((login memory plain (some "key") " eve@x" "pw" "b" 5 6 db).0 ≡ ok session)
    × (masked "eve@x" ≡ "ev***x")
unfolding admins
calls = (refl, refl, refl, refl, refl, refl)

db-HasUniqueHashes : HasUniqueHashes memory db.tokens
unfolding get
db-HasUniqueHashes a b ha hb e = ground (arith, eq_iff "r1" a.id, eq_iff "r1" b.id)

b_not_a : ◌≢◌ {A = String} "b" "a"
b_not_a = ground (arith, eq_iff "b" "a")

c_not_a : ◌≢◌ {A = String} "c" "a"
c_not_a = ground (arith, eq_iff "c" "a")

login-attempt_example :
    memory.get log_id "k" (login memory plain (some "key") "eve@x" "no" "b" 5 6 db).1.log
    ≡ some (attempt memory plain (some "key") "eve@x" "no" 6 db)
unfolding admins
login-attempt_example = login-attempt memory plain (some "key") "eve@x" "no" "b" "k" 5 6 db

abbrev later : List Call
later = logged_in "eve@x" "pw" "c" 6 7 ∷ logged_out "eve" (some "b") 8 ∷ []

refresh-spends_example :
    (refresh memory plain (some "key") "a" "d" 9 10 (
      perform_all memory plain
        (some "key")
        later
        (refresh memory plain (some "key") "a" "b" 5 6 db).1)).0
    ≡ throw unauthorized
refresh-spends_example =
    refresh-spends memory plain (some "key") "a" "b" 5 6 db session later "d" 9 10
      db-HasUniqueHashes b_not_a calls.0 (c_not_a, (tt, tt))
