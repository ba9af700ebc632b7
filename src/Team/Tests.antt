-- ===== src/Team/Tests.antt =====
-- Runs of the team service on small tables, and each theorem about it at such a table.
use Prim.Native.String.{compare}
use mathlib.Core.List.{Perm}
use discord_bot_backend.Prelude.{
  String, Bool, false, none, some, ◌≡◌, refl, ◌==◌, List, [], ◌∷◌, map, ok, throw, if◌then◌else◌,
  arith, eq_iff,
}
use discord_bot_backend.Orm.Memory
use discord_bot_backend.Orm.Memory.{memory, get, scan, scan_first, remove, longer_key}
use discord_bot_backend.Entities.{
  Company, CompanyMember, CompanyInvite, owner, admin, member, member_id,
}
use discord_bot_backend.Team.{TeamDb, default_company, member_of, ensure_default_workspace}
use discord_bot_backend.Team.Invites.{
  accept_invite, find_invite, get_invite_preview, invite_team_member, invite_not_found,
  invite_expired, already_team_member, insufficient_permissions, Joined,
}
use discord_bot_backend.Team.Accept.{
  HasUniqueTokens, HasUniqueMembers, accepted, accept_invite-once, accept_invite-HasUniqueMembers,
  accept_invite-preview,
}
use discord_bot_backend.Team.Roles.{
  MayRemove, MayUpdate, remove_team_member-MayRemove, update_team_member_role-MayUpdate,
}
use discord_bot_backend.Team.Lockout.{update_team_member_role-lockout}
use discord_bot_backend.Team.Paging.{get_team_members-covers, first_pages, listed}
use discord_bot_backend.Team.Mine.{get_my_companies, get_my_companies-OwnFirst, OwnFirst, views_of}
use discord_bot_backend.Team.Members.{
  view_of, CompanyView, update_team_member_role, remove_team_member, get_team_members, member_by_id,
  team_member_not_found,
}

abbrev acme : Company
acme = record { id = "c1"; name = "Acme"; owner_id = "ann"; created_at = 1 }

abbrev ann : CompanyMember
ann = record { id = "m1"; company_id = "c1"; user_id = "ann"; role = owner; joined_at = 1 }

abbrev bob : CompanyMember
bob = record { id = "m2"; company_id = "c1"; user_id = "bob"; role = member; joined_at = 2 }

abbrev ticket : CompanyInvite
ticket = record {
  id = "i1";
  company_id = "c1";
  email = none;
  invitee_display_name = none;
  role = admin;
  invite_token = "t";
  invited_by = "ann";
  expires_at = 100;
  created_at = 5;
}

abbrev db : TeamDb memory
db = record { companies = acme ∷ []; members = ann ∷ bob ∷ []; invites = ticket ∷ []; users = [] }

team : Unit {0}
unfolding default_company member_of find_invite member_by_id accept_invite get_invite_preview
    invite_team_member update_team_member_role remove_team_member get_team_members
    ensure_default_workspace get scan scan_first remove longer_key
team = tt

accepting :
    ((accept_invite memory "eve" " t " 10 11 db).0
      ≡ ok (record { company_id = "c1"; company_name = "Acme" }))
    × ((accept_invite memory "eve" "t" 100 101 db).0 ≡ throw invite_expired)
    × ((accept_invite memory "bob" "t" 10 11 db).0 ≡ throw already_team_member)
    × ((accept_invite memory "eve" "u" 10 11 db).0 ≡ throw invite_not_found)
unfolding team
accepting = (refl, refl, refl, refl)

changing :
    ((remove_team_member memory "ann" "m2" db) ≡ (ok tt, record db { members = ann ∷ [] }))
    × ((remove_team_member memory "ann" "m1" db).0 ≡ throw insufficient_permissions)
    × ((remove_team_member memory "bob" "m1" db).0 ≡ throw team_member_not_found)
    × ((update_team_member_role memory "ann" "m9" admin db).0 ≡ throw team_member_not_found)
unfolding team
changing = (refl, refl, refl, refl)

db-HasUniqueTokens : HasUniqueTokens memory db
unfolding get
db-HasUniqueTokens a b ha hb e = ground (arith, eq_iff "i1" a.id, eq_iff "i1" b.id)

db-HasUniqueMembers : HasUniqueMembers memory db
unfolding get
db-HasUniqueMembers a b ha hb c u = ground (
  arith,
  eq_iff "m1" a.id,
  eq_iff "m2" a.id,
  eq_iff "m1" b.id,
  eq_iff "m2" b.id,
  eq_iff "ann" "bob",
)

abbrev joined : Joined
joined = record { company_id = "c1"; company_name = "Acme" }

after_join :
    accept_invite memory "eve" " t " 10 11 db ≡ (ok joined, accepted memory ticket "eve" 11 db)
unfolding team
after_join = refl

accept_invite-once_example :
    accept_invite memory "zoe" " t " 20 21 (accepted memory ticket "eve" 11 db)
    ≡ (throw invite_not_found, accepted memory ticket "eve" 11 db)
accept_invite-once_example =
    accept_invite-once memory "eve" " t " 10 11 db (accepted memory ticket "eve" 11 db) joined "zoe"
      20 21 db-HasUniqueTokens after_join

accept_invite-HasUniqueMembers_example :
    HasUniqueMembers memory (accept_invite memory "eve" "t" 10 11 db).1
accept_invite-HasUniqueMembers_example =
    accept_invite-HasUniqueMembers memory "eve" "t" 10 11 db db-HasUniqueMembers

accept_invite-preview_example :
    (accept_invite memory "eve" "t" 10 11 db ≡ (
      ok (record { company_id = "c1"; company_name = "Acme" }),
      accepted memory ticket "eve" 11 db,
    ))
    × (admin ≡ admin)
unfolding team
accept_invite-preview_example =
    accept_invite-preview memory "eve" "t" 10 11 db db
      (record { company_name = "Acme"; inviter_name = ""; role = admin }) ticket refl refl refl

remove_team_member-MayRemove_example :
    MayRemove memory "ann" "m2" db
    × (memory.get member_id "m1" (ann ∷ [])
        ≡ (if "m2" == "m1" then none else memory.get member_id "m1" db.members))
remove_team_member-MayRemove_example =
    remove_team_member-MayRemove memory "ann" "m2" db (record db { members = ann ∷ [] }) "m1"
      changing.0

abbrev promoted : TeamDb memory
promoted = record db { members = record bob { role = admin } ∷ ann ∷ bob ∷ [] }

abbrev demoted : TeamDb memory
demoted = record db { members = record ann { role = member } ∷ ann ∷ bob ∷ [] }

update_team_member_role-MayUpdate_example :
    (may : MayUpdate memory "ann" "m2" db) × (memory.get member_id "m2" promoted.members ≡ (
      if "m2" == "m2"
      then some (record may.target { role = admin })
      else memory.get member_id "m2" db.members))
unfolding team
update_team_member_role-MayUpdate_example =
    update_team_member_role-MayUpdate memory "ann" "m2" admin db promoted
      (view_of memory db (record bob { role = admin })) "m2" refl

update_team_member_role-lockout_example :
    update_team_member_role memory "ann" "m1" owner demoted
    ≡ (throw insufficient_permissions, demoted)
unfolding team
update_team_member_role-lockout_example =
    update_team_member_role-lockout memory "ann" "m1" member db demoted
      (view_of memory db (record ann { role = member })) ann "m1" owner db-HasUniqueMembers refl
      refl (λ e. cc) refl

abbrev no_match : String → String → Bool
no_match pattern text = false

get_team_members-covers_example :
    first_pages memory no_match "ann" 1 none db 2
    ≡ map (view_of memory db) (listed memory no_match "ann" acme none db)
unfolding team Memory.collect
get_team_members-covers_example =
    get_team_members-covers memory no_match "ann" acme 2 1 none db db (view_of memory db bob ∷ [])
      (record { total = 2; page = 2; limit = 1; total_pages = 2 }) refl refl

get_my_companies-OwnFirst_example :
    (views : List CompanyView) × (get_my_companies memory compare "bob" db ≡ (ok views, db))
    × OwnFirst compare views
    × Perm views (
        views_of memory compare "bob" db
          (memory.find member_id (λ m. m.user_id == "bob") (λ m. m.joined_at) db.members))
get_my_companies-OwnFirst_example = get_my_companies-OwnFirst memory compare "bob" db
