-- ===== src/GuildSetup/Tests.antt =====
-- First contacts with guilds.
use discord_bot_backend.Prelude.{String, false, none, some, ◌≡◌, refl, [], ◌∷◌, trim}
use discord_bot_backend.Orm.Memory.{memory, get, scan, longer_key}
use discord_bot_backend.GuildSync.{FirstContactPayload}
use discord_bot_backend.GuildSetup.{
  DiscordUser, SetupDb, done, failed, server_name_of, new_user, new_guild, new_settings, set_up,
  process_job, get_settings,
}
use discord_bot_backend.GuildSetup.Twice.{HasSameTables, process_job-again}

abbrev nobody : String → String → DiscordUser
nobody token id = record { username = none; discriminator = none; avatar = none }

abbrev db : SetupDb memory
db = record { guilds = []; settings = []; users = []; history_jobs = [] }

abbrev job : FirstContactPayload
job = record { discord_guild_id = "1"; guild_name = " "; discord_owner_id = "1234567890" }

setup : Unit {0}
unfolding trim get scan longer_key server_name_of new_user new_guild new_settings set_up process_job
    get_settings
setup = tt

abbrev after : SetupDb memory
after = (process_job memory (some "token") nobody job 5 db).1

jobs :
    ((process_job memory (some "token") nobody job 5 db).0 ≡ done)
    × ((process_job memory none nobody job 5 db).0 ≡ failed)
    × ((new_user memory (some "token") nobody "token" "1234567890" 5 db).username ≡ "user_34567890")
    × (server_name_of " " ≡ "Server")
    × (after.history_jobs ≡ record { guild_id = "k"; discord_guild_id = "1" } ∷ [])
    × (get_settings memory (some "token") nobody "k" after
        ≡ record { anonymize_user_data = false; plan_tier = "free" })
unfolding setup
jobs = (refl, refl, refl, refl, refl, refl)

process_job-again_example :
    HasSameTables memory
      (some "token")
      nobody
      (process_job memory (some "token") nobody job 9 after).1
      after
process_job-again_example = process_job-again memory (some "token") nobody job 5 9 db jobs.0
