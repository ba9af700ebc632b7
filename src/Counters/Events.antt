-- ===== src/Counters/Events.antt =====
-- What happens to the counters, in any order: requests to counters.service.ts and jobs of
-- counters-consumer.service.ts.
use discord_bot_backend.Prelude.{ℕ, String, Bool, Option, List, [], ◌∷◌}
use discord_bot_backend.Orm.{Orm}
use discord_bot_backend.Redis.{Redis}
use discord_bot_backend.Counters.{Units, CounterJob}
use discord_bot_backend.Counters.Service.{CreateCounterDto, PatchCounterDto, create, update, remove}
use discord_bot_backend.Counters.Consumer.{World, Readings, Discord, Clock, process_job}

-- A call of the service with what it reads, or a job with what it reads.
pub data Event : Type 0 where
  creating : String → CreateCounterDto → Units → (now created_at : ℕ) → Bool → Event
  updating : (guild counter : String) → PatchCounterDto → Units → (now : ℕ) → Bool → Event
  removing : (guild counter : String) → Bool → Event
  working : CounterJob → Readings → Discord → Clock → Event

module _ (orm : Orm) (redis : Redis) (prefix : String) (number : ℕ → Units)
    (date : Option String → Option String → Units) where
  unfoldable pub handle : Event → World orm redis → World orm redis
  handle (creating guild dto today now created_at queued) w = record w {
    db = (create orm guild dto today now created_at queued w.db).1;
  }
  handle (updating guild counter dto today now queued) w = record w {
    db = (update orm guild counter dto today now queued w.db).1;
  }
  handle (removing guild counter queued) w = record w {
    db = (remove orm guild counter queued w.db).1;
  }
  handle (working job readings discord clock) w =
      (process_job orm redis prefix number date job readings discord clock w).1

  unfoldable pub handle_all : List Event → World orm redis → World orm redis
  handle_all [] w = w
  handle_all (e ∷ events) w = handle_all events (handle e w)
