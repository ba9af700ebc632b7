-- ===== src/HistorySync/Again.antt =====
-- The copies of a message that runs of the history sync leave in ClickHouse.
use mathlib.Core.Path.{subst}
use discord_bot_backend.Prelude.{
  ℕ, ◌+◌, ◌≤◌, String, true, some, ◌≡◌, refl, ap, sym, ◌∙◌, ltb, List, [], ◌∷◌, keep_if, All,
  Bool-cases, Option-cases, inl, inr, if◌then◌else◌, arith,
}
use discord_bot_backend.Orm.{Orm}
use discord_bot_backend.Entities.{processing}
use discord_bot_backend.Ingestor.{RawEvent, Enrichment}
use discord_bot_backend.Ingestor.Row.{Row}
use discord_bot_backend.HistorySync.{DiscordChannel, Message}
use discord_bot_backend.HistorySync.Fetch.{message_event, Fetched, all_of, thrown, waiting}
use discord_bot_backend.HistorySync.Batches.{inserts}
use discord_bot_backend.HistorySync.Coverage.{inserts-cover}
use discord_bot_backend.HistorySync.Run.{
  contains, fetch_existing_message_ids, new_events, insert_all, RunResult, done, set_status,
  after_reading, Outside, SyncWorld, store_events, run, read_channels, fetch, is_text_channel,
}
use discord_bot_backend.HistorySync.Fresh.{
  is_message, copies, mentions, once, contains-existing_ids, count-new_events, new_events-All,
  IsMessageOf, rows_of, copies-rows_of, copies-rows_of-le, insert_all-le, insert_all-taken,
}
use discord_bot_backend.HistorySync.Channels.{
  Every, mentioned, read_channels-Every, fetch_messages_for_channel-Every,
}

-- A call of `run`.
pub record Call : Type 0 where
  pub discord_guild : String
  pub enrichment : Enrichment
  pub out : Outside

module _ (orm : Orm) (digest : String → String) (iso : ℕ → String) (salt : String)
    (concurrency scan_depth : ℕ) (guild : String) where
  abbrev pub store_all :
      Enrichment → Outside → List RawEvent → SyncWorld orm → RunResult × SyncWorld orm
  store_all enrichment out =
      store_events orm digest iso salt concurrency scan_depth guild enrichment out

  abbrev pub known : Outside → SyncWorld orm → List String
  known out w = fetch_existing_message_ids out.readable guild w.stored

  abbrev fresh : Enrichment → Outside → List RawEvent → SyncWorld orm → List Row
  fresh enrichment out events w =
      rows_of digest salt out.now enrichment (new_events (known out w) events)

  pub stored-store_events :
      (enrichment : Enrichment) (out : Outside) (events : List RawEvent) (w : SyncWorld orm)
      → (store_all enrichment out events w).1.stored
        ≡ (insert_all out.accepted 0 (inserts (fresh enrichment out events w)) w.stored).1
  unfolding store_events
  stored-store_events enrichment out events w =
      elim (Bool-cases
        (insert_all out.accepted 0 (inserts (fresh enrichment out events w)) w.stored).0) [
          | inl taken ↦ rw taken refl
          | inr refused ↦ rw refused refl
        ]

  done-store_events :
      (enrichment : Enrichment) (out : Outside) (events : List RawEvent) (w : SyncWorld orm)
      → (store_all enrichment out events w).0 ≡ done
      → (insert_all out.accepted 0 (inserts (fresh enrichment out events w)) w.stored).0 ≡ true
  unfolding store_events
  done-store_events enrichment out events w h = ground (arith, h)

  store_events-le :
      (id : String) (enrichment : Enrichment) (out : Outside) (events : List RawEvent)
      (w : SyncWorld orm)
      → out.readable ≡ true
      → copies guild id w.stored ≤ 1
      → copies guild id (store_all enrichment out events w).1.stored ≤ 1
  store_events-le id enrichment out events w r h =
      let rows = fresh enrichment out events w in
      let p = is_message guild id in
      let known_ids : contains id (known out w) ≡ ltb 0 (copies guild id w.stored) =
        rw r (contains-existing_ids guild id w.stored) in
      rw (stored-store_events enrichment out events w) (
        ground (
          arith,
          insert_all-le p out.accepted 0 (inserts rows) w.stored,
          (inserts-cover p rows).0,
          copies-rows_of-le digest salt out.now enrichment guild id
              (new_events (known out w) events),
          count-new_events id (known out w) events,
          known_ids,
          h,
        ))

  -- A store of events of the guild that completes has added one copy of each message among them that
  -- the query of the stored ids did not give, and none of any other.
  pub store_events-copies :
      (id : String) (enrichment : Enrichment) (out : Outside) (events : List RawEvent)
      (w : SyncWorld orm)
      → All (IsMessageOf guild) events
      → (store_all enrichment out events w).0 ≡ done
      → copies guild id (store_all enrichment out events w).1.stored
        ≡ copies guild id w.stored
          + (if contains id (known out w) then 0 else once (mentions id events))
  store_events-copies id enrichment out events w h completes =
      let rows = fresh enrichment out events w in
      let p = is_message guild id in
      rw (stored-store_events enrichment out events w) (
        omega (
          arith,
          insert_all-taken p out.accepted 0 (inserts rows) w.stored
              (done-store_events enrichment out events w completes),
          (inserts-cover p rows).0,
          copies-rows_of digest salt out.now enrichment guild id (new_events (known out w) events)
              (new_events-All (IsMessageOf guild) (known out w) events h),
          count-new_events id (known out w) events,
        ))

  abbrev pub run_call : Call → SyncWorld orm → RunResult × SyncWorld orm
  run_call c =
      run orm digest iso salt concurrency scan_depth guild c.discord_guild c.enrichment c.out

  abbrev pub runs : List Call → SyncWorld orm → SyncWorld orm
  runs [] w = w
  runs (c ∷ calls) w = runs calls (run_call c w).1

  abbrev pub reading : Call → DiscordChannel → Fetched
  reading c = fetch orm digest iso salt concurrency scan_depth guild c.discord_guild c.out

  abbrev pub all_read : Call → List DiscordChannel → Fetched
  all_read c channels = read_channels (reading c) concurrency (keep_if is_text_channel channels)

  abbrev pub started : SyncWorld orm → SyncWorld orm
  started w = set_status orm digest iso salt concurrency scan_depth guild processing w

  abbrev pub finish : Call → SyncWorld orm → Fetched → RunResult × SyncWorld orm
  finish c w =
      after_reading orm digest iso salt concurrency scan_depth guild c.enrichment c.out (started w)

  pub run-finish :
      (c : Call) (token : String) (channels : List DiscordChannel) (w : SyncWorld orm)
      → c.out.token ≡ some token
      → c.out.channels ≡ some channels
      → run_call c w ≡ finish c w (all_read c channels)
  unfolding run
  run-finish c token channels w some_token some_channels = rw (some_token, some_channels) refl

  finish-le :
      (id : String) (c : Call) (w : SyncWorld orm) (f : Fetched)
      → c.out.readable ≡ true
      → copies guild id w.stored ≤ 1
      → copies guild id (finish c w f).1.stored ≤ 1
  unfolding after_reading
  finish-le id c w (thrown status) r h = h
  finish-le id c w (waiting p) r h = h
  finish-le id c w (all_of events) r h =
      store_events-le id c.enrichment c.out events (started w) r h

  run-le :
      (id : String) (c : Call) (w : SyncWorld orm)
      → c.out.readable ≡ true
      → copies guild id w.stored ≤ 1
      → copies guild id (run_call c w).1.stored ≤ 1
  unfolding run
  run-le id c w r h = elim (Option-cases c.out.token) [
    | inl no_token ↦ rw no_token h
    | inr (token, some_token) ↦ elim (Option-cases c.out.channels) [
      | inl no_channels ↦ rw (some_token, no_channels) h
      | inr (channels, some_channels) ↦
          subst (λ (r : RunResult × SyncWorld orm). copies guild id r.1.stored ≤ 1)
            (sym (run-finish c token channels w some_token some_channels))
            (finish-le id c w (all_read c channels) r h)
    ]
  ]

  -- Where the queries of the stored ids work, runs for a guild, however each of them ends, also those
  -- that fail between two inserts, never leave a second copy of one of its messages.
  pub runs-copies :
      (id : String) (calls : List Call) (w : SyncWorld orm)
      → All (λ c. c.out.readable ≡ true) calls
      → copies guild id w.stored ≤ 1
      → copies guild id (runs calls w).stored ≤ 1
  runs-copies id [] w r h = h
  runs-copies id (c ∷ calls) w (r, rs) h =
      runs-copies id calls (run_call c w).1 rs (run-le id c w r h)

  event-IsMessageOf :
      (discord_guild : String) (m : Message)
      → IsMessageOf guild (message_event digest iso guild discord_guild m)
  unfolding message_event
  event-IsMessageOf discord_guild m = (refl, refl)

  all_read-Every :
      (c : Call) (channels : List DiscordChannel) → Every (IsMessageOf guild) (all_read c channels)
  all_read-Every c channels =
      read_channels-Every (IsMessageOf guild) (reading c)
        (λ ch.
          fetch_messages_for_channel-Every (IsMessageOf guild) (c.out.page ch.id)
            (message_event digest iso guild c.discord_guild) scan_depth
            (event-IsMessageOf c.discord_guild) (c.out.weather ch.id))
        concurrency (keep_if is_text_channel channels)

  finish-mentioned :
      (id : String) (c : Call) (w : SyncWorld orm) (f : Fetched)
      → Every (IsMessageOf guild) f
      → mentioned id f ≡ true
      → (finish c w f).0 ≡ done
      → copies guild id (finish c w f).1.stored
        ≡ copies guild id w.stored + (if contains id (known c.out w) then 0 else 1)
  unfolding after_reading
  finish-mentioned id c w (thrown status) h found completes = absurd (ground (arith, completes))
  finish-mentioned id c w (waiting p) h found completes = absurd (ground (arith, completes))
  finish-mentioned id c w (all_of events) h found completes =
      subst
        (λ b.
          copies guild id (finish c w (all_of events)).1.stored
          ≡ copies guild id w.stored + (if contains id (known c.out w) then 0 else once b))
        found (store_events-copies id c.enrichment c.out events (started w) h completes)

  -- A run that completes has stored what its channels mention and the query of the stored ids did not.
  pub run-mentioned :
      (id : String) (c : Call) (channels : List DiscordChannel) (w : SyncWorld orm)
      → c.out.channels ≡ some channels
      → mentioned id (all_read c channels) ≡ true
      → (run_call c w).0 ≡ done
      → copies guild id (run_call c w).1.stored
        ≡ copies guild id w.stored + (if contains id (known c.out w) then 0 else 1)
  unfolding run
  run-mentioned id c channels w some_channels found completes = elim (Option-cases c.out.token) [
    | inl no_token ↦ absurd (ground (arith, no_token, completes))
    | inr (token, some_token) ↦
        let same = run-finish c token channels w some_token some_channels in
        subst
          (λ (r : RunResult × SyncWorld orm).
            copies guild id r.1.stored
            ≡ copies guild id w.stored + (if contains id (known c.out w) then 0 else 1))
          (sym same)
          (finish-mentioned id c w (all_read c channels) (all_read-Every c channels) found
            (ap (λ (r : RunResult × SyncWorld orm). r.0) (sym same) ∙ completes))
  ]
