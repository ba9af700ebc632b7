-- ===== src/HistorySync/Complete.antt =====
-- What a completed run of the history sync has stored, and what one stores whose query of the stored
-- ids fails.
use discord_bot_backend.Prelude.{
  ℕ, suc, ◌+◌, ◌*◌, ◌≤◌, String, Bool, true, false, some, ◌≡◌, refl, ap, ◌∙◌, ltb, eq_refl,
  is_empty, List, [], ◌∷◌, ◌++◌, map, count, keep_if, take, if◌then◌else◌, arith,
}
use discord_bot_backend.Orm.{Orm}
use discord_bot_backend.Ingestor.{field, RawEvent}
use discord_bot_backend.Ingestor.Consumer.{true_text}
use discord_bot_backend.HistorySync.{DiscordChannel, Message}
use discord_bot_backend.HistorySync.Fetch.{message_event, message_payload}
use discord_bot_backend.HistorySync.Run.{
  contains, fetch_existing_message_ids, message_id, RunResult, done, SyncWorld, is_text_channel,
}
use discord_bot_backend.HistorySync.Fresh.{contains-existing_ids, is_id, copies, mentions}
use discord_bot_backend.HistorySync.Channels.{mentioned, read_channels-mentioned}
use discord_bot_backend.HistorySync.Paging.{
  Serves, IsCalm, granted, fetch_messages_for_channel_complete,
}
use discord_bot_backend.HistorySync.Again.{Call, run_call, reading, run-mentioned}

count-keep_if :
    (p q : DiscordChannel → Bool) (earlier : List DiscordChannel) (c : DiscordChannel)
    (later : List DiscordChannel)
    → p c ≡ true
    → q c ≡ true
    → 1 ≤ count p (keep_if q (earlier ++ c ∷ later))
count-keep_if p q [] c later hp hq = ground (arith, hp, hq)
count-keep_if p q (e ∷ earlier) c later hp hq =
    ground (arith, count-keep_if p q earlier c later hp hq)

module _ (digest : String → String) (iso : ℕ → String) (guild discord_guild : String) where
  abbrev event : Message → RawEvent
  event = message_event digest iso guild discord_guild

  event-is_id :
      (m : Message) → is_empty m.id ≡ false → is_id m.id (message_id (event m).payload) ≡ true
  unfolding message_event message_payload message_id field true_text
  event-is_id m h = ground (arith, h, eq_refl m.id)

  mentions-event :
      (newer : List Message) (m : Message) (older : List Message)
      → is_empty m.id ≡ false
      → mentions m.id (map event (newer ++ m ∷ older)) ≡ true
  mentions-event [] m older h = ground (arith, event-is_id m h)
  mentions-event (n ∷ newer) m older h = ground (arith, mentions-event newer m older h)

-- A text channel of the guild, and a message that is among its newest, as far as the depth of the scan
-- goes; Discord serves the pages of the channel and refuses none of its requests for good.
module _ (orm : Orm) (digest : String → String) (iso : ℕ → String) (salt : String)
    (concurrency scan_depth : ℕ) (guild : String) (c : Call) (w : SyncWorld orm)
    (earlier later : List DiscordChannel) (channel : DiscordChannel)
    (history newer older : List Message) (m : Message) where
  abbrev ran : RunResult × SyncWorld orm
  ran = run_call orm digest iso salt concurrency scan_depth guild c w

  abbrev channels : List DiscordChannel
  channels = earlier ++ channel ∷ later

  run-copies :
      c.out.channels ≡ some channels
      → is_text_channel channel ≡ true
      → Serves (c.out.page channel.id) history
      → IsCalm (c.out.weather channel.id)
      → scan_depth ≤ 100 * granted (c.out.weather channel.id)
      → take scan_depth history ≡ newer ++ m ∷ older
      → is_empty m.id ≡ false
      → ran.0 ≡ done
      → copies guild m.id ran.1.stored
        ≡ copies guild m.id w.stored
          + (if contains m.id (fetch_existing_message_ids c.out.readable guild w.stored)
              then 0
              else 1)
  run-copies answered is_text serves calm enough placed named completes =
      let event_of = event digest iso guild c.discord_guild in
      let read_by = reading orm digest iso salt concurrency scan_depth guild c in
      let read =
        fetch_messages_for_channel_complete (c.out.page channel.id) event_of scan_depth history
          (c.out.weather channel.id) serves calm enough in
      let hit : mentioned m.id (read_by channel) ≡ true =
        ap (mentioned m.id) read
        ∙ ap (λ (ms : List Message). mentions m.id (map event_of ms)) placed
        ∙ mentions-event digest iso guild c.discord_guild newer m older named in
      run-mentioned orm digest iso salt concurrency scan_depth guild m.id c channels w answered
        (read_channels-mentioned read_by m.id concurrency (keep_if is_text_channel channels) (
          count-keep_if (λ ch. mentioned m.id (read_by ch)) is_text_channel earlier channel later
            hit is_text))
        completes

  -- A message among the newest of a text channel of the guild, as far as the depth of the scan goes: a
  -- run that completes, and whose query of the stored ids worked, has stored it, whatever was stored
  -- before and however the other channels answer; given that Discord serves the pages of the channel
  -- and refuses none of its requests for good, whatever requests it limits, and grants one for each
  -- hundred messages of the depth.
  pub run_complete :
      c.out.readable ≡ true
      → c.out.channels ≡ some channels
      → is_text_channel channel ≡ true
      → Serves (c.out.page channel.id) history
      → IsCalm (c.out.weather channel.id)
      → scan_depth ≤ 100 * granted (c.out.weather channel.id)
      → take scan_depth history ≡ newer ++ m ∷ older
      → is_empty m.id ≡ false
      → ran.0 ≡ done
      → 1 ≤ copies guild m.id ran.1.stored
  run_complete readable answered is_text serves calm enough placed named completes =
      let known_ids : contains m.id (fetch_existing_message_ids c.out.readable guild w.stored)
          ≡ ltb 0 (copies guild m.id w.stored) =
        rw readable (contains-existing_ids guild m.id w.stored) in
      ground
        (arith, known_ids, run-copies answered is_text serves calm enough placed named completes)

  -- A message among the newest of a text channel whose pages Discord serves and whose requests it does
  -- not refuse for good: a run that completes although its query of the stored ids failed stores
  -- it once more, also where it was stored already.
  pub run-repeats :
      c.out.readable ≡ false
      → c.out.channels ≡ some channels
      → is_text_channel channel ≡ true
      → Serves (c.out.page channel.id) history
      → IsCalm (c.out.weather channel.id)
      → scan_depth ≤ 100 * granted (c.out.weather channel.id)
      → take scan_depth history ≡ newer ++ m ∷ older
      → is_empty m.id ≡ false
      → ran.0 ≡ done
      → copies guild m.id ran.1.stored ≡ suc (copies guild m.id w.stored)
  run-repeats unreadable answered is_text serves calm enough placed named completes =
      let known_ids : contains m.id (fetch_existing_message_ids c.out.readable guild w.stored)
          ≡ false =
        rw unreadable refl in
      ground
        (arith, known_ids, run-copies answered is_text serves calm enough placed named completes)
