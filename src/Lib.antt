-- ===== src/Lib.antt =====
-- A verification library for the backend of a Discord bot: a NestJS monorepo whose services share a
-- PostgreSQL database (through TypeORM), Redis, ClickHouse and BullMQ queues.
--
-- The parts. apps/frontend-api answers the site: accounts and sessions, workspaces and their teams,
-- counters. apps/bot-service holds the connections to Discord, turns Discord events into jobs of the
-- queue of raw events, and takes the jobs that rename counter channels. apps/ingestor-worker takes
-- the jobs of raw events, checks and enriches them, keeps voice sessions in Redis, and writes events
-- to ClickHouse in batches; it also copies the messages that a guild already has at Discord. Every 15
-- minutes, apps/bot-service compares the stored guilds with those that Discord lists. libs/shared has
-- the entities and the adapters, the encryption of bot tokens, and the filter that turns the exceptions
-- of all services into answers.
--
-- The files:
-- - Orm: the operations of a TypeORM repository and their laws, as an interface; Orm/Memory is an
--   implementation of it. Redis: the same for the Redis commands in use.
-- - Entities, Team: libs/shared/src/database/entities and
--   apps/frontend-api/src/team/team.service.ts. Team has the database and what the methods share;
--   Team/Invites, Members, Workspace, Paging and Mine have the methods under the names of the source
--   (inviteTeamMember is invite_team_member); Accept, Roles and Lockout have proofs.
-- - Sessions, Auth: apps/frontend-api/src/auth/auth.service.ts, the refresh tokens and the methods.
--   Sessions/Spent, Auth/Rotation, Auth/Once and Auth/Chain have proofs.
-- - AdminAuth: apps/admin-api/src/auth/auth.service.ts, on the same refresh tokens. Attempts, Once and
--   Spends have proofs.
-- - Counters: apps/frontend-api/src/counters/counters.service.ts and counters-queue.service.ts,
--   apps/bot-service/src/counters-consumer/counters-consumer.service.ts. Counters/Service has the
--   methods of the site, Counters/Consumer a job of the queue, Counters/Events both in any order,
--   Counters/Template libs/shared/src/counters/counter-template.util.ts; the others have proofs.
-- - Ingestor: apps/ingestor-worker/src/ingestor. Ingestor/Buffer is clickhouse-ingestor.service.ts,
--   Validator is payload-validator.ts, Voice is voice-session.service.ts, Consumer is
--   ingestor-queue.consumer.ts; Producer is onVoiceStateUpdate of
--   apps/bot-service/src/shard/shard-event-handlers.ts; Row is the row of
--   an event; Accounting, Retries, Minutes, Pushes and Retention have proofs.
-- - HistorySync: history-sync/history-sync.service.ts of the ingestor. Fetch is
--   fetchMessagesForChannel, Batches is insertEvents, Run is run, with resolveToken and
--   fetchExistingMessageIds; Paging, Coverage, Fresh, Channels, Stored, Again, Complete and
--   Identity have proofs.
-- - GuildSync: apps/bot-service/src/guild-sync and internal/guild-sync-internal.service.ts. Internal is
--   syncGuild, Updates has the handlers of guild events, Reconcile the comparison of all guilds;
--   Effects, Lock, Listing, Passes, Membership and Customs have proofs. The abstract view of a guild
--   there is its id at Discord and whether the bot is in it.
-- - GuildSetup: guild-setup/guild-setup.consumer.ts and guild-settings-enrichment.service.ts of the
--   ingestor, which take the first contacts that GuildSync queues. Twice has proofs.
-- - Crypto: libs/shared/src/crypto. Parts and RoundTrip have proofs.
-- - Filter: libs/shared/src/filters/all-exceptions.filter.ts, and Billing:
--   apps/frontend-api/src/billing/billing.service.ts, whose exceptions go through the filter.
-- - PlanTiers: libs/shared/src/plan-tiers/plan-tiers.constants.ts; Spelling has proofs.
--
-- How code is read. A method of a service is an Action: a function from the state to its result, a
-- value or an HTTP exception, and the new state; of an exception the status and the code are kept and
-- the message is dropped. The tables are those of any Orm that satisfies the laws. Readings of the
-- clock and random tokens are arguments, in the order in which the source makes them. Times are
-- milliseconds since 1970, also where the source prints them by toISOString. Password hashing,
-- digests, ciphers, the signing of tokens, class-validator, and the answers of Discord are parameters;
-- what Discord documents of its pages is a hypothesis (Serves, Lists), and so is what node:crypto
-- documents (IsFaithful); functions in the tests meet them.
-- A method runs alone: interleavings are modelled where the source keeps state between awaits in one
-- process, as in Ingestor/Buffer, whose inputs come in any order; there a rejected promise that
-- nobody awaits is taken not to end the process.
--
-- Bounds. A loop over requests to Discord takes one answer after the other from a list; when the list
-- ends first, the result says that the loop still waits. Enough answers are one that is granted for
-- each page, with any number of 429 between them. All other loops are structural recursions. A flush
-- of the buffer makes at most five attempts, and its remaining attempts are part of the state. Numbers
-- are unbounded; those of the source are clock readings and counts far below 2 ^ 53.
--
-- Not modelled: the controllers, guards and validation pipes, the ORM, Redis, ClickHouse, Discord and
-- queue clients; reports and queries (admin-api, analytics); the handlers of Discord events other
-- than voice states and guilds; connections with several tokens, and the start of shards.
pub mod Prelude
pub mod Orm
pub mod Entities
pub mod Sessions
pub mod Auth
pub mod AdminAuth
pub mod Counters
pub mod HistorySync
pub mod GuildSync
pub mod GuildSetup
pub mod Crypto
pub mod Filter
pub mod Billing
pub mod PlanTiers
pub mod Ingestor
pub mod Redis
pub mod Team
