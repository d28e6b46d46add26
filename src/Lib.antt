-- ===== src/Lib.antt =====
-- WILDFIRE: the server's rules for showing content on displays, and the parts that guard access to it.
--
-- The program's parts, and the files that model them (paths from the repository's root):
--
-- - Schedule.antt (src/domain/schedules/schedule.ts): times of day, date windows, and which
--   schedules are active. Children: Clock and Windows (times and the clock), Active and
--   Selection (when a schedule is active, and which are chosen).
-- - Store.antt (src/infrastructure/db): the tables of schedules, playlists and contents, as lists of
--   rows in one record, with the log of published events. Store/Schedules (schedule.repo.ts),
--   Store/Contents (content.repo.ts and the upkeep of unusedSince), Store/Playlists, Store/Items and
--   Store/Replace (playlist.repo.ts: the playlists, the writes to single items and their reordering,
--   and replaceItemsAtomic, with the ranges of the integer columns; their children hold the proofs on
--   batches of updates under the unique index). A statement of a repository is a function of the tables; a transaction that throws leaves
--   them as they were.
-- - Scheduling.antt (src/application/use-cases/schedules/shared.ts): windows, segments of a day,
--   conflicts and validation. Scheduling/Guards: the checks against stored records and the clock.
--   Scheduling/Reconcile (reconcile-playlist-statuses.use-case.ts). Scheduling/Mutations and its
--   children Create, Update and Delete: the use cases, each a plan (the checks, which write nothing)
--   and a commit. Conflicts, Segments, Admission and Invariant hold the proofs about them.
-- - Playlists.antt (src/domain/playlists/playlist.ts and src/application/use-cases/playlists):
--   Playlists/Items, Playlists/Replacement and Playlists/Whole are the use cases that write single
--   items, all items of a playlist, and playlists. Budget, Effects, Changes, Updated, Rearranged,
--   Proposed, Owed, Replaced, Written and Reach hold the proof on durations, Refusals, Creation and
--   Deletion those on outcomes.
-- - Rbac.antt (src/infrastructure/db/schema/rbac.sql.ts with the repositories of roles, permissions
--   and grants): Rbac/Permissions (src/domain/rbac/permission.ts), Rbac/Roles
--   (src/application/use-cases/rbac). Grants, Escalation and Access hold the proofs.
-- - Auth.antt: Auth/Tokens (src/application/auth/refresh-token.ts), Auth/Sessions
--   (src/infrastructure/db/repositories/auth-session.repo.ts), Auth/Cached
--   (cached-auth-session.repo.ts beside it), Auth/Rotating and Auth/Refresh
--   (src/application/use-cases/auth/refresh-session.use-case.ts up to the branches on the secret, and
--   from there on; `refresh_read` is the rest of the call once the session was read, so that calls
--   can interleave), Auth/Throttle
--   (src/interfaces/http/security/redis-auth-security.store.ts with its scripts in
--   src/infrastructure/redis/scripts.ts, and the guards of the login route; children Lockout, Window
--   and Logins on series of failures, requests and logins).
-- - Displays/Attempts.antt (src/infrastructure/displays/registration-attempt.store.ts with its
--   scripts): attempts to register a display by a pairing code.
-- - Redis.antt: keys with a time of expiry. Base.antt: numbers, lists, texts, results.
--
-- How the parts interact: the use cases of Scheduling read and write the Store through the
-- repositories' functions and select by Schedule; the events that they publish go to the Store's
-- log. Those of Playlists write through Store/Items and Store/Replace, read schedules to find the
-- displays to tell, and delete finished schedules with a playlist. Refresh works on Sessions, Throttle on its own keys, Attempts on theirs.
--
-- Conventions. A function that throws returns `Result`; one that writes returns the state as well. The
-- native ℕ stands for the numbers, a `Date` is a count of milliseconds, a JavaScript string is a
-- native string whose UTF-16 units are read where the program looks inside. No definition runs on
-- fuel: every loop is over a list.
--
-- Parameters: Intl (formatting in a time zone, the locale's order), the order of rows with equal
-- creation times, random ids and secrets, the time of a call (one instant, where the code reads the
-- clock more than once), hashing and token signing, what the authorization repository answers.
--
-- Not modelled: the occurredAt stamps of events and the conflicting windows in an error's details
-- beyond their ids; failures of the database or of Redis, its collations, foreign keys (but where a
-- definition names them), the lengths of text columns and timestamp resolution; MySQL modes that are
-- not strict; numbers beyond 2 ^ 53, and orders of 2 ^ 31 - 10001 items or more; optional methods of
-- repositories and publishers, which are present; interleavings of requests, but for two refreshes of
-- one session; the cache's own expiry.
-- Parts of the program without a file here: the AI assistant, the audit log, object storage and media
-- processing, the HTTP routes and validators but for the login's guards, and the wiring, which call
-- external services or only pass values on; content use cases, signing in and invitations, the
-- display runtime, emergency slots and pagination, and of the modelled parts the listings.
pub mod Auth
pub mod Base
pub mod Displays
pub mod Playlists
pub mod Rbac
pub mod Redis
pub mod Schedule
pub mod Scheduling
pub mod Store
