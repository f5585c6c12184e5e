-- ===== src/Lib.antt =====
-- Mitra, a federated social network server (Rust): its payment invoices and subscriptions, the
-- relationships between profiles, posts and who may see them, polls, the queue of background jobs, and
-- the rules of federation.
--
-- The program keeps its state in a PostgreSQL database. The crate mitra_models holds the tables' types
-- and queries; the other crates (mitra_api, mitra_activitypub, mitra_workers, mitra_adapters) call
-- these queries. The development models queries as functions on the stored tables:
--
-- - Prelude: shared names, lists as tables (find, modify, remove, tally) and 64-bit columns;
--   Prelude.Sort (ORDER BY and LIMIT) and Prelude.Members (what all members of a list share).
-- - Database (mitra_models/src/database): `Query S A` is a function from the stored state to a result
--   and the new state. A result is a value, a DatabaseError that `?` passes on, or a panic.
--   `transaction` restores the state unless its body returns a value. Database.Triples holds the rules
--   by which a chain of queries is followed.
-- - Schema (mitra_models/migrations/schema.sql): the record of the tables. CHECK, UNIQUE and FOREIGN KEY
--   constraints are tests in the queries that could break them.
-- - Chain (apx_core/src/caip2.rs): chain identifiers.
-- - Invoices (mitra_models/src/invoices): Types, Queries and Helpers follow the files of these names.
--   Spec is an abstract machine on one row, and Refinement relates the transactions to its steps.
--   Soundness, Invariant and Reachable are about an invariant of the stored invoices.
--   Transitions, Payments and Summary are about the life of an invoice. Expiry follows
--   mitra_adapters/src/payments/common.rs, and Hits and Overdue are about which
--   invoices it changes.
-- - Profiles, Notifications (mitra_models/src/profiles, mitra_models/src/notifications): what
--   relationships and posts need of them.
-- - Relationships (mitra_models/src/relationships): Types follows types.rs; Table, Requests and Queries
--   follow queries.rs, and Helpers follows helpers.rs. `create_relationship`, `follow` and so on carry
--   the names of the source. Counts, Effects, Tallies and Balance compare the counters of profiles with
--   the rows, statement by statement; Figures, Moves, Changes and Accuracy do so for whole operations.
--   Success and Muting are about single operations, Lists and Listed about the lists of
--   followers (listed in the order of the rows), and Codes about the stored codes.
-- - Subscriptions (mitra_models/src/subscriptions, mitra_adapters/src/payments/subscriptions.rs): Types
--   and Queries follow the files of these names, and Payments is what a payment does. Accuracy is about
--   the counters of profiles, Effect and Paid about the subscription that is left, Price about the bounds
--   on prices.
-- - Jobs (mitra_models/src/background_jobs): Types and Queries follow the files of these names; Batch is
--   about one batch, Lease about a batch and a later one, with other changes of the queue (Events) in between.
-- - Inbox (mitra_activitypub/src/queues.rs): Queue is the processing of incoming activities. Rows and
--   Batches are about the rows of the queue and of one batch, Steps and Success about one job, and
--   Termination about a whole run and the tries that are left.
-- - Filters (mitra_models/src/filter_rules, mitra_activitypub/src/filter.rs): Types and Queries follow the
--   files of these names, and Federation is the filter that reads the rules. Order, Decision and Exact
--   are about which rule decides.
-- - Codes: the codes under which the queue and the rules store their enums.
-- - Polls (mitra_models/src/polls, mitra_validators/src/polls.rs): Types follows types.rs; Votes and
--   Queries follow queries.rs, Validation follows the validator. Counting and Ballots are about the counts
--   and the rows of one vote, Invariant, Local, Remote and Voting about what polls show after votes,
--   Created and Updates about the creation and the editing of a poll, Valid about the validation.
-- - Posts (mitra_models/src/posts, mitra_models/src/conversations): Types and Detailed follow
--   posts/types.rs, Related, Queries, Create and Delete follow posts/queries.rs, Visibility follows
--   posts/helpers.rs and the filters of posts/queries.rs, which are tests of one row. `create_post` is cut at
--   its comments into helpers. Counts, Inserted, Frame, Raised and Tallied are about the counters when a post is
--   created, Removed and Deleted about them when a repost is deleted, Reached about the rounds in
--   which a deletion finds what it reaches, Descent and Erased about which posts these are,
--   Authored about the numbers of posts that authors show, Told and Notified about the notifications of a new post, Loaded and Views about the check of one post
--   and the filter of the lists. Mentions follows mitra_adapters/src/permissions.rs, and Allowed is about
--   its filter.
--
-- Identifiers are natural numbers (the source has UUIDs), and the ones that `generate_ulid` and
-- `Uuid::new_v4` return are arguments. Times are numbers of microseconds since a date before all others,
-- and CURRENT_TIMESTAMP is a field of the tables (Utc::now() is the same field). A duration in seconds is
-- an `i64`, which may be negative. `WildMatch::matches`, the collation of the reversed
-- targets and `DateTime + TimeDelta` are parameters, as are `clean_html_all`, a call of an HTML library,
-- the reading and writing of JSON, and the handler of an incoming activity. The tables of jobs and filter
-- rules are records of their own, since no modelled query joins them with the others; those of polls are
-- also read and written from the other tables (Posts.Related.on_polls).
-- Amounts are 64-bit columns: a value of 2^63 or more is refused where the source converts it.
-- Loops are structural recursion. The rows that a deletion reaches
-- (Posts.Delete.closure) are found in as many rounds as there are posts, and the ancestors of a post
-- (Posts.Mentions.ancestors) likewise. Tags are stored by their names, and of a stored file only its name and its URL is
-- kept. Reactions, bookmarks and tracked conversations are not tables of the model, so a deletion does not
-- reach them.
--
-- Not modelled: the PostgreSQL driver and its pool of connections, lengths of VARCHAR columns, that the sequence of relationship
-- identifiers is not rolled back, and concurrency: a transaction runs alone, so table locks do nothing.
-- The columns that DbActorProfile::check_consistency reads are written by no modelled query, so its
-- outcome is one field of a profile. The other components are left out for now, and some for good:
-- those that exchange messages over the network or call cryptographic and web libraries are I/O.
-- ApClient::new_with_pool, which a run of the queue of incoming activities calls before its loop, only reads
-- the filter rules, and is left out.
pub mod Chain
pub mod Codes
pub mod Database
pub mod Filters
pub mod Inbox
pub mod Invoices
pub mod Jobs
pub mod Notifications
pub mod Polls
pub mod Posts
pub mod Prelude
pub mod Profiles
pub mod Relationships
pub mod Schema
pub mod Subscriptions
