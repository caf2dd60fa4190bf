-- ===== src/Lib.antt =====
-- OpsSignal: a library that takes operational signals (a failed job, a resolved alert) and delivers
-- them to providers such as Slack or PagerDuty, by the routes of a config. This development models
-- the core crate, crates/core/src, from an input to the outcome that is stored.
--
-- How the parts work together. `SignalClient::send` and `notify_async` (crates/core/src/lib.rs)
-- validate an input, stamp it as a signal and plan its delivery. A trigger is planned by the
-- routes (routing.rs): each matching route is asked of the throttle (throttle.rs), and is
-- suppressed, or holds the signal for a digest (group.rs), or adds its providers to the plan. An
-- `acknowledge` or `resolve` is planned from the alert book (lifecycle.rs) instead. The targets of
-- a plan are then tried at once, each a chain of providers with retries, which report to one
-- tracker; the summary of its outcomes settles the throttle, goes to the alert book and is stored
-- by the sink (sink.rs). The routes come from a config: the files that the sources (source.rs) name are
-- walked with what they extend (chain.rs), and polled for changes (reload.rs).
--
-- The files, with the code that each models (paths below crates/core/src):
--   Prelude, Prelude/*: names of the libraries, Boolean tests on native numbers, lists, texts and
--     their splitting (Prelude/Splits).
--   Window: `Window` of routing.rs, its parser and printer.
--   Signal: the types, `validate`, `fill_lifecycle_defaults`, `from_input` and the dedup key of
--     signal.rs. Signal/Reading: `FromStr` of `Severity` and `Action`.
--     Signal/Validation, Signal/Keys: what holds of them.
--   Routing: `Route`, `RouteMatch`, `targets`, `providers_any_severity` of routing.rs.
--     Routing/Plan: `plan_with`, with its gate as a function on a state of any type.
--     Routing/Targets, Decisions, Names, Chosen, Unlost, Gates, Modes, OneMode: what holds of plans.
--   Throttle: `try_admit`, `check`, `admit`, `admit_digest`, `release` of throttle.rs over the rows
--     of the table. Throttle/Rows, History, Forgets, Spacing, Deletes, Release: what holds of them.
--   Delivery: the types of delivery.rs. Delivery/Tracker, Delivery/Chain, Delivery/Summary:
--     `Tracker`, `deliver_chain`, `deliver` and `summarize` of lib.rs. Delivery/Retry, Lookups,
--     Weave, Schedules, Statuses, Reports, Outcomes, EndToEnd: what holds of deliveries.
--   Lifecycle: `AlertBook` of lifecycle.rs and `lifecycle_plan` of lib.rs. Lifecycle/Book, Holders,
--     Plans: what holds of them.
--   Groups: `Groups` of group.rs; Groups/Fields: its `group_by` fields; Groups/Digest: `digest`.
--     Groups/Entries, Kept, Times, Listed, Digests: what holds of them.
--   Client: `prepare`, `hold`, `settle`, `settle_unsent` of lib.rs; Client/Sending: `send`,
--     `notify_async` and its task, the first half of `flush`; Client/Flushing: `flush`; Client/Digests:
--     `GroupSender::send`.
--     Client/Calls, Client/Settled: what holds of them.
--   Chain: `Walk` and `walk` of chain.rs, over the record `Files` of what it uses; Chain/Load: `load`,
--     `build` and `read_cache`. Chain/Visits, Order, Ends, Fallback, Closed: what holds of chains.
--   Config: `provider_names` and `check_routes` of config.rs. Config/Checks, Planned: what they let
--     through.
--   Startup: `load_initial` of source.rs and `Reloader::check` of reload.rs. Startup/Outcomes,
--     Reloads: what holds of them.
--   Sources: `ConfigSource` of source.rs, its printer and who reads it; Sources/Parse: `parse`,
--     `parse_list`; Sources/Join: `join`, `join_key`, `normalize`; Sources/Fetchers: `fetch` and the
--     registry of the add-ons; Sources/Options: `LoadOptions` and `discover`; Sources/Walks: the
--     sources as the `Files` of a chain. Sources/Queries, RoundTrip, Parts, Printable, Paths,
--     Siblings, Relative: what holds of them.
--   InFlight: `InFlight::start`, `wait` and the drop of a `Guard` of inflight.rs as moves of threads.
--     InFlight/Deadline, Waits: when a wait ends.
--   Secrets: `SecretRef` of secrets.rs; Secrets/Resolve: `resolve`, `cached_read` and `read`.
--     Secrets/Frugal: what a resolution reads.
--   Sink: `SqliteSink` of sink.rs. Sink/Told, Rows, Sent: what its tables hold.
--   Examples, Examples/*: tests on concrete inputs, and each theorem at an input.
--
-- How state and effects are modelled. A table of SQLite is the list of its rows, and whether a
-- statement fails is a Boolean argument, or a function of the row or outcome that it is for, and
-- in Sink a function from the statements to their errors. A map is an association list. What a
-- mutex guards is changed in one step; threads that take turns are a schedule, a list of which
-- target goes next, or a list of events in any order. A thread that sleeps in `wait_timeout` has
-- the time at which that is over. A provider is what it answers at each attempt. Numbers are
-- natural numbers; where the source saturates (`millis`, `Window`), so does the model. The retry
-- loop is recursion on the attempts that are left, from `MAX_RETRY_ATTEMPTS`, and printing a
-- number is recursion on fuel that is more than its number of digits, so neither can run out. The
-- walk over a chain is recursion on fuel for one more than `MAX_DEPTH` files on the stack; it
-- refuses to go deeper before the fuel is used up. A file path is its text, and in `normalize`
-- the list of its components on Unix.
--
-- Parameters of the model: SHA-256, the clock, ids, `serde_json` (the record `Json`, the text of a
-- route, of group values and of a signal), the providers' answers; of the configs, the record `Files`,
-- which Sources/Walks fills but for the layers (config.rs) and the secrets; the joining
-- of URLs (the `url` crate) and of the cache's paths; the disk, the network and the clouds of a build
-- (the record `World`).
--
-- Not modelled: the layers of a config, its placeholders and the settings of its providers
-- (config.rs), the digest of the secrets (secrets.rs), the payloads of providers and templates, and
-- the command line and bindings. Providers and stores are network I/O.
pub mod Prelude
pub mod Window
pub mod Signal
pub mod Routing
pub mod Throttle
pub mod Delivery
pub mod Lifecycle
pub mod Groups
pub mod Client
pub mod Chain
pub mod Config
pub mod Startup
pub mod Sources
pub mod Secrets
pub mod Sink
pub mod InFlight
mod Examples
