-- ===== src/Lib.antt =====
-- The replenishment platform of this repository: a set of Go services around one PostgreSQL database.
-- The forecast service turns stock and demand into calculation lines and draft replenishment plans;
-- the order builder turns approved plans into purchase orders; the channel router sends ready orders
-- to the suppliers' ERP systems and records each attempt; the KPI service refreshes indicator
-- snapshots from the data marts. The marts are built by the validation pipeline, which reads all pages
-- of the export of the master data, applies its rules, and flips the marts in one transaction if the
-- quality suffices. The services meet in the tables: plans pass from draft to approved to converted,
-- orders from ready_to_send to sent or cancelled. Their schedulers run each job under an advisory
-- lock, so that of several processes only one does.
--
-- Files and code (paths from the root of the repository):
--   Common            shared types and lemmas: byte strings, signed integers, UTC times, maps with
--                     string keys, the exchange sort, float64 as an interface (Common/Float), and
--                     database sessions (Common/Session), whose statements may each be refused
--   Forecast          internal/features/forecast: models, forecaster (PredictBatch of
--                     moving_average.go), calculator (Calculator.Compute), constructor
--                     (Constructor.BuildPlans), repository (Forecast/Tables), engine (Run), and
--                     the approval of plans (Forecast/Plans on ApprovePlan)
--   Scheduling        internal/features/forecast/scheduler: the calls of a tick (tick), as steps of
--                     ticks that run at the same time
--   Etl               internal/features/etl_validation: validation (the five rules, their registry
--                     and engine), repository (Etl/Tables), the pipeline with its loader
--                     (Etl/Pipeline: TryStart, runAsync, Retry, Apply), reading the pages of an
--                     entity (Etl/Extractor: Stream, fetchPage, openNextPage, Next), and the
--                     repetitions of one request (Etl/Extractor/Client: Do)
--   Access            internal/middleware: the token check (jwt.go) and the role check (role.go) that
--                     stand before the handlers
--   Export            internal/features/data_export: one page of products (handler/products.go with
--                     repository/master.go and the cursor), and the checks on the rows of a load
--                     (Export/Checks: validation, and the loop of loader that applies it)
--   Kpi               internal/features/kpi: calibration (NewResolver, Resolve), calculators
--                     (ComputeOSA, ComputeOTIF, ComputeStockDays) and engine (Run), with the
--                     statements of repository that the engine executes
--   Channels          internal/features/channels: models and constants, validators, sender
--                     (ErpAPISender.Send with auth/api_key.go) and router_svc (SendAll, SendByID,
--                     sendOne), with the statements of repository that the router executes
--   Orders            internal/features/orders: models and constants, builder (Build), repository
--                     and service (buildOne, Cancel), numbering (Format)
--   Examples          an instance of the float interface, and runs of the theorems
--
-- Correspondence. Go structs are records with the source's field names; columns that the database
-- fills in and nothing here reads are left out. Stateful methods are functions on a session: the
-- tables, and a list that tells for each statement to come whether the server refuses it, so that a
-- theorem for all sessions covers every pattern of failures. A transaction restores the tables where
-- the source rolls back. Every error of the driver is the one error `database`.
--
-- A tick of a scheduler is a state machine of one call at a time; a schedule lists which connection
-- makes its next call and whether that call is refused, and a refused call does nothing.
--
-- Bounds. The retry loop of the sender recurses on the passes that are left, which are the retries
-- plus one; reading pages recurses on the pages left to the cap of 100,000 that the source has, and
-- ends with its error when none is left; Client.Do recurses on its attempts like the sender; all other
-- loops recurse on their lists. Integers of the source that may be negative are ℤ; none of the
-- modelled sums comes near 2^63. Identifiers are numbers, of which 0 is uuid.Nil. A float64 is any
-- type with the operations that the source uses; theorems that need facts of IEEE 754 name them by
-- `IsOrdered`, and Examples/Fixed has an instance.
--
-- Parameters, which stand for code outside the repository: encoding/json, HTTP transport and the
-- formatter that a sender is given, the secret store, the clock, UUID and time parsing, TrimSpace,
-- time and number formatting, ISO weeks, and the order in which Go iterates over a map.
--
-- Further parameters are the SQL that builds a mart, what the snapshot service answers to the
-- pipeline, the token library (`IsVerifying`), what one page of an entity comes to after the
-- repetitions of its request, and for the export base64, strconv and the order of
-- texts in the database (`IsLawful`).
--
-- Not modelled: HTTP handlers and routing but for the products page, logging, process wiring, the
-- other entities of the export, the writes of its loader, the panics of the pipeline, the decoding
-- of NDJSON lines, the metrics (the channel router reads a configuration for them, and ignores its
-- error), TryTrigger, the lists of the repositories, BuildAll and Regenerate of the order
-- service, and the concurrency of two processes on one row, apart from rows that other transactions
-- hold and the advisory locks.
pub mod Common
pub mod Scheduling
pub mod Export
pub mod Etl
pub mod Access
pub mod Forecast
mod Examples
pub mod Kpi
pub mod Channels
pub mod Orders
