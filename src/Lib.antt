-- ===== src/Lib.antt =====
-- Verification library of the review service, the appraisal service of a CRM. Its parts and their
-- files:
--
--   Domain: internal/domain/appraisal.go, events.go, errors.go and apartment.go. A UUID is its number, a
--     time a count of the ticks that the database keeps (Go's clock is finer: a stamp that a method
--     returns may differ from the one that is stored by less than a tick), a JSON document a text, a Go
--     map an association list. Go's `float64` with the operations that the calculation uses on it is a
--     parameter (Domain.Floats).
--   World: what the processes share (the tables of migrations/, the Redis keys, the Kafka log, the
--     messages that the consumer's group has committed), and how an operation runs on it. An
--     operation is a sequence of calls. Before each call other processes may
--     act (`Env.others`), and a call may be served, fail without effect, or take effect while its caller
--     sees an error (`Env.fate`); clocks and fresh UUIDs are read from the environment too. A
--     transaction works on a copy of the tables, and other processes act before it begins: the row lock
--     that its first statement takes keeps them off the row until it ends. A table keeps its rows in the
--     order of their insertion, and a sort keeps that order among rows with one time stamp, for which
--     Postgres promises none.
--   Repository: internal/repository/postgres.go, the statements in Repository.Statements, the methods of
--     `postgresRepository` in Repository, those on formula_configs in Repository.Formulas. Postgres'
--     coercions to NUMERIC and JSONB, `json.Marshal` of an event and `uuid.UUID.String` are parameters
--     in `Env`, the other JSON documents in `Documents`.
--   Calculation: internal/service/apartment_calc.go, `calculateApartmentWithConfig` and the test of its
--     input.
--   Storage: internal/storage/storage.go.
--   Service: internal/service/appraisal.go and service.go, with `ApplyApartmentCalculation` in
--     Service.Apply and the methods of apartment_calc.go on the configuration in Service.Formulas.
--   Dedup: internal/dedup/redis.go. Consumer: internal/kafka/consumer.go, the loop over the messages
--     that are there and the cancellation of its context, with `json.Unmarshal` as a parameter.
--   Relay: internal/outbox/relay.go and producer.go.
--   Http and Middleware: internal/httputil/response.go and internal/middleware/auth.go, with
--     `jwt.ParseWithClaims` and `uuid.Parse` as parameters.
--   Handler: internal/handler/appraisal.go, in Handler.Bodies dto.go and validate.go, and in
--     Handler.Apartments apartment.go, with `strconv.Atoi`, the decoding of JSON and the validator as
--     parameters.
--   Router: internal/handler/route.go and health.go, the routes as a data type, each with the
--     middlewares of its group around its handler.
--   Config: config/config.go, with the environment and `time.ParseDuration` as parameters.
--   Server: cmd/server/main.go, the checks before anything is started, then `main` and its goroutines as
--     moves that happen in any order, with the clients as parameters.
--
-- A handler calls the service, this the repository, and that the tables; the relay reads the outbox
-- that `Complete` writes, and the consumer calls `CreateFromRequest`. About these parts together:
--
--   Invariant: the invariant of the tables, the history of a row, and the operations against both;
--     Invariant.Traces runs sequences of calls, messages and batches (`Command`). Invariant.Framing is
--     for conditions that most methods do not touch.
--   Lifecycle: an abstract life of an appraisal, and the calls against it; Lifecycle.Reporting follows a
--     completion to Kafka.
--   Consumer.Redelivery, Consumer.Stopping, Consumer.Progress, Relay.Progress, Relay.Delivery and
--     Relay.Draining are about the two background workers, Middleware.Chain and Router.Access about
--     access, the children of Handler about its answers.
--   Service.Completing, Service.Patching and Service.Replacing are about calls that are all served,
--     Server.Starting and Server.Stopping about the start and the end of the process.
--   Tests: runs of the model and applications of the theorems at concrete inputs.
--
-- Loops recur on the list that they walk, runs of the process on the list of its events; the loop of
-- the relay recurs on the number of its ticks, which is how long it runs before it is stopped. A batch
-- of the relay has at most 100 rows, as in the source. Statements about other processes assume that
-- these keep the invariant and leave completed rows alone (`IsCivil`); those about optimistic writes
-- assume also that no process completes an appraisal with the very time stamp that the write has read.
-- The consumer's others mark and commit only events that have their appraisal (`IsTrusted`); of the
-- messages that are there, those of one event id belong to one request (`IsOwned`). Where a result says
-- that no other process is at work, it is `IsAlone`, and where every call is served too, `IsCalm`.
-- Integers of the handlers are 64 bits wide and wrap around. Of floats nothing is assumed.
--
-- Not modelled: the matching of paths, CORS, the request id, the log and the recovery from panics,
-- which are libraries' middlewares; the slice of four results of the calculation, which is a list
-- as long as the analogs that are accepted, four; log lines, the interval of tickers, time limits, and the
-- cancellation of contexts but in the loop of the consumer and in Server.
pub mod Prelude
pub mod Domain
pub mod World
pub mod Repository
pub mod Storage
pub mod Service
pub mod Invariant
pub mod Dedup
pub mod Calculation
pub mod Consumer
pub mod Relay
pub mod Http
pub mod Middleware
pub mod Handler
pub mod Router
pub mod Tests
pub mod Lifecycle
pub mod Config
pub mod Server
