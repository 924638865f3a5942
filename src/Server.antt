-- ===== src/Server.antt =====
-- cmd/server/main.go: the checks before anything is started, and the life of the process after that, as
-- the moves of its goroutines. The clients of Postgres, Keycloak and Redis, and `strings.Split`, are
-- parameters.
pub mod Starting
pub mod Moves
pub mod Stopping
use Prim.Native.String.{◌++◌}
use review_service.Prelude.{
  ℕ, ◌*◌, String, Bool, true, false, not, ◌&&◌, ◌||◌, Option, none, some, List, [], ◌∷◌, ℤ,
  if◌then◌else◌,
}
use review_service.Domain.Errors.{Result, ok, err}
use review_service.Config.{Config, Fatal, second}
use review_service.Storage.{StubStorage}

-- Which of the calls succeed that open a dependency or check that it is there.
pub record Dependencies : Type 0 where
  pub open_pool : String → Bool
  pub ping_database : String → Bool
  pub fetch_jwks : String → Bool
  pub ping_redis : String → String → Bool

pub data Failure : Type 0 where
  config : Fatal → Failure
  no_pool no_database no_jwks no_redis : Failure

-- `http.Server`, with durations in nanoseconds.
pub record HttpServer : Type 0 where
  pub addr : String
  pub read_header_timeout : ℕ
  pub read_timeout : ℕ
  pub write_timeout : ℕ
  pub idle_timeout : ℕ

-- What the parts of the service are made with.
pub record App : Type 0 where
  pub storage : StubStorage
  pub allowed_origins : List String
  pub http : HttpServer
  pub producer_brokers : List String
  pub poll_interval : ℤ
  pub dedup_ttl : ℤ
  pub consumer_brokers : List String
  pub group : String
  pub topic : String

-- `os.Exit(1)` unless the check succeeds.
abbrev pub unless_failed : Bool → Failure → Result Failure App → Result Failure App
unless_failed true failure rest = rest
unless_failed false failure rest = err failure

module _ (split : String → String → List String) (deps : Dependencies) where
  abbrev pub wire : Config → App
  wire cfg = record {
    storage = record { endpoint = cfg.s3_endpoint; bucket = cfg.s3_bucket };
    allowed_origins = split cfg.allowed_origins ",";
    http = record {
      addr = ":" ++ cfg.server_port;
      read_header_timeout = 5 * second;
      read_timeout = 15 * second;
      write_timeout = 30 * second;
      idle_timeout = 60 * second;
    };
    producer_brokers = split cfg.kafka_brokers ",";
    poll_interval = cfg.outbox_poll_interval;
    dedup_ttl = cfg.dedup_ttl;
    consumer_brokers = split cfg.kafka_brokers ",";
    group = cfg.kafka_consumer_group;
    topic = cfg.kafka_request_topic;
  }

  -- Up to the first goroutine, from what `config.Load` gives.
  unfoldable pub start_up : Result Fatal Config → Result Failure App
  start_up (err e) = err (config e)
  start_up (ok cfg) = unless_failed (deps.open_pool cfg.database_url) no_pool (
      unless_failed (deps.ping_database cfg.database_url) no_database (
        unless_failed (deps.fetch_jwks cfg.jwks_url) no_jwks (
          unless_failed (deps.ping_redis cfg.redis_addr cfg.redis_password) no_redis
            (ok (wire cfg)))))

-- What `ListenAndServe` returns; `server_closed` is `http.ErrServerClosed`.
pub data Served : Type 0 where
  no_error server_closed server_error : Served

-- Where `main` is: in the `select`, in `Shutdown`, at the second receive from `errCh`, at
-- `consumer.Close`, at the two receives after that, and gone with an exit code.
pub data Phase : Type 0 where
  selecting shutting_down receiving closing_consumer awaiting_consumer awaiting_relay : Phase
  exited : ℕ → Phase

-- What the deferred calls release.
pub data Resource : Type 0 where
  shutdown_context producer signals redis database : Resource

-- The rest of the process: whether `ctx` is cancelled, what waits in `errCh`, whether `Shutdown` has
-- been called, which goroutines still run, whether the reader has been closed, and the deferred calls
-- that have been made, in order.
pub record State : Type 0 where
  pub cancelled : Bool
  pub err_ch : Option Served
  pub shut : Bool
  pub serving : Bool
  pub consuming : Bool
  pub relaying : Bool
  pub reader_closed : Bool
  pub released : List Resource

abbrev pub Process : Type 0
Process = Phase × State

-- After the three goroutines have been started.
abbrev pub started : Process
started = (
  selecting,
  record {
    cancelled = false;
    err_ch = none;
    shut = false;
    serving = true;
    consuming = true;
    relaying = true;
    reader_closed = false;
    released = [];
  },
)

-- What happens: a signal, the return of a goroutine's loop (that of the consumer with an error or nil),
-- and a move of `main`, with the case that `select` picks or whether the call succeeds.
pub data Event : Type 0 where
  signal : Event
  serve_returns : Served → Event
  consumer_returns : Bool → Event
  relay_returns : Event
  main_goes : Bool → Event

-- What happens only under a condition.
abbrev pub when : {A : Type 0} → Bool → A → Option A
when true a = some a
when false a = none

-- The receive from `errCh`, where a value is there.
abbrev pub received : {A : Type 0} → Option Served → (Served → A) → Option A
received none next = none
received (some e) next = some (next e)

-- After the second receive.
abbrev pub after_serving : State → Served → Process
after_serving s server_error = (exited 1, s)
after_serving s _ = (closing_consumer, s)

-- The deferred calls of `main`.
abbrev pub deferred : List Resource
deferred = shutdown_context ∷ producer ∷ signals ∷ redis ∷ database ∷ []

abbrev pub main_moves : Phase → Bool → State → Option Process
main_moves selecting false s = received s.err_ch (λ e. (exited 1, record s { err_ch = none }))
main_moves selecting true s = when s.cancelled (shutting_down, record s { shut = true })
main_moves shutting_down true s = some (receiving, s)
main_moves shutting_down false s = some (exited 1, s)
main_moves receiving b s = received s.err_ch (after_serving (record s { err_ch = none }))
main_moves closing_consumer b s = some (awaiting_consumer, record s { reader_closed = true })
main_moves awaiting_consumer b s = when (not s.consuming) (awaiting_relay, s)
main_moves awaiting_relay b s = when (not s.relaying) (exited 0, record s { released = deferred })
main_moves (exited code) b s = none

-- `ListenAndServe` returns `http.ErrServerClosed` only after `Shutdown`.
abbrev pub may_return : Served → State → Bool
may_return server_closed s = s.serving && s.shut
may_return no_error s = s.serving
may_return server_error s = s.serving

-- The goroutines and the signals. `Consumer.Run` returns nil only on a cancelled context, and
-- `Relay.Run` returns only then.
abbrev pub others_move : Event → State → Option State
others_move signal s = when (not s.cancelled) (record s { cancelled = true })
others_move (serve_returns r) s =
    when (may_return r s) (record s { serving = false; err_ch = some r })
others_move (consumer_returns failed) s =
    when (s.consuming && (failed || s.cancelled)) (record s { consuming = false })
others_move relay_returns s = when (s.relaying && s.cancelled) (record s { relaying = false })
others_move (main_goes b) s = none

abbrev pub paired : Phase → Option State → Option Process
paired phase none = none
paired phase (some s) = some (phase, s)

-- A process that has exited does nothing more.
unfoldable pub act : Event → Process → Option Process
act e (exited code, s) = none
act (main_goes b) (phase, s) = main_moves phase b s
act e (phase, s) = paired phase (others_move e s)

abbrev pub act_all : List Event → Process → Option Process
act_all [] p = some p
act_all (e ∷ es) p = elim (act e p) [ none ↦ none | some q ↦ act_all es q ]
