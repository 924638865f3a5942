-- ===== src/Tests/Starting.antt =====
-- The configuration from an environment, and the life of the process.
use review_service.Prelude.{
  ℕ, ◌≤◌, ◌⊎◌, true, false, List, [], ◌∷◌, length, all, String, ◌≡◌, refl, Option, none, some, ℤ,
  pos, str_eq, if◌then◌else◌,
}
use review_service.Domain.Errors.{Result, ok, err}
use review_service.Config.{Config, Fatal, load, get_duration_env, config_with}
use review_service.Server.{
  Dependencies, Served, Phase, Event, signal, serve_returns, consumer_returns, relay_returns,
  main_goes, deferred, State, started, start_up, act, act_all,
}
use review_service.Server.Starting.{IsStart, start_up-IsStart}
use review_service.Server.Moves.{IsGraceful, is_clean, IsGoing, is_over}
use review_service.Server.Stopping.{act_all-IsExit, act_all-IsBounded}
use review_service.Config.Loading.{IsLoaded, load-IsLoaded}

-- A poll interval that is no duration.
abbrev variables : String → String
variables key =
    if str_eq key "DATABASE_URL"
    then "postgres://db"
    else if str_eq key "OUTBOX_POLL_INTERVAL"
    then "soon"
    else ""

-- The texts that are durations.
abbrev parse_duration : String → Option ℤ
parse_duration text = if str_eq text "0s" then some (pos 0) else none

load-IsLoaded_example : IsLoaded variables parse_duration (load variables parse_duration)
load-IsLoaded_example = load-IsLoaded variables parse_duration

abbrev zero_interval : String → String
zero_interval key =
    if str_eq key "DATABASE_URL"
    then "postgres://db"
    else if str_eq key "OUTBOX_POLL_INTERVAL"
    then "0s"
    else ""

abbrev interval_of : Result Fatal Config → Option ℤ
interval_of (ok cfg) = some cfg.outbox_poll_interval
interval_of (err e) = none

-- An interval of no time is accepted.
zero_interval_accepted : interval_of (load zero_interval parse_duration) ≡ some (pos 0)
unfolding load get_duration_env config_with
zero_interval_accepted = refl

-- Everything answers but Redis.
abbrev without_redis : Dependencies
without_redis = record {
  open_pool = λ url. true;
  ping_database = λ url. true;
  fetch_jwks = λ url. true;
  ping_redis = λ addr password. false;
}

abbrev unsplit : String → String → List String
unsplit text separator = text ∷ []

start_up-IsStart_example :
    IsStart unsplit without_redis
      (load zero_interval parse_duration)
      (start_up unsplit without_redis (load zero_interval parse_duration))
start_up-IsStart_example =
    start_up-IsStart unsplit without_redis (load zero_interval parse_duration)

-- The consumer dies first; after the signal everything else ends in its order.
abbrev orderly : List Event
orderly =
    consumer_returns true
    ∷ signal
    ∷ main_goes true
    ∷ serve_returns Served.server_closed
    ∷ main_goes true
    ∷ main_goes true
    ∷ relay_returns
    ∷ main_goes true
    ∷ main_goes true
    ∷ main_goes true
    ∷ []

abbrev ended : State
ended = record {
  cancelled = true;
  err_ch = none;
  shut = true;
  serving = false;
  consuming = false;
  relaying = false;
  reader_closed = true;
  released = deferred;
}

orderly_end : act_all orderly started ≡ some (Phase.exited 0, ended)
unfolding act
orderly_end = refl

act_all-IsExit_example :
    ((◌≡◌ {A = ℕ} 0 0) × IsGraceful ended)
    ⊎ ((◌≡◌ {A = ℕ} 0 1) × (ended.released ≡ []) × (all is_clean orderly ≡ false))
act_all-IsExit_example = act_all-IsExit orderly 0 ended orderly_end

act_all-IsBounded_example :
    (length orderly ≤ 10)
    × (ended.cancelled ≡ true → is_over (Phase.exited 0) ≡ false → IsGoing (Phase.exited 0) ended)
act_all-IsBounded_example = act_all-IsBounded orderly (Phase.exited 0) ended orderly_end

-- A consumer that stops with an error leaves the service running without it.
consumer_lost :
    act_all (consumer_returns true ∷ []) started
    ≡ some (Phase.selecting, record started.1 { consuming = false })
unfolding act
consumer_lost = refl

-- A `Shutdown` that fails ends the process while the relay and the consumer are at work, with nothing
-- released.
abrupt_end :
    act_all (signal ∷ main_goes true ∷ main_goes false ∷ []) started
    ≡ some (Phase.exited 1, record started.1 { cancelled = true; shut = true })
unfolding act
abrupt_end = refl
