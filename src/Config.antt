-- ===== src/Config.antt =====
-- config/config.go. `os.Getenv` and `time.ParseDuration` are parameters; a duration is its nanoseconds.
-- `log.Fatal` and `log.Fatalf` end the process: the model returns what they complain of.
pub mod Loading
use review_service.Prelude.{
  ℕ, ◌*◌, String, Bool, true, false, Option, none, some, ℤ, pos, str_eq, if◌then◌else◌,
}
use review_service.Domain.Errors.{Result, ok, err}

pub record Config : Type 0 where
  pub server_port : String
  pub database_url : String
  pub jwks_url : String
  pub allowed_origins : String
  pub s3_endpoint : String
  pub s3_bucket : String
  pub kafka_brokers : String
  pub outbox_poll_interval : ℤ
  pub kafka_consumer_group : String
  pub kafka_request_topic : String
  pub redis_addr : String
  pub redis_password : String
  pub dedup_ttl : ℤ

-- The variable that is missing, or has a value that is no duration.
pub data Fatal : Type 0 where
  required invalid : String → Fatal

abbrev pub second : ℕ
second = 1000000000

module _ (getenv : String → String) (parse_duration : String → Option ℤ) where
  unfoldable pub get_env : String → String → String
  get_env key fallback = if str_eq (getenv key) "" then fallback else getenv key

  abbrev pub parsed : String → Option ℤ → Result Fatal ℤ
  parsed key none = err (invalid key)
  parsed key (some d) = ok d

  unfoldable pub get_duration_env : String → ℤ → Result Fatal ℤ
  get_duration_env key fallback =
      if str_eq (getenv key) "" then ok fallback else parsed key (parse_duration (getenv key))

  -- The fields in the order of the literal.
  unfoldable pub config_with : ℤ → ℤ → Config
  config_with interval ttl = record {
    server_port = get_env "SERVER_PORT" "8084";
    database_url = getenv "DATABASE_URL";
    jwks_url =
        get_env "JWKS_URL" "http://localhost:8180/realms/appraisal/protocol/openid-connect/certs";
    allowed_origins = get_env "ALLOWED_ORIGINS" "*";
    s3_endpoint = get_env "S3_ENDPOINT" "https://storage.yandexcloud.net";
    s3_bucket = get_env "S3_BUCKET" "appraisal-reports";
    kafka_brokers = get_env "KAFKA_BROKERS" "localhost:9092";
    outbox_poll_interval = interval;
    kafka_consumer_group = get_env "KAFKA_CONSUMER_GROUP" "review-service";
    kafka_request_topic = get_env "KAFKA_REQUEST_TOPIC" "request.events";
    redis_addr = get_env "REDIS_ADDR" "localhost:6383";
    redis_password = get_env "REDIS_PASSWORD" "";
    dedup_ttl = ttl;
  }

  abbrev pub with_durations : Result Fatal ℤ → Result Fatal ℤ → Result Fatal Config
  with_durations (err e) ttl = err e
  with_durations (ok interval) (err e) = err e
  with_durations (ok interval) (ok ttl) = ok (config_with interval ttl)

  unfoldable pub load : Result Fatal Config
  load =
      if str_eq (getenv "DATABASE_URL") ""
      then err (required "DATABASE_URL")
      else with_durations (get_duration_env "OUTBOX_POLL_INTERVAL" (pos second))
          (get_duration_env "DEDUP_TTL" (pos (48 * 3600 * second)))
