-- ===== src/Config/Loading.antt =====
-- Which environments `Load` of config/config.go accepts, and what it makes of them.
use review_service.Prelude.{
  ◌≡◌, refl, ◌⊎◌, inl, inr, String, true, false, Option, none, ℤ, str_eq, Bool-cases, Option-cases,
  arith,
}
use review_service.Domain.Errors.{Result, ok, err}
use review_service.Config.{
  Config, Fatal, required, invalid, get_env, get_duration_env, config_with, with_durations, load,
}

module _ (getenv : String → String) (parse_duration : String → Option ℤ) where
  abbrev pub IsPresent : String → Type 0
  IsPresent key = str_eq (getenv key) "" ≡ false

  -- A value that is no duration.
  abbrev pub IsMalformed : String → Type 0
  IsMalformed key = IsPresent key × (parse_duration (getenv key) ≡ none)

  abbrev pub IsFilled : String → Type 0
  IsFilled text = str_eq text "" ≡ false

  -- Every setting but the password of Redis has a value.
  pub record IsComplete (cfg : Config) : Type 0 where
    pub server_port : IsFilled cfg.server_port
    pub database_url : IsFilled cfg.database_url
    pub jwks_url : IsFilled cfg.jwks_url
    pub allowed_origins : IsFilled cfg.allowed_origins
    pub s3_endpoint : IsFilled cfg.s3_endpoint
    pub s3_bucket : IsFilled cfg.s3_bucket
    pub kafka_brokers : IsFilled cfg.kafka_brokers
    pub kafka_consumer_group : IsFilled cfg.kafka_consumer_group
    pub kafka_request_topic : IsFilled cfg.kafka_request_topic
    pub redis_addr : IsFilled cfg.redis_addr

  -- What an outcome says of the environment.
  abbrev pub IsLoaded : Result Fatal Config → Type 0
  IsLoaded (ok cfg) =
      IsComplete cfg × (IsMalformed "OUTBOX_POLL_INTERVAL" → ⊥) × (IsMalformed "DEDUP_TTL" → ⊥)
  IsLoaded (err (required key)) = (key ≡ "DATABASE_URL") × (str_eq (getenv key) "" ≡ true)
  IsLoaded (err (invalid key)) =
      IsPresent "DATABASE_URL"
      × IsMalformed key
      × ((key ≡ "OUTBOX_POLL_INTERVAL") ⊎ (key ≡ "DEDUP_TTL"))

  get_env-IsFilled :
      (key fallback : String)
      → IsFilled fallback
      → IsFilled (get_env getenv parse_duration key fallback)
  unfolding get_env
  get_env-IsFilled key fallback h = elim (Bool-cases (str_eq (getenv key) "")) [
    | inl unset ↦ rw unset h
    | inr there ↦ rw there there
  ]

  config_with-IsComplete :
      (interval ttl : ℤ)
      → IsPresent "DATABASE_URL"
      → IsComplete (config_with getenv parse_duration interval ttl)
  unfolding config_with
  config_with-IsComplete interval ttl h = record {
    server_port = get_env-IsFilled _ _ refl;
    database_url = h;
    jwks_url = get_env-IsFilled _ _ refl;
    allowed_origins = get_env-IsFilled _ _ refl;
    s3_endpoint = get_env-IsFilled _ _ refl;
    s3_bucket = get_env-IsFilled _ _ refl;
    kafka_brokers = get_env-IsFilled _ _ refl;
    kafka_consumer_group = get_env-IsFilled _ _ refl;
    kafka_request_topic = get_env-IsFilled _ _ refl;
    redis_addr = get_env-IsFilled _ _ refl;
  }

  -- A duration of the environment.
  abbrev IsDuration : String → Result Fatal ℤ → Type 0
  IsDuration key (ok d) = IsMalformed key → ⊥
  IsDuration key (err (required other)) = ⊥
  IsDuration key (err (invalid other)) = (other ≡ key) × IsMalformed key

  get_duration_env-IsDuration :
      (key : String) (fallback : ℤ)
      → IsDuration key (get_duration_env getenv parse_duration key fallback)
  unfolding get_duration_env
  get_duration_env-IsDuration key fallback = elim (Bool-cases (str_eq (getenv key) "")) [
    | inl unset ↦ rw unset (λ (there, e). absurd (ground (arith, unset, there)))
    | inr there ↦ elim (Option-cases (parse_duration (getenv key))) [
      | inl bad ↦ rw (there, bad) (refl, (there, bad))
      | inr (d, good) ↦ rw (there, good) (λ (h, e). absurd (ground (arith, good, e)))
    ]
  ]

  with_durations-IsLoaded :
      (interval ttl : Result Fatal ℤ)
      → IsPresent "DATABASE_URL"
      → IsDuration "OUTBOX_POLL_INTERVAL" interval
      → IsDuration "DEDUP_TTL" ttl
      → IsLoaded (with_durations getenv parse_duration interval ttl)
  with_durations-IsLoaded (ok interval) (ok ttl) h hi ht =
      (config_with-IsComplete interval ttl h, hi, ht)
  with_durations-IsLoaded (ok interval) (err (invalid key)) h hi (e, ht) = (h, rw e ht, inr e)
  with_durations-IsLoaded (ok interval) (err (required key)) h hi ht = elim ht [ ]
  with_durations-IsLoaded (err (invalid key)) ttl h (e, hi) ht = (h, rw e hi, inl e)
  with_durations-IsLoaded (err (required key)) ttl h hi ht = elim hi [ ]

  -- `Load` returns a configuration in which every setting but the password of Redis has a value, and
  -- then no duration of the environment is malformed; it ends the process over a missing DATABASE_URL
  -- only if that is missing, and over a duration only if that is malformed.
  pub load-IsLoaded : IsLoaded (load getenv parse_duration)
  unfolding load
  load-IsLoaded = elim (Bool-cases (str_eq (getenv "DATABASE_URL") "")) [
    | inl unset ↦ rw unset (refl, unset)
    | inr there ↦ rw there (
        with_durations-IsLoaded _ _ there (get_duration_env-IsDuration "OUTBOX_POLL_INTERVAL" _)
          (get_duration_env-IsDuration "DEDUP_TTL" _))
  ]
