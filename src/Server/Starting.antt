-- ===== src/Server/Starting.antt =====
-- What cmd/server/main.go has checked before it starts anything.
use review_service.Prelude.{◌≡◌, refl, String, Bool, true, false, List}
use review_service.Domain.Errors.{Result, ok, err}
use review_service.Config.{Config, Fatal}
use review_service.Server.{
  Dependencies, Failure, config, no_pool, no_database, no_jwks, no_redis, App, wire, unless_failed,
  start_up,
}

module _ (split : String → String → List String) (deps : Dependencies)
    (loaded : Result Fatal Config) where
  -- The configuration has been loaded, and these checks of it have come out like this.
  abbrev Checked : (Config → Type 0) → Type 0
  Checked Outcome = (cfg : Config) × (loaded ≡ ok cfg) × Outcome cfg

  abbrev pool : Config → Bool
  pool cfg = deps.open_pool cfg.database_url

  abbrev database : Config → Bool
  database cfg = deps.ping_database cfg.database_url

  abbrev jwks : Config → Bool
  jwks cfg = deps.fetch_jwks cfg.jwks_url

  abbrev redis : Config → Bool
  redis cfg = deps.ping_redis cfg.redis_addr cfg.redis_password

  -- What a start or a failure says.
  abbrev pub IsStart : Result Failure App → Type 0
  IsStart (ok app) = Checked (λ cfg.
      (pool cfg ≡ true)
      × (database cfg ≡ true)
      × (jwks cfg ≡ true)
      × (redis cfg ≡ true)
      × (app ≡ wire split deps cfg))
  IsStart (err (config e)) = loaded ≡ err e
  IsStart (err no_pool) = Checked (λ cfg. pool cfg ≡ false)
  IsStart (err no_database) = Checked (λ cfg. (pool cfg ≡ true) × (database cfg ≡ false))
  IsStart (err no_jwks) =
      Checked (λ cfg. (pool cfg ≡ true) × (database cfg ≡ true) × (jwks cfg ≡ false))
  IsStart (err no_redis) =
      Checked
        (λ cfg. (pool cfg ≡ true) × (database cfg ≡ true) × (jwks cfg ≡ true) × (redis cfg ≡ false))

-- The service is started only with the configuration that was loaded and when Postgres, the keys and
-- Redis have all answered; and it exits over the first of the configuration, the pool, the database,
-- the keys and Redis that failed.
pub start_up-IsStart :
    (split : String → String → List String) (deps : Dependencies) (loaded : Result Fatal Config)
    → IsStart split deps loaded (start_up split deps loaded)
unfolding start_up
start_up-IsStart split deps (err e) = refl
start_up-IsStart split deps (ok cfg) =
    by_checks (deps.open_pool cfg.database_url) (deps.ping_database cfg.database_url)
      (deps.fetch_jwks cfg.jwks_url) (deps.ping_redis cfg.redis_addr cfg.redis_password) refl refl
      refl refl
  where
    by_checks :
        (p d j r : Bool)
        → deps.open_pool cfg.database_url ≡ p
        → deps.ping_database cfg.database_url ≡ d
        → deps.fetch_jwks cfg.jwks_url ≡ j
        → deps.ping_redis cfg.redis_addr cfg.redis_password ≡ r
        → IsStart split deps (ok cfg) (
            unless_failed p no_pool (
              unless_failed d no_database
                (unless_failed j no_jwks (unless_failed r no_redis (ok (wire split deps cfg))))))
    by_checks false d j r ep ed ej er = (cfg, refl, ep)
    by_checks true false j r ep ed ej er = (cfg, refl, (ep, ed))
    by_checks true true false r ep ed ej er = (cfg, refl, (ep, ed, ej))
    by_checks true true true false ep ed ej er = (cfg, refl, (ep, ed, ej, er))
    by_checks true true true true ep ed ej er = (cfg, refl, (ep, ed, ej, er, refl))
