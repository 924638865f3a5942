-- ===== src/Tests/Calculating.antt =====
-- The calculation, at fixed-point numbers.
use review_service.Prelude.{ℕ, ◌≡◌, refl, [], ◌∷◌}
use review_service.Domain.Apartment.{FormulaConfig, default_config}
use review_service.Domain.Appraisal.{Time}
use review_service.Domain.Errors.{ok}
use review_service.World.{call}
use review_service.Repository.Formulas.{save_formula_config, upsert_config}
use review_service.Service.Formulas.{stamped, update_config, get_config}
use review_service.Service.Formulas.Reading.{get_config-update_config}
use review_service.World.{World}
use review_service.World.Tables.{ConfigRow}
use review_service.Repository.Formulas.{select_config}
use review_service.Service.Formulas.Reading.{Holds}
use review_service.Middleware.{empty_context}
use review_service.Handler.{Request}
use review_service.Handler.Bodies.{accepted}
use review_service.Handler.Apartments.{Decoders, calculate_apartment}
use review_service.Handler.Apartments.Calculating.{IsAnswer, calculate_apartment-IsAnswer}
use review_service.Prelude.{some, none}
use review_service.Tests.Numbers.{fixed, documents, calculation}
use review_service.Tests.Setup.{env, start, tables}

abbrev own_config : FormulaConfig ℕ
own_config = default_config fixed 0

abbrev own_stored : FormulaConfig ℕ
own_stored = stamped env fixed documents own_config 100 "admin"

own_config-updated : (update_config env fixed documents own_config "admin" start).0 ≡ ok own_stored
unfolding update_config save_formula_config upsert_config call
own_config-updated = refl

get_config-update_config_example :
    let v = (update_config env fixed documents own_config "admin" start).1 in
    (at : Time) × ((get_config env fixed documents v).0
      ≡ ok (record own_stored { updated_at = at }))
get_config-update_config_example =
    get_config-update_config env fixed documents own_config own_stored "admin" start (λ k s. refl)
      (λ at raw stored e e'. (own_config, refl, refl)) own_config-updated refl

-- The configuration is stored.
abbrev own_row : ConfigRow
own_row = record { id = "apartment"; config = "{}"; updated_at = 100; updated_by = some "admin" }

abbrev configured : World
configured = record { shared = record tables { formula_configs = own_row ∷ [] }; step = 0 }

configured-Holds : Holds env fixed documents own_stored configured.shared
unfolding select_config
configured-Holds = record {
  row = own_row;
  document = own_config;
  found = refl;
  decoded = refl;
  same = refl;
}

-- Every body is that calculation.
abbrev calculation_decoders : Decoders ℕ
calculation_decoders = record {
  parse_uuid = λ text. none;
  config = λ limit text. none;
  input = λ limit text. some calculation;
}

abbrev post : Request
post = record { url_param = λ name. ""; query = λ name. ""; body = "{}" }

calculate_apartment-IsAnswer_example :
    IsAnswer env fixed documents own_stored configured
      (accepted calculation)
      (calculate_apartment env fixed documents calculation_decoders post empty_context configured)
calculate_apartment-IsAnswer_example =
    calculate_apartment-IsAnswer env fixed documents own_stored configured (λ k s. refl) refl
      configured-Holds calculation_decoders post empty_context
