-- ===== src/Router.antt =====
-- internal/handler/route.go and internal/handler/health.go. The matching of a request to a route, with
-- its parameters, is chi's; so are CORS, the request id, the log and the recovery from panics, which
-- are left out. The Swagger pages are a parameter.
pub mod Access
use review_service.Prelude.{String, str_eq, ◌&&◌, find, Option, some, List, [], ◌∷◌, ℤ}
use review_service.Domain.Floats.{Floats}
use review_service.World.{Env, World}
use review_service.Storage.{StubStorage}
use review_service.Repository.Formulas.{Documents}
use review_service.Http.{Body, Response, message, value, empty, respond_json}
use review_service.Middleware.{Verifier, Context, empty_context, Handler, auth, require_roles}
use review_service.Handler.{Request, Reply}
use review_service.Handler.Bodies.{Decoders}
use review_service.Handler.Appraisals
use review_service.Handler.Apartments

-- One constructor for each registration of `NewRouter`.
pub data Route : Type 0 where
  health swagger : Route
  list_appraisals get_appraisal update_appraisal add_comparable delete_comparable upload_report
        complete_appraisal :
      Route
  calculate_apartment apply_calculation get_formula_config update_formula_config
        reset_formula_config :
      Route

-- The groups of the router: no middleware, the two of the outer group, and the third of the inner one.
pub data Group : Type 0 where
  public staff admin : Group

unfoldable pub group_of : Route → Group
group_of health = public
group_of swagger = public
group_of update_formula_config = admin
group_of reset_formula_config = admin
group_of _ = staff

abbrev pub staff_roles : List String
staff_roles = "appraiser" ∷ "admin" ∷ []

abbrev pub admin_roles : List String
admin_roles = "admin" ∷ []

-- What the handlers encode.
pub data Answer (F : Type 0) : Type 0 where
  status_ok : Answer F
  appraisals : Reply → Answer F
  apartments : Apartments.Reply F → Answer F

abbrev pub map_body : {D E : Type 0} → (D → E) → Body D → Body E
map_body f (message text) = message text
map_body f (value d) = value (f d)
map_body f empty = empty

abbrev pub map_answer : {D E : Type 0} → (D → E) → Response D × World → Response E × World
map_answer f (r, w) = (record { status = r.status; body = map_body f r.body }, w)

-- What the handlers are made with.
pub record Services (F : Type 0) : Type 0 where
  pub env : Env
  pub storage : StubStorage
  pub decoders : Decoders
  pub atoi : String → Option ℤ
  pub ops : Floats F
  pub documents : Documents F
  pub apartment_decoders : Apartments.Decoders F
  pub swagger_pages : Handler (Answer F)

module _ {F : Type 0} where
  -- The middlewares of a group around a handler.
  unfoldable pub in_group :
      Verifier → String → Group → Handler (Answer F) → World → Response (Answer F) × World
  in_group verifier header public h = h empty_context
  in_group verifier header staff h =
      auth verifier header (require_roles staff_roles h) empty_context
  in_group verifier header admin h =
      auth verifier header (require_roles staff_roles (require_roles admin_roles h)) empty_context

module _ {F : Type 0} (services : Services F) where
  open services use {
    env, storage, decoders, atoi, ops, documents, apartment_decoders, swagger_pages,
  }

  abbrev on_appraisals : (Request → World → Response Reply × World) → Request → Handler (Answer F)
  on_appraisals h r ctx w = map_answer Answer.appraisals (h r w)

  abbrev on_apartments : Handler (Apartments.Reply F) → Handler (Answer F)
  on_apartments h ctx w = map_answer Answer.apartments (h ctx w)

  unfoldable pub endpoint : Route → Request → Handler (Answer F)
  endpoint health r = λ ctx w. (respond_json 200 status_ok, w)
  endpoint swagger r = swagger_pages
  endpoint list_appraisals r = on_appraisals (Appraisals.list env storage decoders atoi) r
  endpoint get_appraisal r = on_appraisals (Appraisals.get_by_id env storage decoders atoi) r
  endpoint update_appraisal r = on_appraisals (Appraisals.update env storage decoders atoi) r
  endpoint add_comparable r = on_appraisals (Appraisals.add_comparable env storage decoders atoi) r
  endpoint delete_comparable r =
      on_appraisals (Appraisals.delete_comparable env storage decoders atoi) r
  endpoint upload_report r = on_appraisals (Appraisals.upload_report env storage decoders atoi) r
  endpoint complete_appraisal r = on_appraisals (Appraisals.complete env storage decoders atoi) r
  endpoint calculate_apartment r =
      on_apartments (Apartments.calculate_apartment env ops documents apartment_decoders r)
  endpoint apply_calculation r =
      on_apartments (Apartments.apply_to_appraisal env ops documents apartment_decoders r)
  endpoint get_formula_config r =
      on_apartments (Apartments.get_formula_config env ops documents apartment_decoders)
  endpoint update_formula_config r =
      on_apartments (Apartments.update_formula_config env ops documents apartment_decoders r)
  endpoint reset_formula_config r =
      on_apartments (Apartments.reset_formula_config env ops documents apartment_decoders)

  -- A request with its `Authorization` header.
  unfoldable pub dispatch :
      Verifier → Route → String → Request → World → Response (Answer F) × World
  dispatch verifier route header r = in_group verifier header (group_of route) (endpoint route r)
