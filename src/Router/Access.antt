-- ===== src/Router/Access.antt =====
-- Who reaches which route of internal/handler/route.go.
use review_service.Prelude.{
  ◌≡◌, refl, ◌∙◌, String, List, [], ◌∷◌, Option, none, some, if◌then◌else◌, Bool-cases, inl, inr,
  exists, str_eq, arith,
}
use review_service.World.{World}
use review_service.Http.{Response}
use review_service.Middleware.{Verifier, Context, empty_context, Handler, deny, require_roles}
use review_service.Middleware.Access.{
  bearer_claims, caller_of, has_any, require_roles_lem, auth_denies, auth_admits,
}
use review_service.Handler.{Request}
use review_service.Router.{
  Route, health, swagger, list_appraisals, get_appraisal, update_appraisal, add_comparable,
  delete_comparable, upload_report, complete_appraisal, calculate_apartment, apply_calculation,
  get_formula_config, update_formula_config, reset_formula_config, Group, public, staff, admin,
  group_of, staff_roles, admin_roles, Answer, Services, endpoint, in_group, dispatch,
}

-- Who may call a route: everyone, or who has one of some roles.
abbrev pub allowed_roles : Route → Option (List String)
allowed_roles health = none
allowed_roles swagger = none
allowed_roles list_appraisals = some ("appraiser" ∷ "admin" ∷ [])
allowed_roles get_appraisal = some ("appraiser" ∷ "admin" ∷ [])
allowed_roles update_appraisal = some ("appraiser" ∷ "admin" ∷ [])
allowed_roles add_comparable = some ("appraiser" ∷ "admin" ∷ [])
allowed_roles delete_comparable = some ("appraiser" ∷ "admin" ∷ [])
allowed_roles upload_report = some ("appraiser" ∷ "admin" ∷ [])
allowed_roles complete_appraisal = some ("appraiser" ∷ "admin" ∷ [])
allowed_roles calculate_apartment = some ("appraiser" ∷ "admin" ∷ [])
allowed_roles apply_calculation = some ("appraiser" ∷ "admin" ∷ [])
allowed_roles get_formula_config = some ("appraiser" ∷ "admin" ∷ [])
allowed_roles update_formula_config = some ("admin" ∷ [])
allowed_roles reset_formula_config = some ("admin" ∷ [])

-- The roles that the middlewares of a group let in.
abbrev group_roles : Group → Option (List String)
group_roles public = none
group_roles staff = some staff_roles
group_roles admin = some admin_roles

allowed_roles-group_of : (route : Route) → allowed_roles route ≡ group_roles (group_of route)
unfolding group_of
allowed_roles-group_of health = refl
allowed_roles-group_of swagger = refl
allowed_roles-group_of list_appraisals = refl
allowed_roles-group_of get_appraisal = refl
allowed_roles-group_of update_appraisal = refl
allowed_roles-group_of add_comparable = refl
allowed_roles-group_of delete_comparable = refl
allowed_roles-group_of upload_report = refl
allowed_roles-group_of complete_appraisal = refl
allowed_roles-group_of calculate_apartment = refl
allowed_roles-group_of apply_calculation = refl
allowed_roles-group_of get_formula_config = refl
allowed_roles-group_of update_formula_config = refl
allowed_roles-group_of reset_formula_config = refl

module _ {F : Type 0} (verifier : Verifier) (header : String) (h : Handler (Answer F))
    (w : World) where
  -- The answer to a caller of a route that is for everyone, or for some roles.
  abbrev pub IsServed : Option (List String) → Option Context → Response (Answer F) × World → Type 0
  IsServed none caller out = out ≡ h empty_context w
  IsServed (some roles) none out = (out.0.status ≡ 401) × (out.1 ≡ w)
  IsServed (some roles) (some caller) out =
      out ≡ (if has_any roles caller.roles then h caller w else deny 403 "forbidden" w)

  -- The inner test alone decides: an admin is of the staff.
  admin_decides :
      (caller : Context)
      → require_roles staff_roles (require_roles admin_roles h) caller w
        ≡ (if has_any admin_roles caller.roles then h caller w else deny 403 "forbidden" w)
  admin_decides caller =
      require_roles_lem staff_roles (require_roles admin_roles h) caller w
      ∙ elim (Bool-cases (exists (λ r. str_eq r "admin") caller.roles)) [
        | inl owned ↦ rw (require_roles_lem admin_roles h caller w, owned) (ground arith)
        | inr missing ↦ rw (require_roles_lem admin_roles h caller w, missing) (ground arith)
      ]

  in_group-IsServed :
      (group : Group) (caller : Option Context)
      → caller_of verifier (bearer_claims verifier header) ≡ caller
      → IsServed (group_roles group) caller (in_group verifier header group h w)
  unfolding in_group
  in_group-IsServed public caller e = refl
  in_group-IsServed staff none e = auth_denies verifier header _ empty_context w e
  in_group-IsServed staff (some caller) e =
      auth_admits verifier header _ w caller e ∙ require_roles_lem staff_roles h caller w
  in_group-IsServed admin none e = auth_denies verifier header _ empty_context w e
  in_group-IsServed admin (some caller) e =
      auth_admits verifier header _ w caller e ∙ admin_decides caller

-- The health check and the Swagger pages are served to everyone. Every other route answers 401 without a
-- valid bearer token whose subject is a UUID, and 403 to a caller without a role for it, both without
-- effect; anyone else reaches the route's handler under the identity of the token. The roles are appraiser
-- and admin for the seven routes of the appraisals, the two of the calculation and the reading of the formula
-- configuration, and admin alone for its update and its reset.
pub dispatch-IsServed :
    {F : Type 0} (services : Services F) (verifier : Verifier) (route : Route) (header : String)
    (r : Request) (w : World)
    → IsServed verifier header
        (endpoint services route r)
        w
        (allowed_roles route)
        (caller_of verifier (bearer_claims verifier header))
        (dispatch services verifier route header r w)
unfolding dispatch
dispatch-IsServed services verifier route header r w =
    rw (allowed_roles-group_of route)
      (in_group-IsServed verifier header (endpoint services route r) w (group_of route) _ refl)
