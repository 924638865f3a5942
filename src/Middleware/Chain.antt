-- ===== src/Middleware/Chain.antt =====
-- The two middlewares of the authenticated routes in a row, as internal/handler/route.go mounts them.
use review_service.Prelude.{◌≡◌, refl, ◌∙◌, String, Option, none, some, List, if◌then◌else◌}
use review_service.World.{World}
use review_service.Http.{Response}
use review_service.Middleware.{Verifier, Context, empty_context, Handler, deny, auth, require_roles}
use review_service.Middleware.Access.{
  bearer_claims, caller_of, has_any, require_roles_lem, auth_denies, auth_admits,
}

module _ {D : Type 0} (verifier : Verifier) (wanted : List String) (header : String)
    (next : Handler D) (w : World) where
  abbrev pub guard : Response D × World
  guard = auth verifier header (require_roles wanted next) empty_context w

  -- What the chain answers to a caller.
  abbrev pub IsAdmitted : Option Context → Type 0
  IsAdmitted none = (guard.0.status ≡ 401) × (guard.1 ≡ w)
  IsAdmitted (some caller) =
      guard ≡ (if has_any wanted caller.roles then next caller w else deny 403 "forbidden" w)

  -- Without a valid bearer token whose subject is a UUID the answer is 401; without one of the wanted
  -- roles it is 403; in both cases nothing has changed. Anyone else reaches the handler, under the
  -- token's identity.
  pub guard-IsAdmitted : IsAdmitted (caller_of verifier (bearer_claims verifier header))
  guard-IsAdmitted = by_caller _ refl
    where
      by_caller :
          (c : Option Context)
          → caller_of verifier (bearer_claims verifier header) ≡ c
          → IsAdmitted c
      by_caller none e = auth_denies verifier header (require_roles wanted next) empty_context w e
      by_caller (some caller) e =
          auth_admits verifier header (require_roles wanted next) w caller e
          ∙ require_roles_lem wanted next caller w
