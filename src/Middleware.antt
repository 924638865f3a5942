-- ===== src/Middleware.antt =====
-- internal/middleware/auth.go: `Auth`, `RequireRoles` and the request context that they fill.
-- `jwt.ParseWithClaims`, with RS256 alone and with an expiry required, and `uuid.Parse` are parameters.
pub mod Access
pub mod Chain
use Prim.Native.String.{len, slice}
use text.Mathlib.Text.{starts_with}
use review_service.Prelude.{
  ℕ, String, Bool, true, false, Option, none, some, List, [], ◌∷◌, ◌||◌, if◌then◌else◌, exists,
  str_eq,
}
use review_service.Domain.Appraisal.{Uuid}
use review_service.World.{World}
use review_service.Http.{Response, respond_error}

pub record Claims : Type 0 where
  pub subject : String
  pub roles : List String

pub record Verifier : Type 0 where
  pub parse_with_claims : String → Option Claims
  pub parse_uuid : String → Option Uuid

-- The two values that the middleware stashes; none until it has run.
pub record Context : Type 0 where
  pub user_id : Option Uuid
  pub roles : List String

abbrev pub empty_context : Context
empty_context = record { user_id = none; roles = [] }

abbrev pub Handler : Type 0 → Type 0
Handler D = Context → World → Response D × World

abbrev pub bearer : String
bearer = "Bearer "

abbrev pub context_with_user_id : Context → Uuid → Context
context_with_user_id ctx id = record ctx { user_id = some id }

abbrev pub context_with_roles : Context → List String → Context
context_with_roles ctx roles = record ctx { roles = roles }

unfoldable pub has_role : Context → String → Bool
has_role ctx role = exists (λ r. str_eq r role) ctx.roles

module _ {D : Type 0} where
  abbrev pub deny : ℕ → String → World → Response D × World
  deny status text w = (respond_error status text, w)

  unfoldable pub auth : Verifier → String → Handler D → Handler D
  auth verifier header next ctx w =
      if starts_with header bearer
      then elim (verifier.parse_with_claims (slice header (len bearer) (len header))) [
        | none ↦ deny 401 "invalid token" w
        | some claims ↦ elim (verifier.parse_uuid claims.subject) [
          | none ↦ deny 401 "invalid token subject" w
          | some id ↦ next (context_with_roles (context_with_user_id ctx id) claims.roles) w
        ]
      ]
      else deny 401 "missing authorization header" w

  -- Through if the caller has any of the roles.
  unfoldable pub require_roles : List String → Handler D → Handler D
  require_roles [] next ctx w = deny 403 "forbidden" w
  require_roles (role ∷ roles) next ctx w =
      let rest = require_roles roles next ctx w in if has_role ctx role then next ctx w else rest
