-- ===== src/Middleware/Access.antt =====
-- Who gets through: the chain of the middleware against a description of the caller that it accepts.
use Prim.Native.String.{len, slice}
use text.Mathlib.Text.{starts_with}
use review_service.Prelude.{
  String, ◌≡◌, refl, Bool, Option, none, some, List, [], ◌∷◌, arith, if◌then◌else◌, exists, str_eq,
  Bool-cases, inl, inr,
}
use review_service.World.{World}
use review_service.Middleware.{
  Claims, Verifier, Context, empty_context, Handler, bearer, has_role, deny, auth, require_roles,
}

-- The claims of a header that carries a valid token.
abbrev pub bearer_claims : Verifier → String → Option Claims
bearer_claims verifier header =
    if starts_with header bearer
    then verifier.parse_with_claims (slice header (len bearer) (len header))
    else none

-- The caller, if the token is valid and its subject is a UUID.
abbrev pub caller_of : Verifier → Option Claims → Option Context
caller_of verifier none = none
caller_of verifier (some claims) = elim (verifier.parse_uuid claims.subject) [
  | none ↦ none
  | some id ↦ some (record { user_id = some id; roles = claims.roles })
]

abbrev pub has_any : List String → List String → Bool
has_any wanted owned = exists (λ role. exists (λ r. str_eq r role) owned) wanted

module _ {D : Type 0} where
  pub require_roles_lem :
      (wanted : List String) (next : Handler D) (ctx : Context) (w : World)
      → require_roles wanted next ctx w
        ≡ (if has_any wanted ctx.roles then next ctx w else deny 403 "forbidden" w)
  unfolding require_roles has_role
  require_roles_lem [] next ctx w = refl
  require_roles_lem (role ∷ roles) next ctx w =
      elim (Bool-cases (exists (λ r. str_eq r role) ctx.roles)) [
        | inl owned ↦ rw owned
        | inr missing ↦ rw missing (require_roles_lem roles next ctx w)
      ]

  -- A caller that the token does not identify, and the code that refuses it.
  pub auth_denies :
      (verifier : Verifier) (header : String) (next : Handler D) (ctx : Context) (w : World)
      → caller_of verifier (bearer_claims verifier header) ≡ none
      → ((auth verifier header next ctx w).0.status ≡ 401)
        × ((auth verifier header next ctx w).1 ≡ w)
  unfolding auth
  auth_denies verifier header next ctx w e = ground arith

  pub auth_admits :
      (verifier : Verifier) (header : String) (next : Handler D) (w : World) (caller : Context)
      → caller_of verifier (bearer_claims verifier header) ≡ some caller
      → auth verifier header next empty_context w ≡ next caller w
  unfolding auth
  auth_admits verifier header next w caller e = ground arith
