-- ===== src/Http.antt =====
-- internal/httputil/response.go and internal/handler/response.go: what a handler writes. A body that is
-- not an error is the value that is encoded, of type `D`.
use review_service.Prelude.{ℕ, String}

pub data Body (D : Type 0) : Type 0 where
  message : String → Body D
  value : D → Body D
  empty : Body D

pub record Response (D : Type 0) : Type 0 where
  pub status : ℕ
  pub body : Body D

module _ {D : Type 0} where
  abbrev pub respond_error : ℕ → String → Response D
  respond_error status text = record { status = status; body = message text }

  abbrev pub respond_json : ℕ → D → Response D
  respond_json status d = record { status = status; body = value d }
