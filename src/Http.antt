-- ===== src/Http.antt =====
-- What the routes of admin-api share: the caller that `authenticate` puts on the request, and the
-- replies. A handler gives its reply and the database behind it; an exception that no handler
-- catches is the 500 of `errorHandler` (services/admin-api/src/middleware/error-handler.ts).
use mdm.Base.{ℕ, String, List, Result, err}
use mdm.Base.Text.{Text}
use mdm.Schema.{Uuid}

-- `request.user`
pub record Caller : Type 0 where
  pub sub : Uuid
  pub email : String
  pub org_id : Uuid
  pub role_id : Uuid
  pub permissions : List Text

-- `reply.status(status).send({ …, message })`
pub record Refusal : Type 0 where
  pub status : ℕ
  pub message : String

abbrev pub refuse {ℓ} : {A : Type ℓ} → ℕ → String → Result Refusal A
refuse status message = err (record { status = status; message = message })

-- The last branch of `errorHandler`.
abbrev pub unexpected {ℓ} : {A : Type ℓ} → Result Refusal A
unexpected = refuse 500 "An unexpected error occurred"
