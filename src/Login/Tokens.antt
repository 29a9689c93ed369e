-- ===== src/Login/Tokens.antt =====
-- JSON web tokens. Signing and verification are a library's: a token is a text, here opaque, whose claims
-- `verify` finds until it expires.
use mdm.Base.{ℕ, String, ◌≡◌, ◌<◌, ◌+◌, Option, some, List}
use mdm.Base.Text.{Text}
use mdm.Schema.{Uuid}

-- The claims that the service puts into a token; each but the first may be missing.
pub record Claims : Type 0 where
  pub sub : Uuid
  pub email : Option String
  pub org_id : Option Uuid
  pub permissions : Option (List Text)
  pub type : Option String

pub record Jwt : Type 1 where
  pub Token : Type 0
  -- The lifetime in seconds, and the time.
  pub sign : Claims → ℕ → ℕ → Token
  pub verify : Token → ℕ → Option Claims

-- A token that was signed is verified, with its claims, until its lifetime is over.
pub record IsJwt (J : Jwt) : Type 0 where
  pub verify-sign :
      (c : Claims) (lifetime now later : ℕ)
      → later < now + lifetime
      → J.verify (J.sign c lifetime now) later ≡ some c
