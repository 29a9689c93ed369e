-- ===== src/Login/Passwords.antt =====
-- `verifyPassword`. The digests are Node's: `sha256` gives the hexadecimal digest, `from_hex` the
-- bytes that a hexadecimal text stands for, and `pbkdf2` the derived key in hexadecimal, or nothing
-- where it throws because it does not know the algorithm.
use mdm.Base.{
  ℕ, Bool, false, not, ◌&&◌, Option, none, some, List, [], ◌∷◌, ◌++◌, ◌==◌, any, length,
  if◌then◌else◌,
}
use mdm.Base.Text.{Text, codes, text_eq, starts_with}
use mdm.DynamicGroups.Membership.{is_nil}

abbrev pub dollar : ℕ
dollar = 36

abbrev pub push_first : ℕ → List Text → List Text
push_first c [] = (c ∷ []) ∷ []
push_first c (part ∷ parts) = (c ∷ part) ∷ parts

-- `hash.split('$')`
unfoldable pub split_dollar : Text → List Text
split_dollar [] = [] ∷ []
split_dollar (c ∷ cs) =
    let rest = split_dollar cs in if c == dollar then [] ∷ rest else push_first c rest

pub record Digests : Type 0 where
  pub sha256 : Text → Text
  pub from_hex : Text → Text
  pub pbkdf2 : Text → Text → Text → Option Text

module _ (D : Digests) where
  -- `crypto.timingSafeEqual`, which throws where the lengths differ.
  abbrev pub timing_safe_equal : Text → Text → Option Bool
  timing_safe_equal a b = if length a == length b then some (text_eq a b) else none

  abbrev pub verify_sha256 : Text → List Text → Option Bool
  verify_sha256 password (algo ∷ salt ∷ stored ∷ more) =
      timing_safe_equal (D.from_hex (D.sha256 (salt ++ password))) (D.from_hex stored)
  verify_sha256 password _ = none

  abbrev pub same_key : Option Text → Text → Option Bool
  same_key none stored = none
  same_key (some computed) stored = some (text_eq computed stored)

  -- The parts of the hash; the comparison is inside `try`, the derivation is not.
  abbrev pub verify_pbkdf2 : Text → List Text → Option Bool
  verify_pbkdf2 password (algo ∷ salt ∷ stored ∷ []) = same_key (D.pbkdf2 password salt algo) stored
  verify_pbkdf2 password _ = some false

  -- None is an exception.
  unfoldable pub verify_password : Text → Text → Option Bool
  unfolding split_dollar
  verify_password password hash =
      if is_nil hash
      then some false
      else if starts_with hash (codes "sha256$")
      then verify_sha256 password (split_dollar hash)
      else if any (λ c. c == dollar) hash && not (starts_with hash (codes "$argon2"))
      then verify_pbkdf2 password (split_dollar hash)
      else some false
