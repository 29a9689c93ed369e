-- ===== src/Rbac/Cache.antt =====
-- The Redis keys `user:permissions:<id>`, each with the expiry that `SET … EX` gives it. Redis is
-- not code of this repository: `get` may find nothing where an entry expired, was evicted, or the
-- server did not answer, and a `set` or `del` that failed leaves the state as it is.
use mdm.Base.{ℕ, ◌≡◌, Option, none, some, List, ◌⊎◌}
use mdm.Base.Text.{Text}
use mdm.Schema.{Uuid}

pub record Cache : Type 1 where
  pub State : Type 0
  pub get : Uuid → State → Option (List Text)
  -- The seconds that the entry may live come first.
  pub set : ℕ → Uuid → List Text → State → State
  pub del : Uuid → State → State

-- What a read may find behind a statement: nothing, the value just set for the user, or what it
-- found before.
pub record IsCache (C : Cache) : Type 0 where
  pub get-set :
      (ttl : ℕ) (user other : Uuid) (ps : List Text) (s : Cache.State C)
      → (Cache.get C other (Cache.set C ttl user ps s) ≡ none)
        ⊎ (((user ≡ other) × (Cache.get C other (Cache.set C ttl user ps s) ≡ some ps))
            ⊎ (Cache.get C other (Cache.set C ttl user ps s) ≡ Cache.get C other s))
  pub get-del :
      (user other : Uuid) (s : Cache.State C)
      → (Cache.get C other (Cache.del C user s) ≡ none)
        ⊎ (Cache.get C other (Cache.del C user s) ≡ Cache.get C other s)
