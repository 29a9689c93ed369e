-- ===== src/Scim/Patches.antt =====
-- The operations of a `PATCH` on a user, and the columns that they set.
use mdm.Base.{String, Bool, true, false, Option, none, some, List, [], ◌∷◌, str_eq, if◌then◌else◌}
use mdm.Base.Text.{Text}
use mdm.Schema.{Json, null, composite}

pub data Operation : Type 0 where
  add replace remove : Operation

-- The value of an operation: none, a JSON value without the keys that the code looks for, or an
-- object with its JSON text and the values of `active` and `userName`, if it has them.
pub data PatchValue : Type 0 where
  missing : PatchValue
  plain : Json → PatchValue
  object : Text → Option Json → Option Json → PatchValue

-- An element of `Operations` of scimPatchSchema.
pub record PatchOp : Type 0 where
  pub op : Operation
  pub path : Option String
  pub value : PatchValue

-- `updates`: a key that is absent or `undefined` sets no column.
pub record Updates : Type 0 where
  pub email : Option Json
  pub first_name : Option Json
  pub last_name : Option Json
  pub is_active : Option Json

abbrev pub no_updates : Updates
no_updates = record { email = none; first_name = none; last_name = none; is_active = none }

-- `op.value` as the value of a column.
abbrev pub as_column : PatchValue → Option Json
as_column missing = none
as_column (plain j) = some j
as_column (object text active user_name) = some (composite text)

abbrev pub is_path : Option String → String → Bool
is_path none name = false
is_path (some path) name = str_eq path name

-- `!op.path`
abbrev pub no_path : Option String → Bool
no_path none = true
no_path (some path) = str_eq path ""

abbrev pub set_active : PatchOp → Updates → Updates
set_active p u = if is_path p.path "active" then record u { is_active = as_column p.value } else u

abbrev pub set_user_name : PatchOp → Updates → Updates
set_user_name p u = if is_path p.path "userName" then record u { email = as_column p.value } else u

abbrev pub set_given_name : Option Json → PatchOp → Updates → Updates
set_given_name v p u = if is_path p.path "name.givenName" then record u { first_name = v } else u

abbrev pub set_family_name : Option Json → PatchOp → Updates → Updates
set_family_name v p u = if is_path p.path "name.familyName" then record u { last_name = v } else u

-- `if ('active' in val) …` and `if ('userName' in val) …`
abbrev pub set_object : PatchValue → Updates → Updates
set_object missing u = u
set_object (plain j) u = u
set_object (object text none none) u = u
set_object (object text (some active) none) u = record u { is_active = some active }
set_object (object text none (some name)) u = record u { email = some name }
set_object (object text (some active) (some name)) u = record u {
  is_active = some active;
  email = some name;
}

abbrev pub set_values : PatchOp → Updates → Updates
set_values p u =
    let named =
      set_family_name (as_column p.value) p
        (set_given_name (as_column p.value) p (set_user_name p (set_active p u))) in
    if no_path p.path then set_object p.value named else named

abbrev pub clear_names : PatchOp → Updates → Updates
clear_names p u = set_family_name (some null) p (set_given_name (some null) p u)

-- The body of the loop.
unfoldable pub apply_op : PatchOp → Updates → Updates
apply_op p u = elim p.op [
  | add ↦ set_values p u
  | replace ↦ set_values p u
  | remove ↦ clear_names p u
]

unfoldable pub apply_ops : List PatchOp → Updates → Updates
unfolding apply_op
apply_ops [] u = u
apply_ops (p ∷ ps) u = apply_ops ps (apply_op p u)
