-- ===== src/Scim/LastSet.antt =====
-- The columns that a `PATCH` on a user sets, read off its operations one column at a time.
use mdm.Base.{
  ◌≡◌, refl, ap, ◌∙◌, String, Option, none, some, List, [], ◌∷◌, arith, get_or, if◌then◌else◌,
}
use mdm.Groups.Routes.{or_else}
use mdm.Schema.{Json, null}
use mdm.Scim.Patches.{
  Operation, add, replace, remove, PatchValue, missing, plain, object, PatchOp, Updates, no_updates,
  as_column, is_path, no_path, apply_op, apply_ops,
}

-- The value of the last operation that names the column.
unfoldable pub last_set : (PatchOp → Option (Option Json)) → List PatchOp → Option (Option Json)
last_set sets [] = none
last_set sets (p ∷ ps) = or_else (last_set sets ps) (sets p)

abbrev pub object_active : PatchValue → Option (Option Json)
object_active missing = none
object_active (plain j) = none
object_active (object text none user_name) = none
object_active (object text (some active) user_name) = some (some active)

abbrev pub object_email : PatchValue → Option (Option Json)
object_email missing = none
object_email (plain j) = none
object_email (object text active none) = none
object_email (object text active (some name)) = some (some name)

-- A column that an addition or a replacement names by its path, or else by a key of an object.
abbrev pub named : String → (PatchValue → Option (Option Json)) → PatchOp → Option (Option Json)
named path key p = elim p.op [
  | remove ↦ none
  | _ ↦
      or_else (if no_path p.path then key p.value else none)
        (if is_path p.path path then some (as_column p.value) else none)
]

abbrev pub sets_active : PatchOp → Option (Option Json)
sets_active p = named "active" object_active p

abbrev pub sets_email : PatchOp → Option (Option Json)
sets_email p = named "userName" object_email p

-- A name, which a removal sets to null.
abbrev pub sets_name : String → PatchOp → Option (Option Json)
sets_name path p =
    if is_path p.path path
    then some (elim p.op [ remove ↦ some null | _ ↦ as_column p.value ])
    else none

last_set_lem :
    (sets : PatchOp → Option (Option Json)) (column : Updates → Option Json)
    → ((p : PatchOp) (u : Updates) → column (apply_op p u) ≡ get_or (sets p) (column u))
    → (ops : List PatchOp) (u : Updates)
    → column (apply_ops ops u) ≡ get_or (last_set sets ops) (column u)
unfolding apply_ops last_set
last_set_lem sets column h [] u = refl
last_set_lem sets column h (p ∷ ps) u =
    last_set_lem sets column h ps (apply_op p u)
    ∙ ap (λ v. get_or (last_set sets ps) v) (h p u)
    ∙ later (last_set sets ps) (sets p)
  where
    later :
        (a b : Option (Option Json))
        → get_or a (get_or b (column u)) ≡ get_or (or_else a b) (column u)
    later none b = refl
    later (some v) b = refl

active_added :
    (path : Option String) (value : PatchValue) (u : Updates)
    → (apply_op (record { op = add; path = path; value = value }) u).is_active
      ≡ get_or (sets_active (record { op = add; path = path; value = value })) u.is_active
unfolding apply_op
active_added path missing u = ground arith
active_added path (plain j) u = ground arith
active_added path (object text none none) u = ground arith
active_added path (object text none (some n)) u = ground arith
active_added path (object text (some a) none) u = ground arith
active_added path (object text (some a) (some n)) u = ground arith

active_step :
    (op : Operation) (path : Option String) (value : PatchValue) (u : Updates)
    → (apply_op (record { op = op; path = path; value = value }) u).is_active
      ≡ get_or (sets_active (record { op = op; path = path; value = value })) u.is_active
unfolding apply_op
active_step add path value u = active_added path value u
active_step replace path value u = active_added path value u
active_step remove path value u = ground arith

email_added :
    (path : Option String) (value : PatchValue) (u : Updates)
    → (apply_op (record { op = add; path = path; value = value }) u).email
      ≡ get_or (sets_email (record { op = add; path = path; value = value })) u.email
unfolding apply_op
email_added path missing u = ground arith
email_added path (plain j) u = ground arith
email_added path (object text none none) u = ground arith
email_added path (object text none (some n)) u = ground arith
email_added path (object text (some a) none) u = ground arith
email_added path (object text (some a) (some n)) u = ground arith

email_step :
    (op : Operation) (path : Option String) (value : PatchValue) (u : Updates)
    → (apply_op (record { op = op; path = path; value = value }) u).email
      ≡ get_or (sets_email (record { op = op; path = path; value = value })) u.email
unfolding apply_op
email_step add path value u = email_added path value u
email_step replace path value u = email_added path value u
email_step remove path value u = ground arith

first_added :
    (path : Option String) (value : PatchValue) (u : Updates)
    → (apply_op (record { op = add; path = path; value = value }) u).first_name
      ≡ get_or
          (sets_name "name.givenName" (record { op = add; path = path; value = value }))
          u.first_name
unfolding apply_op
first_added path missing u = ground arith
first_added path (plain j) u = ground arith
first_added path (object text none none) u = ground arith
first_added path (object text none (some n)) u = ground arith
first_added path (object text (some a) none) u = ground arith
first_added path (object text (some a) (some n)) u = ground arith

first_step :
    (op : Operation) (path : Option String) (value : PatchValue) (u : Updates)
    → (apply_op (record { op = op; path = path; value = value }) u).first_name
      ≡ get_or
          (sets_name "name.givenName" (record { op = op; path = path; value = value }))
          u.first_name
unfolding apply_op
first_step add path value u = first_added path value u
first_step replace path value u = first_added path value u
first_step remove path value u = ground arith

last_added :
    (path : Option String) (value : PatchValue) (u : Updates)
    → (apply_op (record { op = add; path = path; value = value }) u).last_name
      ≡ get_or
          (sets_name "name.familyName" (record { op = add; path = path; value = value }))
          u.last_name
unfolding apply_op
last_added path missing u = ground arith
last_added path (plain j) u = ground arith
last_added path (object text none none) u = ground arith
last_added path (object text none (some n)) u = ground arith
last_added path (object text (some a) none) u = ground arith
last_added path (object text (some a) (some n)) u = ground arith

last_step :
    (op : Operation) (path : Option String) (value : PatchValue) (u : Updates)
    → (apply_op (record { op = op; path = path; value = value }) u).last_name
      ≡ get_or
          (sets_name "name.familyName" (record { op = op; path = path; value = value }))
          u.last_name
unfolding apply_op
last_step add path value u = last_added path value u
last_step replace path value u = last_added path value u
last_step remove path value u = ground arith

-- The updates that the operations of a patch leave are, column by column, what the last operation
-- that names the column gives it: an addition or a replacement its value, a removal null for a name,
-- and nothing where no operation names it.
pub apply_ops_lem :
    (ops : List PatchOp)
    → ((apply_ops ops no_updates).is_active ≡ get_or (last_set sets_active ops) none)
      × ((apply_ops ops no_updates).email ≡ get_or (last_set sets_email ops) none)
      × ((apply_ops ops no_updates).first_name
          ≡ get_or (last_set (sets_name "name.givenName") ops) none)
      × ((apply_ops ops no_updates).last_name
          ≡ get_or (last_set (sets_name "name.familyName") ops) none)
apply_ops_lem ops = (
  last_set_lem sets_active (λ u. u.is_active) (λ p u. active_step p.op p.path p.value u) ops
      no_updates,
  last_set_lem sets_email (λ u. u.email) (λ p u. email_step p.op p.path p.value u) ops no_updates,
  last_set_lem (sets_name "name.givenName") (λ u. u.first_name)
      (λ p u. first_step p.op p.path p.value u) ops no_updates,
  last_set_lem (sets_name "name.familyName") (λ u. u.last_name)
      (λ p u. last_step p.op p.path p.value u) ops no_updates,
)
