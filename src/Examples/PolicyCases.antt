-- ===== src/Examples/PolicyCases.antt =====
-- Policies, permissions and webhooks: concrete runs.
use mdm.Base.{
  ℕ, zero, suc, ◌≡◌, refl, Bool, true, false, ◌&&◌, ◌||◌, none, some, List, [], ◌∷◌, ◌++◌, ◌==◌,
  count_p, inl, arith, if◌then◌else◌,
}
use mdm.Base.Text.{codes, text_eq, join}
use mdm.Base.Table.{list_table, list_table-IsLawful}
use mdm.Schema.{Uuid, composite, Policy, Db}
use mdm.Policies.Service.{CreatePolicy, UpdatePolicy, create_policy, update_policy, delete_policy}
use mdm.Policies.Snapshots.{IsVersioned, snapshots, create_policy-IsVersioned, policies-IsVersioned}
use mdm.Rbac.Cache.{Cache, IsCache}
use mdm.Rbac.Permissions.{
  matches_permission, has_all, forbidden, role_permissions, require_permission,
}
use mdm.Rbac.Matching.{permission, matches_permission_lem}
use mdm.Rbac.Coherence.{IsCoherent, require_permission_lem}
use mdm.Webhooks.Delivery.{
  Delivery, Outcome, answered, unanswered, max_retries, failed, deliver_webhook,
}
use mdm.Webhooks.Settlement.{is_open, first_accepted, deliver_webhook_lem}
use mdm.Examples.Fleet.{tables, tables-AreLawful, caller, fleet}

abbrev wifi : CreatePolicy
wifi = record {
  name = codes "WiFi";
  description = none;
  platform = "android";
  payload = composite (codes "{}");
}

abbrev new_payload : UpdatePolicy
new_payload = record {
  name = none;
  description = none;
  payload = some (composite (codes "{\"ssid\":1}"));
  is_active = none;
}

abbrev with_policy : Db tables
with_policy = (create_policy tables 1 wifi 30 70 5 fleet).1

with_policy-IsVersioned : (id : Uuid) → IsVersioned tables id with_policy
with_policy-IsVersioned id =
    create_policy-IsVersioned tables tables-AreLawful 1 wifi 30 70 5 fleet id refl refl refl

one_policy : count_p (λ (p : Policy). p.id == 70) with_policy.policies ≡ 1
unfolding create_policy
one_policy = refl

none_new : count_p (λ (p : Policy). p.id == 71) with_policy.policies ≡ 0
unfolding create_policy
none_new = refl

no_snapshot : snapshots tables 71 with_policy ≡ 0
unfolding create_policy
no_snapshot = refl

policies-IsVersioned_example :
    IsVersioned tables 70 (create_policy tables 1 wifi 30 71 6 with_policy).1
    × IsVersioned tables 70
        (update_policy tables 1 70 new_payload (codes "[\"payload\"]") 30 6 with_policy).1
    × IsVersioned tables 70 (delete_policy tables 1 70 30 with_policy).1
policies-IsVersioned_example =
    policies-IsVersioned tables tables-AreLawful 1 70 wifi new_payload (codes "[\"payload\"]") 30 71
      6 with_policy 70 with_policy-IsVersioned none_new no_snapshot (omega (arith, one_policy))

matches_permission_lem_example :
    matches_permission
      (permission (codes "devices") (codes "*"))
      (permission (codes "devices") (codes "read"))
    ≡ ((text_eq (codes "devices") (codes "*") || text_eq (codes "devices") (codes "devices"))
        && (text_eq (codes "*") (codes "*") || text_eq (codes "*") (codes "read")))
matches_permission_lem_example =
    matches_permission_lem (codes "devices") (codes "*") (codes "devices") (codes "read") refl refl
      refl refl

-- A cache that keeps nothing.
abbrev no_cache : Cache
no_cache = record {
  State = Bool;
  get = λ user s. none;
  set = λ ttl user ps s. s;
  del = λ user s. s;
}

no_cache-IsCache : IsCache no_cache
no_cache-IsCache = record {
  get-set = λ ttl user other ps s. inl refl;
  get-del = λ user other s. inl refl;
}

abbrev role_of : Uuid → Uuid
role_of user = 40

require_permission_lem_example :
    ((require_permission tables no_cache (codes "groups:read" ∷ []) (some caller) fleet true).0 ≡ (
      if has_all (codes "groups:read" ∷ []) (role_permissions tables no_cache caller.role_id fleet)
      then none
      else some (
          forbidden (
            codes "Missing required permissions: "
            ++ join (codes ", ") (codes "groups:read" ∷ [])))))
    × IsCoherent tables no_cache no_cache-IsCache role_of fleet
        (require_permission tables no_cache (codes "groups:read" ∷ []) (some caller) fleet true).1
require_permission_lem_example =
    require_permission_lem tables no_cache no_cache-IsCache role_of fleet (codes "groups:read" ∷ [])
      caller true refl (λ user. inl refl)

-- An endpoint that is down for two requests and then answers with 200.
abbrev recovers : ℕ → Outcome
recovers zero = unanswered (codes "timeout") 15000
recovers (suc zero) = answered 503 (codes "busy") 20
recovers (suc (suc n)) = answered 200 (codes "ok") 20

abbrev clock : ℕ → ℕ
clock attempt = attempt

third_is_accepted : first_accepted max_retries 0 recovers ≡ some 3
unfolding first_accepted
third_is_accepted = refl

abbrev stuck_delivery : Delivery
stuck_delivery = record {
  id = 91;
  webhook_id = 80;
  event = "device.enrolled";
  status = failed;
  attempt_count = 2;
  status_code = some 500;
  response_body = none;
  duration_ms = some 10;
  payload = codes "{}";
  completed_at = none;
}

abbrev delivered : List Delivery × List ℕ
delivered =
    deliver_webhook (list_table Delivery) 90 80 "device.enrolled" (codes "{}") recovers clock
      (stuck_delivery ∷ [])

deliver_webhook_lem_example :
    (count_p (is_open 90 (first_accepted max_retries 0 recovers)) delivered.0 ≡ 0)
    × (count_p (λ r. r.id == 90 || false) delivered.0 ≡ 1)
deliver_webhook_lem_example =
    deliver_webhook_lem (list_table Delivery) (list_table-IsLawful Delivery) 90 80 "device.enrolled"
      (codes "{}") recovers clock (stuck_delivery ∷ []) (λ r. false)
