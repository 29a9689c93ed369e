-- ===== src/Policies/Snapshots.antt =====
-- The versions of policies against their snapshots in policy_versions.
use mdm.Base.{
  ℕ, ◌≡◌, refl, ap, ◌∙◌, ◌&&◌, Option, none, some, ◌+◌, ◌≤◌, arith, ◌==◌, count_p, if◌then◌else◌,
  if_P, Bool-cases, Option-cases, inl, inr,
}
use mdm.Base.Text.{Text}
use mdm.Base.Table.{Table}
use mdm.Schema.{Uuid, Policy, PolicyVersion, Json, Tables, AreLawful, Db}
use mdm.Policies.Service.{
  CreatePolicy, UpdatePolicy, has_payload, truthy, find_policy, new_policy, create_policy,
  next_version, snapshot_payload, write_policy, update_policy, drop_policy, delete_policy,
}
use mdm.Policies.Counts.{is_stale, created_versioned, written_versioned, dropped_versioned}

module _ (T : Tables) where
  -- How many snapshots of a policy there are.
  abbrev pub snapshots : Uuid → Db T → ℕ
  snapshots id w =
      count_p (λ (v : PolicyVersion). v.policy_id == id) (Table.rows (Tables.versions T) w.versions)

  -- The version of a policy is the number of its snapshots.
  abbrev pub IsVersioned : Uuid → Db T → Type 0
  IsVersioned id w =
      count_p (is_stale id (snapshots id w)) (Table.rows (Tables.policies T) w.policies) ≡ 0

  module _ (L : AreLawful T) where
    pub create_policy-IsVersioned :
        (org : Uuid) (body : CreatePolicy) (user new_id : Uuid) (now : ℕ) (w : Db T) (id : Uuid)
        → IsVersioned id w
        → count_p (λ (p : Policy). p.id == new_id) (Table.rows (Tables.policies T) w.policies) ≡ 0
        → snapshots new_id w ≡ 0
        → IsVersioned id (create_policy T org body user new_id now w).1
    unfolding create_policy
    create_policy-IsVersioned org body user new_id now w id h fresh unversioned =
        ap
          (λ m. count_p (is_stale id m) (
            Table.rows (Tables.policies T)
              (Table.insert (Tables.policies T) (new_policy T org body new_id now) w.policies)))
          (L.versions.count-insert (λ (v : PolicyVersion). v.policy_id == id)
            (record {
              policy_id = new_id;
              version = 1;
              payload = body.payload;
              created_by = some user;
            })
            w.versions)
        ∙ (L.policies.count-insert (is_stale id _) (new_policy T org body new_id now) w.policies
            ∙ created_versioned id (new_policy T org body new_id now) (λ i. snapshots i w) _ refl h
                fresh unversioned)

    snapshots-snapshot_payload :
        (policy version : Uuid) (payload : Option Json) (user : Uuid) (w : Db T) (id : Uuid)
        → snapshots id (snapshot_payload T policy version payload user w)
          ≡ (if (policy == id) && has_payload payload then 1 else 0) + snapshots id w
    snapshots-snapshot_payload policy version none user w id = ground arith
    snapshots-snapshot_payload policy version (some payload) user w id =
        let added =
          L.versions.count-insert (λ (v : PolicyVersion). v.policy_id == id)
            (record {
              policy_id = policy;
              version = version;
              payload = payload;
              created_by = some user;
            })
            w.versions in
        elim (Bool-cases (truthy payload)) [
          | inl set ↦ rw set (ground (arith, added))
          | inr unset ↦ rw unset (ground arith)
        ]

    policies-snapshot_payload :
        (policy version : Uuid) (payload : Option Json) (user : Uuid) (w : Db T)
        → (snapshot_payload T policy version payload user w).policies ≡ w.policies
    policies-snapshot_payload policy version none user w = refl
    policies-snapshot_payload policy version (some payload) user w =
        if_P (λ (v : Db T). v.policies ≡ w.policies) (truthy payload) _ w refl refl

    update_policy-IsVersioned :
        (org policy : Uuid) (body : UpdatePolicy) (keys : Text) (user : Uuid) (now : ℕ) (w : Db T)
        (id : Uuid)
        → ((i : Uuid) → IsVersioned i w)
        → count_p (λ (p : Policy). p.id == policy) (Table.rows (Tables.policies T) w.policies) ≤ 1
        → IsVersioned id (update_policy T org policy body keys user now w).1
    unfolding update_policy
    update_policy-IsVersioned org policy body keys user now w id h unique =
        elim (Option-cases (find_policy T org policy w)) [
          | inl p ↦ rw (p, update_policy) (h id)
          | inr (q, p) ↦
              rw (p, update_policy)
                (let version = next_version T body q in
                  let w1 = write_policy T org policy body version now w in
                  rw (policies-snapshot_payload policy version body.payload user w1) (
                    ap (λ m. count_p (is_stale id m) (Table.rows (Tables.policies T) w1.policies))
                      (snapshots-snapshot_payload policy version body.payload user w1 id)
                    ∙ (L.policies.count-update (is_stale id _) _ _ w.policies
                        ∙ written_versioned T org policy body now id (λ i. snapshots i w) _ q h
                            unique p)))
        ]

    delete_policy-IsVersioned :
        (org policy : Uuid) (user : Uuid) (w : Db T) (id : Uuid)
        → IsVersioned id w
        → count_p (λ (p : Policy). p.id == policy) (Table.rows (Tables.policies T) w.policies) ≤ 1
        → IsVersioned id (delete_policy T org policy user w).1
    unfolding delete_policy
    delete_policy-IsVersioned org policy user w id h unique =
        elim (Option-cases (find_policy T org policy w)) [
          | inl p ↦ rw (p, delete_policy) h
          | inr (q, p) ↦
              rw (p, delete_policy)
                (ap
                    (λ m.
                      count_p (is_stale id m)
                        (Table.rows (Tables.policies T) (drop_policy T org policy w).policies))
                    (L.versions.count-delete (λ v. v.policy_id == id) (λ v. v.policy_id == policy)
                      w.versions)
                  ∙ (L.policies.count-delete (is_stale id _) _ w.policies
                      ∙ dropped_versioned org policy id _
                          (Table.rows (Tables.versions T) w.versions) q h unique p))
        ]

    -- Behind `create`, `update` and `delete`, every policy's version is the number of its
    -- snapshots, if it was before, no policy and no snapshot has the id drawn for a new policy, and
    -- at most one policy has the id of the request.
    pub policies-IsVersioned :
        (org policy : Uuid) (created : CreatePolicy) (body : UpdatePolicy) (keys : Text)
        (user new_id : Uuid) (now : ℕ) (w : Db T) (id : Uuid)
        → ((i : Uuid) → IsVersioned i w)
        → count_p (λ (p : Policy). p.id == new_id) (Table.rows (Tables.policies T) w.policies) ≡ 0
        → snapshots new_id w ≡ 0
        → count_p (λ (p : Policy). p.id == policy) (Table.rows (Tables.policies T) w.policies) ≤ 1
        → IsVersioned id (create_policy T org created user new_id now w).1
          × IsVersioned id (update_policy T org policy body keys user now w).1
          × IsVersioned id (delete_policy T org policy user w).1
    policies-IsVersioned org policy created body keys user new_id now w id h fresh unversioned
          unique =
        (
          create_policy-IsVersioned org created user new_id now w id (h id) fresh unversioned,
          update_policy-IsVersioned org policy body keys user now w id h unique,
          delete_policy-IsVersioned org policy user w id (h id) unique,
        )
