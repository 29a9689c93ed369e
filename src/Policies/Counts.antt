-- ===== src/Policies/Counts.antt =====
-- Lists of policies against numbers of snapshots: what a row that is added, written or dropped
-- changes.
use mdm.Base.{
  ℕ, ◌≡◌, refl, sym, ap, ◌∙◌, Bool, true, false, not, ◌&&◌, some, List, [], ◌∷◌, ◌+◌, ◌≤◌, arith,
  ◌==◌, ==_iff, find?, find?-none_of_count, count_p, count_p_mono, if◌then◌else◌, Bool-cases, inl,
  inr,
}
use mdm.Base.Table.{count_p_ext}
use mdm.Schema.{Uuid, Policy, PolicyVersion, Tables}
use mdm.Policies.Service.{UpdatePolicy, has_payload, own_policy, updated_policy, next_version}

-- A policy of an id whose version is not the number.
abbrev pub is_stale : Uuid → ℕ → Policy → Bool
is_stale id n p = p.id == id && not (p.version == n)

none_in_other_org :
    (org id : Uuid) (ps : List Policy) (p : Policy)
    → count_p (λ (p : Policy). p.id == id) ps ≤ 1
    → find? (λ (p : Policy). p.id == id && p.org_id == org) ps ≡ some p
    → count_p (λ (p : Policy). p.id == id && not (p.org_id == org)) ps ≡ 0
none_in_other_org org id [] p unique found = ground arith
none_in_other_org org id (q ∷ ps) p unique found =
    let later =
      count_p_mono (λ (p : Policy). p.id == id && not (p.org_id == org))
        (λ (p : Policy). p.id == id) ps (λ r k. ground arith) in
    let missing = λ (z : count_p (λ (p : Policy). p.id == id) ps ≡ 0).
      find?-none_of_count (λ (p : Policy). p.id == id && p.org_id == org) ps
        (count_p_mono (λ (p : Policy). p.id == id && p.org_id == org) (λ (p : Policy). p.id == id)
          ps (λ r k. ground arith) z) in
    ground (arith, none_in_other_org org id ps p, later, missing)

version_of_found :
    (org id : Uuid) (n : ℕ) (ps : List Policy) (p : Policy)
    → count_p (is_stale id n) ps ≡ 0
    → find? (λ (p : Policy). p.id == id && p.org_id == org) ps ≡ some p
    → p.version ≡ n
version_of_found org id n [] p fresh found = ground arith
version_of_found org id n (q ∷ ps) p fresh found =
    elim (Bool-cases (q.id == id && q.org_id == org)) [
      | inl here ↦ ground arith
      | inr there ↦ version_of_found org id n ps p (ground arith) (ground arith)
    ]

pub created_versioned :
    (id : Uuid) (p : Policy) (n : Uuid → ℕ) (ps : List Policy)
    → p.version ≡ 1
    → count_p (is_stale id (n id)) ps ≡ 0
    → count_p (λ (q : Policy). q.id == p.id) ps ≡ 0
    → n p.id ≡ 0
    → count_p (is_stale id ((if p.id == id then 1 else 0) + n id)) (p ∷ ps) ≡ 0
created_versioned id p n ps first h fresh unversioned = elim (Bool-cases (p.id == id)) [
  | inl same ↦
      let e : p.id ≡ id = (==_iff p.id id).0 same in
      let none_before : n id ≡ 0 = ap n (sym e) ∙ unversioned in
      let none_stale =
        count_p_mono (is_stale id 1) (λ (q : Policy). q.id == p.id) ps (λ q k. rw e (ground arith))
          fresh in
      let one : (if p.id == id then 1 else 0) + n id ≡ 1 = ground arith in
      ap (λ m. count_p (is_stale id m) (p ∷ ps)) one ∙ ground (arith, none_stale)
  | inr other ↦
      let as_before : (if p.id == id then 1 else 0) + n id ≡ n id = ground arith in
      ap (λ m. count_p (is_stale id m) (p ∷ ps)) as_before ∙ ground arith
]

module _ (T : Tables) (org policy : Uuid) (body : UpdatePolicy) (version now : ℕ) where
  abbrev pub written : Policy → Policy
  written r = if own_policy T org policy r then updated_policy T body version now r else r

  kept_versioned :
      (id n : Uuid) (ps : List Policy)
      → ((policy == id) && has_payload body.payload) ≡ false
      → count_p (is_stale id n) ps ≡ 0
      → count_p (λ r. is_stale id n (written r)) ps ≡ 0
  kept_versioned id n ps kept h =
      count_p_mono (λ r. is_stale id n (written r)) (is_stale id n) ps (λ r k. ground arith) h

  raised_versioned :
      (n : Uuid) (ps : List Policy)
      → has_payload body.payload ≡ true
      → version ≡ n
      → count_p (λ (p : Policy). p.id == policy && not (p.org_id == org)) ps ≡ 0
      → count_p (λ r. is_stale policy n (written r)) ps ≡ 0
  raised_versioned n ps raised e h =
      count_p_mono (λ r. is_stale policy n (written r))
        (λ (p : Policy). p.id == policy && not (p.org_id == org)) ps (λ r k. ground arith) h

pub written_versioned :
    (T : Tables) (org policy : Uuid) (body : UpdatePolicy) (now id : ℕ) (n : Uuid → ℕ)
    (ps : List Policy) (q : Policy)
    → ((i : Uuid) → count_p (is_stale i (n i)) ps ≡ 0)
    → count_p (λ (p : Policy). p.id == policy) ps ≤ 1
    → find? (λ (p : Policy). p.id == policy && p.org_id == org) ps ≡ some q
    → count_p
        (λ r.
          is_stale id
            ((if (policy == id) && has_payload body.payload then 1 else 0) + n id)
            (written T org policy body (next_version T body q) now r))
        ps
      ≡ 0
written_versioned T org policy body now id n ps q h unique found =
    elim (Bool-cases ((policy == id) && has_payload body.payload)) [
      | inl raised ↦
          let version = next_version T body q in
          let same : policy ≡ id = (==_iff policy id).0 (ground arith) in
          let payload : has_payload body.payload ≡ true = ground arith in
          let was : q.version ≡ n id =
            version_of_found org policy (n policy) ps q (h policy) found ∙ ap n same in
          let is_next : (if (policy == id) && has_payload body.payload then 1 else 0) + n id
              ≡ version =
            ground arith in
          ap (λ m. count_p (λ r. is_stale id m (written T org policy body version now r)) ps)
            is_next
          ∙ (ap
                (λ i.
                  count_p (λ r. is_stale i version (written T org policy body version now r)) ps)
                (sym same)
              ∙ raised_versioned T org policy body version now version ps payload refl
                  (none_in_other_org org policy ps q unique found))
      | inr kept ↦
          let as_before : (if (policy == id) && has_payload body.payload then 1 else 0) + n id
              ≡ n id =
            ground arith in
          ap
            (λ m.
              count_p (λ r. is_stale id m (written T org policy body (next_version T body q) now r))
                ps)
            as_before
          ∙ kept_versioned T org policy body (next_version T body q) now id (n id) ps kept (h id)
    ]

pub dropped_versioned :
    (org policy id : Uuid) (ps : List Policy) (vs : List PolicyVersion) (q : Policy)
    → count_p (is_stale id (count_p (λ (v : PolicyVersion). v.policy_id == id) vs)) ps ≡ 0
    → count_p (λ (p : Policy). p.id == policy) ps ≤ 1
    → find? (λ (p : Policy). p.id == policy && p.org_id == org) ps ≡ some q
    → count_p
        (λ (p : Policy).
          not (p.id == policy && p.org_id == org)
          && is_stale id
              (count_p (λ (v : PolicyVersion). not (v.policy_id == policy) && v.policy_id == id) vs)
              p)
        ps
      ≡ 0
dropped_versioned org policy id ps vs q h unique found = elim (Bool-cases (policy == id)) [
  | inl same ↦
      count_p_mono _ (λ (p : Policy). p.id == policy && not (p.org_id == org)) ps
        (λ p k. ground arith) (none_in_other_org org policy ps q unique found)
  | inr other ↦
      count_p_mono _ _ ps
        (λ p k.
          let n =
            count_p_ext (λ (v : PolicyVersion). not (v.policy_id == policy) && v.policy_id == id)
              (λ v. v.policy_id == id) vs (λ v. ground arith) in
          ground (arith, n))
        h
]
