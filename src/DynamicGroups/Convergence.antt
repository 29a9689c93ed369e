-- ===== src/DynamicGroups/Convergence.antt =====
-- The members of a dynamic group behind `evaluateMembership`.
use mdm.Base.{
  ℕ, ◌≡◌, refl, sym, ap, ◌∙◌, Bool, true, false, not, ◌&&◌, ◌||◌, List, [], ◌∷◌, map, arith, ◌==◌,
  ==_iff, any, filter, length, if◌then◌else◌, if_P,
}
use mdm.Base.Text.{Text}
use mdm.Base.Table.{Table, any-insert, any-delete}
use mdm.DynamicGroups.Membership.{
  contains, distinct, is_member, insert_member, insert_members, on_devices_added, to_add, to_remove,
  add_devices, remove_devices, apply_matching,
}
use mdm.Schema.{Uuid, Group, Member, Tables, AreLawful, Db}

contains-filter :
    (p : Uuid → Bool) (ids : List Uuid) (d : Uuid)
    → contains (filter p ids) d ≡ (contains ids d && p d)
unfolding contains
contains-filter p [] d = refl
contains-filter p (x ∷ ids) d = ground (arith, contains-filter p ids d)

contains-distinct : (ids : List Uuid) (d : Uuid) → contains (distinct ids) d ≡ contains ids d
unfolding contains distinct
contains-distinct [] d = refl
contains-distinct (x ∷ ids) d = ground (arith, contains-distinct ids d)

contains-members :
    (g : Uuid) (ms : List Member) (d : Uuid)
    → contains (map (λ m. m.device_id) (filter (λ m. m.group_id == g) ms)) d
      ≡ any (is_member g d) ms
unfolding contains
contains-members g [] d = refl
contains-members g (m ∷ ms) d = ground (arith, contains-members g ms d)

any-kept :
    (g : Uuid) (ids : List Uuid) (ms : List Member) (h d : Uuid)
    → any (λ m. not (m.group_id == g && contains ids m.device_id) && is_member h d m) ms
      ≡ (not (g == h && contains ids d) && any (is_member h d) ms)
any-kept g ids [] h d = ground arith
any-kept g ids (m ∷ ms) h d = ground (arith, any-kept g ids ms h d)

-- Whether the database holds a membership.
abbrev pub has : (T : Tables) → Db T → Uuid → Uuid → Bool
has T w g d = any (is_member g d) (Table.rows (Tables.members T) w.members)

abbrev pub has_in : (T : Tables) → Table.State (Tables.members T) → Uuid → Uuid → Bool
has_in T s g d = any (is_member g d) (Table.rows (Tables.members T) s)

module _ (T : Tables) (L : AreLawful T) where
  pub has-insert_member :
      (g d : Uuid) (s : Table.State (Tables.members T)) (h e : Uuid)
      → has_in T (insert_member T g d s) h e ≡ ((g == h && d == e) || has_in T s h e)
  unfolding insert_member
  has-insert_member g d s h e = ground (
    arith,
    any-insert (Tables.members T) L.members (is_member h e) (record { group_id = g; device_id = d })
        s,
  )

  has-insert_members :
      (g : Uuid) (ds : List Uuid) (s : Table.State (Tables.members T)) (h e : Uuid)
      → has_in T (insert_members T g ds s) h e ≡ ((g == h && contains ds e) || has_in T s h e)
  unfolding insert_members contains
  has-insert_members g [] s h e = ground arith
  has-insert_members g (d ∷ ds) s h e =
      ground
        (arith, has-insert_members g ds (insert_member T g d s) h e, has-insert_member g d s h e)

  pub on_devices_added_members :
      (g org : Uuid) (ids : List Uuid) (w : Db T)
      → (on_devices_added T g org ids w).members ≡ w.members
  unfolding on_devices_added
  on_devices_added_members g org ids w = if_P (λ (v : Db T). v.members ≡ w.members) _ w _ refl refl

  has-add_devices :
      (g org : Uuid) (ids : List Uuid) (w : Db T) (h e : Uuid)
      → has T (add_devices T g org ids w) h e ≡ ((g == h && contains ids e) || has T w h e)
  unfolding add_devices
  has-add_devices g org [] w h e = unfold contains in ground arith
  has-add_devices g org (d ∷ ds) w h e =
      ap (λ s. has_in T s h e) (on_devices_added_members g org (d ∷ ds) _)
      ∙ has-insert_members g (d ∷ ds) w.members h e

  has-remove_devices :
      (g org : Uuid) (ids : List Uuid) (w : Db T) (h e : Uuid)
      → has T (remove_devices T g org ids w) h e ≡ (not (g == h && contains ids e) && has T w h e)
  unfolding remove_devices
  has-remove_devices g org [] w h e = unfold contains in ground arith
  has-remove_devices g org (d ∷ ds) w h e =
      any-delete (Tables.members T) L.members (is_member h e) _ w.members
      ∙ any-kept g (d ∷ ds) _ h e

  contains-to_add :
      (g : Uuid) (matching : List Uuid) (w : Db T) (e : Uuid)
      → contains (to_add T g matching w) e ≡ (contains matching e && not (has T w g e))
  unfolding to_add
  contains-to_add g matching w e =
      contains-filter _ matching e ∙ ap (λ b. contains matching e && not b) (contains-members g _ e)

  contains-to_remove :
      (g : Uuid) (matching : List Uuid) (w : Db T) (e : Uuid)
      → contains (to_remove T g matching w) e ≡ (has T w g e && not (contains matching e))
  unfolding to_remove
  contains-to_remove g matching w e =
      contains-filter _ _ e
      ∙ ap (λ b. b && not (contains matching e)) (contains-distinct _ e ∙ contains-members g _ e)

  -- The members behind an evaluation: of the group, the matching devices; of others, as before.
  has-apply_matching :
      (g : Group) (matching : List Uuid) (now : ℕ) (w : Db T) (h e : Uuid)
      → has T (apply_matching T g matching now w).2 h e
        ≡ (if g.id == h then contains matching e else has T w h e)
  unfolding apply_matching
  has-apply_matching g matching now w h e = ground (
    arith,
    has-remove_devices g.id g.org_id (to_remove T g.id matching w)
        (add_devices T g.id g.org_id (to_add T g.id matching w) w) h e,
    has-add_devices g.id g.org_id (to_add T g.id matching w) w h e,
    contains-to_add g.id matching w e,
    contains-to_remove g.id matching w e,
  )

  filter_nil :
      (p : Uuid → Bool) (ids : List Uuid)
      → ((d : Uuid) → contains ids d ≡ true → p d ≡ false)
      → filter p ids ≡ []
  unfolding contains
  filter_nil p [] h = refl
  filter_nil p (x ∷ ids) h = ground (arith, h x, filter_nil p ids (λ d m. h d (ground arith)))

  to_add_settled :
      (g : Uuid) (matching : List Uuid) (w : Db T)
      → ((e : Uuid) → has T w g e ≡ contains matching e)
      → to_add T g matching w ≡ []
  unfolding to_add
  to_add_settled g matching w h =
      filter_nil _ matching λ d m. ap not (contains-members g _ d ∙ (h d ∙ m))

  to_remove_settled :
      (g : Uuid) (matching : List Uuid) (w : Db T)
      → ((e : Uuid) → has T w g e ≡ contains matching e)
      → to_remove T g matching w ≡ []
  unfolding to_remove
  to_remove_settled g matching w h =
      filter_nil _ _
        λ d m. ap not (sym (h d) ∙ (sym (contains-distinct _ d ∙ contains-members g _ d) ∙ m))

  has_of_group :
      (g : Group) (matching : List Uuid) (now : ℕ) (w : Db T) (h e : Uuid)
      → (g.id == h) ≡ true
      → has T (apply_matching T g matching now w).2 h e ≡ contains matching e
  has_of_group g matching now w h e same = ground (arith, has-apply_matching g matching now w h e)

  -- What an evaluation adds and removes, by their number, once the members are the matching devices.
  apply_matching_settled :
      (g : Group) (matching : List Uuid) (now : ℕ) (w : Db T)
      → ((e : Uuid) → has T w g.id e ≡ contains matching e)
      → ((apply_matching T g matching now w).0 ≡ 0) × ((apply_matching T g matching now w).1 ≡ 0)
  unfolding apply_matching
  apply_matching_settled g matching now w h = (
    ap length (to_add_settled g.id matching w h),
    ap length (to_remove_settled g.id matching w h),
  )

  -- An evaluation that finds the same devices as the one just before it adds none and removes none.
  pub apply_matching_twice :
      (g : Group) (matching : List Uuid) (now later : ℕ) (w : Db T)
      → ((apply_matching T g matching later (apply_matching T g matching now w).2).0 ≡ 0)
        × ((apply_matching T g matching later (apply_matching T g matching now w).2).1 ≡ 0)
  apply_matching_twice g matching now later w =
      apply_matching_settled g matching later (apply_matching T g matching now w).2
        (λ e. has_of_group g matching now w g.id e ((==_iff g.id g.id).1 refl))
