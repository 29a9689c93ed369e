-- ===== src/Rbac/Matching.antt =====
-- `matchesPermission` on permissions of the form `resource:action`.
use mdm.Base.{
  ◌≡◌, refl, ap, ◌∙◌, Bool, true, not, ◌&&◌, ◌||◌, some, [], ◌∷◌, ◌++◌, arith, ◌==◌, all,
}
use mdm.Base.Text.{Text, codes, text_eq}
use mdm.Rbac.Permissions.{
  colon, first_part, behind_colon, first_of, second_part, matches_permission,
}

abbrev pub is_plain : Text → Bool
is_plain t = all (λ c. not (c == colon)) t

abbrev pub permission : Text → Text → Text
permission resource action = resource ++ (colon ∷ action)

first_part-permission : (r a : Text) → is_plain r ≡ true → first_part (permission r a) ≡ r
unfolding first_part
first_part-permission [] a h = refl
first_part-permission (c ∷ r) a h = ground (arith, first_part-permission r a)

behind_colon-permission : (r a : Text) → is_plain r ≡ true → behind_colon (permission r a) ≡ some a
unfolding behind_colon
behind_colon-permission [] a h = refl
behind_colon-permission (c ∷ r) a h = ground (arith, behind_colon-permission r a)

first_part_plain : (a : Text) → is_plain a ≡ true → first_part a ≡ a
unfolding first_part
first_part_plain [] h = refl
first_part_plain (c ∷ a) h = ground (arith, first_part_plain a)

second_part-permission :
    (r a : Text) → is_plain r ≡ true → is_plain a ≡ true → second_part (permission r a) ≡ some a
second_part-permission r a h k =
    ap first_of (behind_colon-permission r a h) ∙ ap some (first_part_plain a k)

text_eq-permission :
    (r a s b : Text)
    → is_plain r ≡ true
    → is_plain s ≡ true
    → text_eq (permission r a) (permission s b) ≡ (text_eq r s && text_eq a b)
text_eq-permission [] a [] b h k = ground arith
text_eq-permission [] a (c ∷ s) b h k = ground arith
text_eq-permission (c ∷ r) a [] b h k = ground arith
text_eq-permission (c ∷ r) a (d ∷ s) b h k = ground (arith, text_eq-permission r a s b)

-- A permission `resource:action` grants a required one, neither with a further colon, exactly if
-- its resource is `*` or the required one and its action is `*` or the required one.
pub matches_permission_lem :
    (r a s b : Text)
    → is_plain r ≡ true
    → is_plain a ≡ true
    → is_plain s ≡ true
    → is_plain b ≡ true
    → matches_permission (permission r a) (permission s b)
      ≡ ((text_eq r (codes "*") || text_eq r s) && (text_eq a (codes "*") || text_eq a b))
unfolding matches_permission
matches_permission_lem r a s b hr ha hs hb =
    rw
      (
        first_part-permission r a hr,
        first_part-permission s b hs,
        second_part-permission r a hr ha,
        second_part-permission s b hs hb,
        text_eq-permission r a s b hr hs,
        text_eq-permission r a (codes "*") (codes "*") hr refl,
      )
      (ground arith)
