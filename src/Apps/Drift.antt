-- ===== src/Apps/Drift.antt =====
-- What `detectDrift` reports, against what a device that complies has installed.
use mdm.Base.{
  ◌≡◌, refl, ap, fun_ext, sym, ◌∙◌, String, Bool, true, not, ◌&&◌, ◌||◌, List, [], ◌∷◌, map, arith,
  ◌==◌, str_eq, str_eq_iff, Bool-cases, inl, inr, any, all, filter,
}
use mdm.Base.Table.{Table}
use mdm.Schema.{Uuid}
use mdm.DynamicGroups.Membership.{is_nil}
use mdm.Apps.Model.{App, InstalledAppInfo, AppTables, AppDb}
use mdm.Apps.Service.{reaches, assigned_apps, is_installed, has_name, distinct_names, detect_drift}

nil-map {ℓ κ} :
    {A : Type ℓ} {B : Type κ} → (f : A → B) (xs : List A) → is_nil (map f xs) ≡ is_nil xs
nil-map f [] = refl
nil-map f (x ∷ xs) = refl

nil-filter {ℓ} :
    {A : Type ℓ} → (p : A → Bool) (xs : List A) → is_nil (filter p xs) ≡ all (λ x. not (p x)) xs
nil-filter p [] = refl
nil-filter p (x ∷ xs) = ground (arith, nil-filter p xs)

all-filter {ℓ} :
    {A : Type ℓ}
    → (p q : A → Bool) (xs : List A) → all p (filter q xs) ≡ all (λ x. not (q x) || p x) xs
all-filter p q [] = refl
all-filter p q (x ∷ xs) = ground (arith, all-filter p q xs)

all-map {ℓ κ} :
    {A : Type ℓ} {B : Type κ}
    → (p : B → Bool) (f : A → B) (xs : List A) → all p (map f xs) ≡ all (λ x. p (f x)) xs
all-map p f [] = refl
all-map p f (x ∷ xs) = ground (arith, all-map p f xs)

all-and {ℓ} :
    {A : Type ℓ}
    → (p q : A → Bool) (xs : List A) → (all p xs && all q xs) ≡ all (λ x. p x && q x) xs
all-and p q [] = refl
all-and p q (x ∷ xs) = ground (arith, all-and p q xs)

all_of_has_name :
    (p : String → Bool) (names : List String) (s : String)
    → all p names ≡ true
    → has_name names s ≡ true
    → p s ≡ true
all_of_has_name p [] s h k = ground arith
all_of_has_name p (t ∷ names) s h k = elim (Bool-cases (str_eq t s)) [
  | inl same ↦ ap p (sym ((str_eq_iff t s).0 same)) ∙ ground arith
  | inr other ↦ all_of_has_name p names s (ground arith) (ground arith)
]

all-distinct_names :
    (p : String → Bool) (names : List String) → all p (distinct_names names) ≡ all p names
unfolding distinct_names
all-distinct_names p [] = refl
all-distinct_names p (s ∷ names) =
    ground (arith, all-distinct_names p names, all_of_has_name p (distinct_names names) s)

nil-missing :
    (p q : App → Bool) (f : App → Uuid) (apps : List App)
    → is_nil (map f (filter p (filter q apps))) ≡ all (λ a. not (q a) || not (p a)) apps
nil-missing p q f apps = nil-map f _ ∙ (nil-filter p _ ∙ all-filter (λ a. not (p a)) q apps)

nil-surplus :
    (p : String → Bool) (q : App → Bool) (apps : List App)
    → is_nil (filter p (distinct_names (map (λ (a : App). a.package_name) (filter q apps))))
      ≡ all (λ (a : App). not (q a) || not (p a.package_name)) apps
nil-surplus p q apps =
    nil-filter p _
    ∙ (all-distinct_names (λ s. not (p s)) _
        ∙ (all-map (λ s. not (p s)) (λ (a : App). a.package_name) (filter q apps)
            ∙ all-filter (λ (a : App). not (p a.package_name)) q apps))

all_ext {ℓ} :
    {A : Type ℓ} → (p q : A → Bool) (xs : List A) → ((x : A) → p x ≡ q x) → all p xs ≡ all q xs
all_ext p q xs h = ap (λ f. all f xs) (fun_ext h)

module _ (T : AppTables) where
  -- Has an app an assignment of a kind that reaches a device?
  abbrev pub is_assigned : String → Uuid → AppDb T → App → Bool
  is_assigned kind device w a =
      any (λ aa. aa.app_id == a.id && (str_eq aa.install_type kind && reaches T device w aa))
        (Table.rows (AppTables.assignments T) w.assignments)

  -- A device complies with an app: installed where required, not installed where prohibited.
  unfoldable pub complies : Uuid → List InstalledAppInfo → AppDb T → App → Bool
  complies device installed w a =
      (not (is_assigned "required" device w a) || is_installed T installed a.package_name)
      && (not (is_assigned "prohibited" device w a)
          || not (is_installed T installed a.package_name))

  -- `detectDrift` reports nothing to install and nothing to remove exactly where the device complies
  -- with every app: it has the app if an assignment that reaches it requires the app, and does not
  -- have it if one prohibits it.
  pub detect_drift-complies :
      (device : Uuid) (installed : List InstalledAppInfo) (w : AppDb T)
      → (is_nil (detect_drift T device installed w).0
          && is_nil (detect_drift T device installed w).1)
        ≡ all (complies device installed w) (Table.rows (AppTables.apps T) w.apps)
  unfolding detect_drift assigned_apps complies
  detect_drift-complies device installed w =
      let apps = Table.rows (AppTables.apps T) w.apps in
      let required = is_assigned "required" device w in
      let prohibited = is_assigned "prohibited" device w in
      rw
        (
          nil-missing (λ a. not (is_installed T installed a.package_name)) required (λ a. a.id)
              apps,
          nil-surplus (is_installed T installed) prohibited apps,
          all-and (λ a. not (required a) || not (not (is_installed T installed a.package_name)))
              (λ a. not (prohibited a) || not (is_installed T installed a.package_name)) apps,
        )
        (all_ext _ _ apps (λ a. ground arith))
