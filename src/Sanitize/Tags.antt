-- ===== src/Sanitize/Tags.antt =====
-- Which texts the filter changes.
use mdm.Base.{
  ◌≤◌, ◌<◌, ◌≡◌, refl, ap, ◌∙◌, ◌↔◌, Bool, true, false, ◌||◌, [], ◌∷◌, arith, length, if_true,
  if_false, Bool-cases, inl, inr,
}
use mdm.Base.Text.{Text}
use mdm.Sanitize.Filter.{starts_tag, strip, strip_html_tags}

-- Does a tag start anywhere in the text?
abbrev pub has_tag : Text → Bool
has_tag [] = false
has_tag (c ∷ cs) = starts_tag (c ∷ cs) || has_tag cs

length-strip : (inside : Bool) (t : Text) → length (strip inside t) ≤ length t
unfolding strip
length-strip inside [] = omega arith
length-strip true (c ∷ cs) = ground (arith, length-strip true cs, length-strip false cs)
length-strip false (c ∷ cs) = ground (arith, length-strip true cs, length-strip false cs)

strip-shorter : (t : Text) → has_tag t ≡ true → length (strip false t) < length t
unfolding strip
strip-shorter [] h = ground arith
strip-shorter (c ∷ cs) h = elim (Bool-cases (starts_tag (c ∷ cs))) [
  | inl here ↦ omega (
    arith,
    length-strip true cs,
    ap length (if_true (starts_tag (c ∷ cs)) (strip true cs) (c ∷ strip false cs) here),
  )
  | inr there ↦ omega (
    arith,
    strip-shorter cs (ground (arith, there)),
    ap length (if_false (starts_tag (c ∷ cs)) (strip true cs) (c ∷ strip false cs) there),
  )
]

strip-same : (t : Text) → has_tag t ≡ false → strip false t ≡ t
unfolding strip
strip-same [] h = refl
strip-same (c ∷ cs) h = elim (Bool-cases (starts_tag (c ∷ cs))) [
  | inl here ↦ cc
  | inr there ↦
      if_false (starts_tag (c ∷ cs)) (strip true cs) (c ∷ strip false cs) there
      ∙ ap (λ (t : Text). c ∷ t) (strip-same cs (ground (arith, there)))
]

-- The filter leaves a text as it is exactly if no tag starts in it, and never makes it longer.
pub strip_html_tags_lem :
    (t : Text)
    → ((strip_html_tags t ≡ t) ↔ (has_tag t ≡ false)) × (length (strip_html_tags t) ≤ length t)
unfolding strip_html_tags
strip_html_tags_lem t = (
  (
    λ e. elim (Bool-cases (has_tag t)) [
      | inl tagged ↦ absurd (omega (arith, ap length e, strip-shorter t tagged))
      | inr plain ↦ plain
    ],
    λ h. strip-same t h,
  ),
  length-strip false t,
)
