-- ===== src/Sanitize/Walk.antt =====
-- `stripHtmlTags` on the values of a body: texts, and what arrays and objects hold; the keys of an
-- object are kept.
use mdm.Base.{ℕ, ◌≤◌, ◌+◌, ◌≡◌, ◌↔◌, refl, ap, Bool, false, ◌||◌, arith, length}
use mdm.Base.Text.{Text}
use mdm.Sanitize.Filter.{strip_html_tags}
use mdm.Sanitize.Tags.{has_tag, strip_html_tags_lem}

-- A parsed JSON value; a number is an index into the numbers that the body holds.
mutual
  pub data JsonValue : Type 0 where
    null : JsonValue
    boolean : Bool → JsonValue
    number : ℕ → JsonValue
    string : Text → JsonValue
    array : Items → JsonValue
    object : Fields → JsonValue

  pub data Items : Type 0 where
    nil : Items
    cons : JsonValue → Items → Items

  pub data Fields : Type 0 where
    end : Fields
    field : Text → JsonValue → Fields → Fields

unfoldable mutual
  unfolding strip_html_tags

  pub strip_value : JsonValue → JsonValue
  strip_value null = null
  strip_value (boolean b) = boolean b
  strip_value (number n) = number n
  strip_value (string t) = string (strip_html_tags t)
  strip_value (array xs) = array (strip_items xs)
  strip_value (object fs) = object (strip_fields fs)

  pub strip_items : Items → Items
  strip_items nil = nil
  strip_items (cons v xs) = cons (strip_value v) (strip_items xs)

  pub strip_fields : Fields → Fields
  strip_fields end = end
  strip_fields (field k v fs) = field k (strip_value v) (strip_fields fs)

-- The hook behind the parsing of a body, which leaves a body that is a text alone.
unfoldable pub sanitize_body : JsonValue → JsonValue
unfolding strip_value
sanitize_body (array xs) = strip_value (array xs)
sanitize_body (object fs) = strip_value (object fs)
sanitize_body v = v

-- Does a tag start in a text of the value, and how long are its texts together?
unfoldable mutual
  pub value_tagged : JsonValue → Bool
  value_tagged null = false
  value_tagged (boolean b) = false
  value_tagged (number n) = false
  value_tagged (string t) = has_tag t
  value_tagged (array xs) = items_tagged xs
  value_tagged (object fs) = fields_tagged fs

  pub items_tagged : Items → Bool
  items_tagged nil = false
  items_tagged (cons v xs) = value_tagged v || items_tagged xs

  pub fields_tagged : Fields → Bool
  fields_tagged end = false
  fields_tagged (field k v fs) = value_tagged v || fields_tagged fs

unfoldable mutual
  pub value_length : JsonValue → ℕ
  value_length null = 0
  value_length (boolean b) = 0
  value_length (number n) = 0
  value_length (string t) = length t
  value_length (array xs) = items_length xs
  value_length (object fs) = fields_length fs

  pub items_length : Items → ℕ
  items_length nil = 0
  items_length (cons v xs) = value_length v + items_length xs

  pub fields_length : Fields → ℕ
  fields_length end = 0
  fields_length (field k v fs) = value_length v + fields_length fs

mutual
  unfolding strip_value value_tagged

  strip_value-same : (v : JsonValue) → value_tagged v ≡ false → strip_value v ≡ v
  strip_value-same null h = refl
  strip_value-same (boolean b) h = refl
  strip_value-same (number n) h = refl
  strip_value-same (string t) h = ap string ((strip_html_tags_lem t).0.1 h)
  strip_value-same (array xs) h = ap array (strip_items-same xs h)
  strip_value-same (object fs) h = ap object (strip_fields-same fs h)

  strip_items-same : (xs : Items) → items_tagged xs ≡ false → strip_items xs ≡ xs
  strip_items-same nil h = refl
  strip_items-same (cons v xs) h =
      rw (strip_value-same v (ground arith), strip_items-same xs (ground arith)) refl

  strip_fields-same : (fs : Fields) → fields_tagged fs ≡ false → strip_fields fs ≡ fs
  strip_fields-same end h = refl
  strip_fields-same (field k v fs) h =
      rw (strip_value-same v (ground arith), strip_fields-same fs (ground arith)) refl

mutual
  unfolding strip_value value_tagged

  same-strip_value : (v : JsonValue) → strip_value v ≡ v → value_tagged v ≡ false
  same-strip_value null e = refl
  same-strip_value (boolean b) e = refl
  same-strip_value (number n) e = refl
  same-strip_value (string t) e = (strip_html_tags_lem t).0.0 cc
  same-strip_value (array xs) e = same-strip_items xs cc
  same-strip_value (object fs) e = same-strip_fields fs cc

  same-strip_items : (xs : Items) → strip_items xs ≡ xs → items_tagged xs ≡ false
  same-strip_items nil e = refl
  same-strip_items (cons v xs) e = rw (same-strip_value v cc, same-strip_items xs cc) refl

  same-strip_fields : (fs : Fields) → strip_fields fs ≡ fs → fields_tagged fs ≡ false
  same-strip_fields end e = refl
  same-strip_fields (field k v fs) e = rw (same-strip_value v cc, same-strip_fields fs cc) refl

mutual
  unfolding strip_value value_length

  strip_value-shorter : (v : JsonValue) → value_length (strip_value v) ≤ value_length v
  strip_value-shorter null = omega arith
  strip_value-shorter (boolean b) = omega arith
  strip_value-shorter (number n) = omega arith
  strip_value-shorter (string t) = (strip_html_tags_lem t).1
  strip_value-shorter (array xs) = strip_items-shorter xs
  strip_value-shorter (object fs) = strip_fields-shorter fs

  strip_items-shorter : (xs : Items) → items_length (strip_items xs) ≤ items_length xs
  strip_items-shorter nil = omega arith
  strip_items-shorter (cons v xs) = omega (arith, strip_value-shorter v, strip_items-shorter xs)

  strip_fields-shorter : (fs : Fields) → fields_length (strip_fields fs) ≤ fields_length fs
  strip_fields-shorter end = omega arith
  strip_fields-shorter (field k v fs) =
      omega (arith, strip_value-shorter v, strip_fields-shorter fs)

-- The filter leaves a body as it is exactly if no tag starts in a text that stands anywhere in its
-- arrays and objects, and never makes its texts together longer.
pub strip_value_lem :
    (v : JsonValue)
    → ((strip_value v ≡ v) ↔ (value_tagged v ≡ false))
      × (value_length (strip_value v) ≤ value_length v)
strip_value_lem v = ((λ e. same-strip_value v e, λ h. strip_value-same v h), strip_value-shorter v)
