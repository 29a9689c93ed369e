-- ===== src/Examples/SanitizeCases.antt =====
-- Sanitizing: a tag in a text, and a tag that only the removal of another one makes.
use mdm.Base.{◌≡◌, ◌≤◌, ◌↔◌, refl, false, none, some}
use mdm.Base.Text.{Text, codes}
use mdm.Sanitize.Filter.{
  strip, strip_html_tags, starts_tag, check_request, contains_path_traversal, get_max_body_size,
}
use mdm.Sanitize.Walk.{
  JsonValue, null, string, array, object, nil, cons, end, field, strip_value, value_tagged,
  value_length, strip_value_lem,
}

abbrev tagged : Text
tagged = codes "a <b>bold</b> < c"

-- A text within an array of an object.
abbrev body : JsonValue
body = object (field (codes "names") (array (cons (string tagged) (cons null nil))) end)

strip_value_lem_example :
    ((strip_value body ≡ body) ↔ (value_tagged body ≡ false))
    × (value_length (strip_value body) ≤ value_length body)
strip_value_lem_example = strip_value_lem body

bold_text : strip_html_tags tagged ≡ codes "a bold < c"
unfolding strip_html_tags strip starts_tag
bold_text = refl

-- The result is a tag.
nested_tag : strip_html_tags (codes "<<a>script>") ≡ codes "<script>"
unfolding strip_html_tags strip starts_tag
nested_tag = refl

abbrev same : Text → Text
same t = t

traversal_refused :
    check_request some same (record {
      url = codes "/api/v1/../admin";
      method = "GET";
      has_body = false;
      content_type = none;
      content_length = none;
    })
    ≡ some (record { status = 400; message = "Path traversal detected" })
unfolding check_request contains_path_traversal get_max_body_size
traversal_refused = refl
