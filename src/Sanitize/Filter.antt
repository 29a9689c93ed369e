-- ===== src/Sanitize/Filter.antt =====
-- The functions of the middleware. `HTML_TAG_RE` matches `<`, a slash or none, a letter, and all up
-- to the next `>`; `decode` is `decodeURIComponent`, none where it throws.
use mdm.Base.{
  ℕ, String, Bool, true, false, not, ◌&&◌, ◌||◌, Option, none, some, List, [], ◌∷◌, ◌*◌, ◌==◌, leb,
  ltb, any, str_eq, if◌then◌else◌,
}
use mdm.Base.Text.{Text, codes, starts_with}
use mdm.DynamicGroups.Membership.{is_nil}
use mdm.Http.{Refusal}

abbrev pub less : ℕ
less = 60

abbrev pub greater : ℕ
greater = 62

abbrev pub slash : ℕ
slash = 47

-- `[a-z]` without regard to case
abbrev pub is_letter : ℕ → Bool
is_letter c = (leb 97 c && leb c 122) || (leb 65 c && leb c 90)

abbrev pub has_greater : Text → Bool
has_greater t = any (λ c. c == greater) t

-- A letter, and a `>` behind it.
abbrev pub is_named : Text → Bool
is_named [] = false
is_named (c ∷ cs) = is_letter c && has_greater cs

abbrev pub behind_slash : Text → Text
behind_slash [] = []
behind_slash (c ∷ cs) = if c == slash then cs else c ∷ cs

-- Does the expression match here?
unfoldable pub starts_tag : Text → Bool
starts_tag [] = false
starts_tag (c ∷ cs) = c == less && is_named (behind_slash cs)

-- `value.replace(HTML_TAG_RE, '')`; the flag tells whether a match has begun.
unfoldable pub strip : Bool → Text → Text
unfolding starts_tag
strip inside [] = []
strip true (c ∷ cs) = if c == greater then strip false cs else strip true cs
strip false (c ∷ cs) =
    let kept = strip false cs in if starts_tag (c ∷ cs) then strip true cs else c ∷ kept

unfoldable pub strip_html_tags : Text → Text
unfolding strip
strip_html_tags t = strip false t

abbrev pub path_traversal_patterns : List Text
path_traversal_patterns =
    codes "../"
    ∷ codes "..\\"
    ∷ codes "%2e%2e%2f"
    ∷ codes "%2e%2e/"
    ∷ codes "..%2f"
    ∷ codes "%2e%2e%5c"
    ∷ codes "%2e%2e\\"
    ∷ codes "..%5c"
    ∷ codes "%252e%252e%252f"
    ∷ []

-- `text.includes(part)`
abbrev pub includes : Text → Text → Bool
includes [] part = starts_with [] part
includes (c ∷ cs) part = starts_with (c ∷ cs) part || includes cs part

abbrev pub default_max_body_size : ℕ
default_max_body_size = 10 * 1024 * 1024

abbrev pub upload_max_body_size : ℕ
upload_max_body_size = 100 * 1024 * 1024

abbrev pub sanitized_upload_paths : List Text
sanitized_upload_paths = codes "/api/v1/apps/upload" ∷ codes "/api/v1/certificates/upload" ∷ []

unfoldable pub get_max_body_size : Text → ℕ
get_max_body_size url =
    if any (starts_with url) sanitized_upload_paths
    then upload_max_body_size
    else default_max_body_size

-- What the hook reads of a request; a length that is no number is none.
pub record RequestHead : Type 0 where
  pub url : Text
  pub method : String
  pub has_body : Bool
  pub content_type : Option Text
  pub content_length : Option ℕ

abbrev pub is_missing : Option Text → Bool
is_missing none = true
is_missing (some t) = is_nil t

abbrev pub exceeds : Option ℕ → ℕ → Bool
exceeds none max = false
exceeds (some n) max = ltb max n

module _ (decode : Text → Option Text) (lower : Text → Text) where
  unfoldable pub contains_path_traversal : Text → Option Bool
  contains_path_traversal url = elim (decode url) [
    | none ↦ none
    | some decoded ↦
        some
          (any (λ p. includes (lower decoded) p || includes (lower url) p) path_traversal_patterns)
  ]

  -- The rest of the hook, for an address without traversal.
  abbrev pub check_body : RequestHead → Option Refusal
  check_body r =
      if r.has_body
        && (not (str_eq r.method "GET")
            && (not (str_eq r.method "DELETE") && is_missing r.content_type))
      then some
          (record { status = 415; message = "Content-Type header is required for request bodies" })
      else if exceeds r.content_length (get_max_body_size r.url)
      then some (record {
        status = 413;
        message =
            if any (starts_with r.url) sanitized_upload_paths
            then "Request body exceeds maximum size of 100MB"
            else "Request body exceeds maximum size of 10MB";
      })
      else none

  -- The hook `onRequest`: a refusal, or none where the request goes on.
  unfoldable pub check_request : RequestHead → Option Refusal
  unfolding contains_path_traversal get_max_body_size
  check_request r = elim (contains_path_traversal r.url) [
    | none ↦ some (record { status = 500; message = "An unexpected error occurred" })
    | some traverses ↦
        if traverses
        then some (record { status = 400; message = "Path traversal detected" })
        else check_body r
  ]
