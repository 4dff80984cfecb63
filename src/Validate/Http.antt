-- ===== src/Validate/Http.antt =====
-- is_valid_http_link of src/validate.c.
use cforum_upto.Base.{ℕ, Bool, Option, none, some, List, [], ◌∷◌, ◌==◌, if◌then◌else◌, drop}
use cforum_upto.Str.{◌>>=◌}
use cforum_upto.Validate.{
  isuchar_wo_escape, one_of, after_scheme, host, optional, port, scan, Turn, go, stop, bad, valid,
}

abbrev pub http_scheme : List ℕ
http_scheme = b'h' ∷ b't' ∷ b't' ∷ b'p' ∷ b':' ∷ b'/' ∷ b'/' ∷ []

abbrev pub https_scheme : List ℕ
https_scheme = b'h' ∷ b't' ∷ b't' ∷ b'p' ∷ b's' ∷ b':' ∷ b'/' ∷ b'/' ∷ []

unfoldable pub behind_host : ℕ → Bool
unfolding one_of
behind_host = one_of (b':' ∷ b'/' ∷ b'#' ∷ b'?' ∷ [])

-- The case labels of the loops over the path, the search path and the anchor.
abbrev pub path_bytes : List ℕ
path_bytes = b'/' ∷ b';' ∷ b':' ∷ b'@' ∷ b'&' ∷ b'=' ∷ b'~' ∷ []

abbrev pub search_bytes : List ℕ
search_bytes = b';' ∷ b':' ∷ b'@' ∷ b'&' ∷ b'=' ∷ b'/' ∷ []

abbrev pub anchor_bytes : List ℕ
anchor_bytes = b';' ∷ b'/' ∷ b'?' ∷ b':' ∷ b'@' ∷ b'&' ∷ b'=' ∷ []

unfoldable pub in_path : ℕ → Turn
unfolding isuchar_wo_escape one_of
in_path c =
    if c == b'#'
    then stop
    else if isuchar_wo_escape c
    then go
    else if one_of path_bytes c
    then go
    else if c == b'?'
    then stop
    else bad

unfoldable pub in_search : ℕ → Turn
unfolding isuchar_wo_escape one_of
in_search c =
    if c == b'#'
    then stop
    else if isuchar_wo_escape c
    then go
    else if one_of search_bytes c
    then go
    else bad

unfoldable pub in_anchor : ℕ → Turn
unfolding isuchar_wo_escape one_of
in_anchor c = if isuchar_wo_escape c then go else if one_of anchor_bytes c then go else bad

abbrev pub either_scheme : Option (List ℕ) → Option (List ℕ) → Option (List ℕ)
either_scheme none second = second
either_scheme (some rest) second = some rest

unfoldable pub path : List ℕ → Option (List ℕ)
unfolding scan in_path
path = optional b'/' (scan in_path 0)

unfoldable pub search : List ℕ → Option (List ℕ)
unfolding scan in_search
search = optional b'?' (λ s. scan in_search 0 (drop 1 s))

unfoldable pub anchor : Bool → List ℕ → Option (List ℕ)
unfolding scan in_anchor
anchor strict = optional b'#' (λ s. if strict then none else scan in_anchor 0 (drop 1 s))

-- What follows the scheme.
unfoldable pub http_rest : (List ℕ → Option (List ℕ)) → Bool → List ℕ → Option (List ℕ)
unfolding host behind_host port path search anchor
http_rest idna strict s = host idna behind_host s >>= λ s1.
    port s1 >>= λ s2. path s2 >>= λ s3. search s3 >>= anchor strict

unfoldable pub is_valid_http_link : (List ℕ → Option (List ℕ)) → List ℕ → Bool → Bool
unfolding http_rest
is_valid_http_link idna link strict = valid (
    either_scheme (after_scheme http_scheme link) (after_scheme https_scheme link)
    >>= http_rest idna strict)
