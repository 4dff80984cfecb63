-- ===== src/Validate/Examples.antt =====
-- Runs of the checks of src/validate.c, with a function that takes the names of letters, digits,
-- hyphens and dots in the place of libidn.
use cforum_upto.Base.{
  ℕ, ◌≡◌, refl, sym, ap, ◌∙◌, ◌↔◌, inl, inr, Bool, true, false, ◌&&◌, ◌||◌, Bool-cases, Option,
  none, some, List, [], ◌∷◌, ◌++◌, ◌==◌, leb, if◌then◌else◌, arith,
}
use cforum_upto.Str.Equal.{strncmp}
use cforum_upto.Validate.{one_of, scan, valid}
use cforum_upto.Validate.Grammar.{none-some}
use cforum_upto.Validate.Authority.{Outside}
use cforum_upto.Validate.Http.{is_valid_http_link, http_scheme}
use cforum_upto.Validate.HttpLanguage.{HttpLink, is_valid_http_link_iff}
use cforum_upto.Validate.Harmless.{Each, IsHarmless, IsStd3, is_valid_http_link-IsHarmless}
use cforum_upto.Validate.Nntp.{is_valid_nntp_link, nntp_scheme, NntpLink, is_valid_nntp_link_iff}
use cforum_upto.Validate.File.{
  is_valid_file_link, file_scheme, NoSlash, the_byte, in_fpath, is_valid_file_link-any_host,
}

unfoldable std3_byte : ℕ → Bool
std3_byte c =
    (leb b'a' c && leb c b'z')
    || ((leb b'A' c && leb c b'Z') || ((leb b'0' c && leb c b'9') || (c == b'-' || c == b'.')))

unfoldable std3_name : List ℕ → Bool
unfolding std3_byte
std3_name [] = true
std3_name (c ∷ cs) = std3_byte c && std3_name cs

unfoldable std3 : List ℕ → Option (List ℕ)
unfolding std3_name
std3 name = if std3_name name then some name else none

std3_byte-IsHarmless : (c : ℕ) → std3_byte c ≡ true → IsHarmless c
unfolding std3_byte
std3_byte-IsHarmless c e = ground arith

std3_byte-slash : (c : ℕ) → std3_byte c ≡ true → the_byte b'/' c ≡ false
unfolding std3_byte the_byte one_of
std3_byte-slash c e = ground arith

std3_name-Each : (name : List ℕ) → std3_name name ≡ true → Each IsHarmless name
unfolding std3_name
std3_name-Each [] e = tt
std3_name-Each (c ∷ cs) e =
    let parts : (std3_byte c ≡ true) × (std3_name cs ≡ true) = ground arith in
    (std3_byte-IsHarmless c parts.0, std3_name-Each cs parts.1)

std3_name-Outside : (name : List ℕ) → std3_name name ≡ true → Outside (the_byte b'/') name
unfolding std3_name
std3_name-Outside [] e = tt
std3_name-Outside (c ∷ cs) e =
    let parts : (std3_byte c ≡ true) × (std3_name cs ≡ true) = ground arith in
    (std3_byte-slash c parts.0, std3_name-Outside cs parts.1)

std3_taken : (name out : List ℕ) → std3 name ≡ some out → std3_name name ≡ true
unfolding std3
std3_taken name out e = elim (Bool-cases (std3_name name)) [
  | inl is ↦ is
  | inr isnt ↦ absurd (none-some (sym (ap (λ b. if b then some name else none) isnt) ∙ e))
]

std3-IsStd3 : IsStd3 std3
std3-IsStd3 name out e = std3_name-Each name (std3_taken name out e)

std3-NoSlash : NoSlash std3
std3-NoSlash name out e = std3_name-Outside name (std3_taken name out e)

-- A link with a port, a path with an escape, a search path and an anchor.
abbrev http_link : List ℕ
http_link =
    http_scheme
    ++ b'a' ∷ b'.' ∷ b'b' ∷ b':' ∷ b'8' ∷ b'0' ∷ b'/' ∷ b'c' ∷ b'%' ∷ b'4' ∷ b'a' ∷ b'?' ∷ b'd'
      ∷ b'#' ∷ b'e' ∷ []

http_link_valid : is_valid_http_link std3 http_link false ≡ true
unfolding is_valid_http_link std3 strncmp
http_link_valid = refl

http_link_strict : is_valid_http_link std3 http_link true ≡ false
unfolding is_valid_http_link std3 strncmp
http_link_strict = refl

-- A port is not followed by a search path.
http_port_search :
    is_valid_http_link std3 (http_scheme ++ b'h' ∷ b':' ∷ b'8' ∷ b'?' ∷ b'a' ∷ []) false ≡ false
unfolding is_valid_http_link std3 strncmp
http_port_search = refl

is_valid_http_link_iff_example :
    (is_valid_http_link std3 http_link false ≡ true) ↔ HttpLink std3 false http_link
is_valid_http_link_iff_example = is_valid_http_link_iff std3 http_link false (omega arith)

is_valid_http_link-IsHarmless_example : Each IsHarmless http_link
is_valid_http_link-IsHarmless_example =
    is_valid_http_link-IsHarmless std3 http_link false std3-IsStd3 (omega arith) http_link_valid

abbrev nntp_link : List ℕ
nntp_link = nntp_scheme ++ b'h' ∷ b'/' ∷ b'a' ∷ b'.' ∷ b'b' ∷ []

nntp_link_valid : is_valid_nntp_link std3 nntp_link ≡ true
unfolding is_valid_nntp_link std3 strncmp
nntp_link_valid = refl

nntp_article : is_valid_nntp_link std3 (nntp_link ++ b'/' ∷ b'1' ∷ []) ≡ false
unfolding is_valid_nntp_link std3 strncmp
nntp_article = refl

is_valid_nntp_link_iff_example :
    (is_valid_nntp_link std3 nntp_link ≡ true) ↔ NntpLink std3 nntp_link
is_valid_nntp_link_iff_example = is_valid_nntp_link_iff std3 nntp_link (omega arith)

-- The host of a file link that is no name of a host.
abbrev markup : List ℕ
markup = b'"' ∷ b'>' ∷ b'<' ∷ []

abbrev fpath : List ℕ
fpath = b'x' ∷ []

markup-slash : Outside (the_byte b'/') markup
unfolding the_byte one_of
markup-slash = (refl, (refl, (refl, tt)))

markup-colon : Outside (the_byte b':') (markup ++ b'/' ∷ fpath)
unfolding the_byte one_of
markup-colon = (refl, (refl, (refl, (refl, (refl, tt)))))

is_valid_file_link-any_host_example :
    is_valid_file_link std3 (file_scheme ++ markup ++ b'/' ∷ fpath) ≡ valid (scan in_fpath 0 fpath)
unfolding strncmp
is_valid_file_link-any_host_example =
    is_valid_file_link-any_host std3 markup fpath std3-NoSlash (omega arith) markup-slash
      markup-colon refl

file_markup : is_valid_file_link std3 (file_scheme ++ markup ++ b'/' ∷ fpath) ≡ true
unfolding is_valid_file_link std3 strncmp
file_markup = refl

-- A link without a slash behind the host.
file_name :
    is_valid_file_link std3
      (file_scheme ++ b'l' ∷ b'o' ∷ b'c' ∷ b'a' ∷ b'l' ∷ b'h' ∷ b'o' ∷ b's' ∷ b't' ∷ b'x' ∷ [])
    ≡ false
unfolding is_valid_file_link std3 strncmp
file_name = refl
