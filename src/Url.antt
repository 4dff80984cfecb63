-- ===== src/Url.antt =====
-- cf_cgi_url_decode and cf_cgi_url_encode of src/cfcgi.c, as functions on the bytes of C strings.
pub mod RoundTrip
mod Examples
use cforum_upto.Base.{
  ℕ, ◌+◌, ◌-◌, ◌*◌, ◌/◌, ◌%◌, Bool, true, false, ◌&&◌, ◌||◌, Option, none, some, List, [], ◌∷◌, leb,
  ltb, ◌==◌, if◌then◌else◌,
}
use cforum_upto.Validate.{isdigit, isxdigit}

-- The value of a hexadecimal digit.
unfoldable pub xdigit_value : ℕ → ℕ
unfolding isdigit
xdigit_value c = if isdigit c then c - 48 else if leb b'a' c then c - 87 else c - 55

unfoldable pub isspace : ℕ → Bool
isspace c = c == b' ' || (leb 9 c && leb c 13)

abbrev pub value_or_zero : ℕ → ℕ
value_or_zero c = if isxdigit c then xdigit_value c else 0

-- `strtol(ptr3,NULL,16)` for two bytes and a NUL, stored in an unsigned char: blanks and a sign may
-- stand before the digits, and what is no number is 0.
unfoldable pub strtol_16 : ℕ → ℕ → ℕ
unfolding isxdigit xdigit_value isspace
strtol_16 a b =
    if isxdigit a
    then if isxdigit b then 16 * xdigit_value a + xdigit_value b else xdigit_value a
    else if isspace a || a == b'+'
    then value_or_zero b
    else if a == b'-'
    then (256 - value_or_zero b) % 256
    else 0

-- Where the loop of cf_cgi_url_decode is: at a byte of its own, or inside of an escape, behind the
-- percent sign or behind its first digit.
pub data Place : Type 0 where
  outside : Place
  behind_percent : Place
  behind_digit : ℕ → Place

abbrev pub write : ℕ → Option (List ℕ) → Option (List ℕ)
write c none = none
write c (some cs) = some (c ∷ cs)

-- The loop; none where `ptr2` is moved behind the NUL of the string, which is so for an escape that
-- the string ends in.
unfoldable pub decode_loop : Place → List ℕ → Option (List ℕ)
unfolding strtol_16
decode_loop outside [] = some []
decode_loop behind_percent [] = none
decode_loop (behind_digit a) [] = none
decode_loop outside (c ∷ cs) =
    let rest = decode_loop (if c == b'%' then behind_percent else outside) cs in
    if c == b'+' then write b' ' rest else if c == b'%' then rest else write c rest
decode_loop behind_percent (c ∷ cs) = decode_loop (behind_digit c) cs
decode_loop (behind_digit a) (c ∷ cs) = write (strtol_16 a c) (decode_loop outside cs)

unfoldable pub url_decode : List ℕ → Option (List ℕ)
unfolding decode_loop
url_decode = decode_loop outside

-- The bytes that stay as they are.
unfoldable pub stays : ℕ → Bool
stays c = (leb 48 c && leb c 122) || (c == b'_' || (c == b'.' || c == b'-'))

-- A digit of `%02X`.
abbrev pub upper_xdigit : ℕ → ℕ
upper_xdigit d = if ltb d 10 then 48 + d else 55 + d

unfoldable pub url_encode : List ℕ → List ℕ
unfolding stays
url_encode [] = []
url_encode (c ∷ cs) =
    let rest = url_encode cs in
    if stays c
    then c ∷ rest
    else if c == b' '
    then b'+' ∷ rest
    else b'%' ∷ upper_xdigit (c / 16) ∷ upper_xdigit (c % 16) ∷ rest
