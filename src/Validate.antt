-- ===== src/Validate.antt =====
-- What the checks of src/validate.c share: the classes of bytes, the host name, the port and the
-- loop over escaped text. A link is the list of the bytes of a C string, and a pointer into it is
-- the list of what follows it. A check is true where the code returns 0 and false where it returns
-- -1. isalnum and its kin are those of the C locale, and libidn's idna_to_ascii_8z with
-- IDNA_USE_STD3_ASCII_RULES is the parameter `idna`, none where it fails.
pub mod Http
pub mod Grammar
pub mod Authority
pub mod HttpLanguage
pub mod HttpEnd
pub mod Harmless
pub mod Nntp
pub mod File
mod Examples
use cforum_upto.Base.{
  ℕ, zero, suc, ◌-◌, Bool, true, false, not, ◌&&◌, ◌||◌, Option, none, some, List, [], ◌∷◌, leb,
  ◌==◌, if◌then◌else◌, length, drop,
}
use cforum_upto.Str.Equal.{first, strncmp}

unfoldable pub isdigit : ℕ → Bool
isdigit c = leb b'0' c && leb c b'9'

unfoldable pub isxdigit : ℕ → Bool
unfolding isdigit
isxdigit c = isdigit c || ((leb b'a' c && leb c b'f') || (leb b'A' c && leb c b'F'))

unfoldable pub isalpha : ℕ → Bool
isalpha c = (leb b'a' c && leb c b'z') || (leb b'A' c && leb c b'Z')

unfoldable pub isalnum : ℕ → Bool
unfolding isalpha isdigit
isalnum c = isalpha c || isdigit c

unfoldable pub isascii : ℕ → Bool
isascii c = leb c 127

-- The case labels of a switch, or strchr.
unfoldable pub one_of : List ℕ → ℕ → Bool
one_of [] c = false
one_of (x ∷ xs) c = c == x || one_of xs c

abbrev pub extra_bytes : List ℕ
extra_bytes = b'!' ∷ b'*' ∷ b'\'' ∷ b'(' ∷ b')' ∷ b',' ∷ []

unfoldable pub isextra : ℕ → Bool
unfolding one_of
isextra = one_of extra_bytes

abbrev pub safe_bytes : List ℕ
safe_bytes = b'$' ∷ b'-' ∷ b'_' ∷ b'.' ∷ b'+' ∷ []

unfoldable pub issafe : ℕ → Bool
unfolding one_of
issafe = one_of safe_bytes

unfoldable pub isuchar_wo_escape : ℕ → Bool
unfolding isalnum isascii issafe isextra
isuchar_wo_escape c =
    not ((not (isalnum c) || not (isascii c)) && (not (issafe c) && not (isextra c)))

-- The loop of is_valid_hostname behind the byte `prev`. At the start `prev` is a dot, since a dot
-- there is refused like one behind a dot.
unfoldable pub hostname_loop : ℕ → List ℕ → Bool
unfolding isalnum isascii
hostname_loop prev [] = true
hostname_loop prev (c ∷ cs) =
    let on = hostname_loop c cs in
    if (not (isalnum c) && not (c == b'-')) || not (isascii c)
    then if c == b'.'
      then if prev == b'.' || (prev == b'-' || first cs == b'-') then false else on
      else false
    else on

abbrev pub checked : Option (List ℕ) → Bool
checked none = false
checked (some out) = hostname_loop b'.' out

unfoldable pub is_valid_hostname : (List ℕ → Option (List ℕ)) → List ℕ → Bool
unfolding hostname_loop
is_valid_hostname idna name = if first name == b'-' then false else checked (idna name)

-- `cf_strncmp(link,prefix,n) == 0` for the whole prefix of `n` bytes.
abbrev pub starts : List ℕ → List ℕ → Bool
starts prefix link = strncmp link prefix (length prefix) == 0

-- What follows the scheme, or none if the link has another one.
abbrev pub after_scheme : List ℕ → List ℕ → Option (List ℕ)
after_scheme scheme link = if starts scheme link then some (drop (length scheme) link) else none

-- The loop that moves `ptr` to the first byte of a class: what it passed, and where it stops.
unfoldable pub until : (ℕ → Bool) → List ℕ → List ℕ × List ℕ
until stops [] = ([], [])
until stops (c ∷ cs) =
    let rest = until stops cs in if stops c then ([], c ∷ cs) else (c ∷ rest.0, rest.1)

-- The host name is what stands before the first byte of the class.
unfoldable pub host : (List ℕ → Option (List ℕ)) → (ℕ → Bool) → List ℕ → Option (List ℕ)
unfolding until is_valid_hostname
host idna stops s =
    if is_valid_hostname idna (until stops s).0 then some (until stops s).1 else none

-- The loop over the digits of a port; `at_begin` tells whether `ptr` is `begin`.
unfoldable pub port_loop : Bool → List ℕ → Option (List ℕ)
unfolding isdigit
port_loop at_begin [] = some []
port_loop at_begin (c ∷ cs) =
    let on = port_loop false cs in
    if c == b'/' && not at_begin then some (c ∷ cs) else if isdigit c then on else none

-- A part of the link that is there if `ptr` stands on the byte `c`.
abbrev pub optional : ℕ → (List ℕ → Option (List ℕ)) → List ℕ → Option (List ℕ)
optional c part s = if first s == c then part s else some s

unfoldable pub port : List ℕ → Option (List ℕ)
unfolding port_loop
port = optional b':' (λ s. port_loop true (drop 1 s))

-- What a loop does with a byte that is not a percent sign: it goes on, stops before it, or the
-- check returns -1.
pub data Turn : Type 0 where
  go : Turn
  stop : Turn
  bad : Turn

abbrev pub turn : Turn → Option (List ℕ) → List ℕ → Option (List ℕ)
turn go on s = on
turn stop on s = some s
turn bad on s = none

-- The loop over text with escapes `%XX`; `digits` hexadecimal digits of an escape are still to
-- come. It ends at the NUL or before the byte it stops at.
unfoldable pub scan : (ℕ → Turn) → ℕ → List ℕ → Option (List ℕ)
unfolding isxdigit
scan f zero [] = some []
scan f (suc digits) [] = none
scan f zero (c ∷ cs) =
    let on = scan f (if c == b'%' then 2 else 0) cs in
    if c == b'%' then on else turn (f c) on (c ∷ cs)
scan f (suc digits) (c ∷ cs) = let on = scan f digits cs in if isxdigit c then on else none

-- `return 0` at the end.
abbrev pub valid : Option (List ℕ) → Bool
valid none = false
valid (some rest) = true

-- `if(*ptr++ != c) return -1;`
abbrev pub expect : ℕ → List ℕ → Option (List ℕ)
expect c s = if first s == c then some (drop 1 s) else none

-- `if(*ptr) return -1;`
abbrev pub at_end : List ℕ → Option (List ℕ)
at_end s = if first s == 0 then some s else none
