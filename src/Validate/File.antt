-- ===== src/Validate/File.antt =====
-- is_valid_file_link of src/validate.c.
use cforum_upto.Base.{
  ℕ, suc, ◌+◌, ◌≡◌, refl, sym, ap, ◌∙◌, inl, inr, Bool, true, false, not, Bool-cases, Option-cases,
  Option, none, some, List, [], ◌∷◌, ◌++◌, ◌==◌, if◌then◌else◌, take, drop, length, append-nil,
  arith,
}
use cforum_upto.Str.{◌>>=◌}
use cforum_upto.Str.Equal.{first, IsCstring}
use cforum_upto.Validate.{
  isdigit, isuchar_wo_escape, one_of, starts, after_scheme, is_valid_hostname, until, scan, Turn,
  go, stop, bad, valid,
}
use cforum_upto.Validate.Authority.{after_scheme_lem, Outside, until-append}

abbrev pub file_scheme : List ℕ
file_scheme = b'f' ∷ b'i' ∷ b'l' ∷ b'e' ∷ b':' ∷ b'/' ∷ b'/' ∷ []

abbrev pub localhost : List ℕ
localhost = b'l' ∷ b'o' ∷ b'c' ∷ b'a' ∷ b'l' ∷ b'h' ∷ b'o' ∷ b's' ∷ b't' ∷ []

unfoldable pub the_byte : ℕ → ℕ → Bool
unfolding one_of
the_byte b = one_of (b ∷ [])

abbrev pub fpath_bytes : List ℕ
fpath_bytes = b'?' ∷ b':' ∷ b'@' ∷ b'&' ∷ b'=' ∷ b'/' ∷ []

unfoldable pub in_fpath : ℕ → Turn
unfolding isuchar_wo_escape one_of
in_fpath c =
    if isuchar_wo_escape c
    then go
    else if c == b';'
    then stop
    else if one_of fpath_bytes c
    then go
    else bad

unfoldable pub all_digits : List ℕ → Bool
unfolding isdigit
all_digits [] = true
all_digits (c ∷ cs) = let on = all_digits cs in if isdigit c then on else false

-- The host name, copied by `strndup(link+7,end-link+7)` from `s`, which is `link+7`, where `before`
-- is what stands before `end`; a name that is_valid_hostname takes makes the check return -1.
abbrev pub refused_host : (List ℕ → Option (List ℕ)) → List ℕ → List ℕ → Bool
refused_host idna s before = is_valid_hostname idna (take (7 + length before + 7) s)

-- The branch without `localhost`: what follows `before`, up to the colon if there is one. The
-- digits of the port are looked for up to the end of the link.
abbrev pub port_or_host : (List ℕ → Option (List ℕ)) → List ℕ → List ℕ → Bool
port_or_host idna s [] = not (refused_host idna s (until (the_byte b'/') s).0)
port_or_host idna s (colon ∷ behind) =
    if refused_host idna s (until (the_byte b':') s).0 then false else all_digits behind

-- The pointer `slash`, or none.
abbrev pub slash_of : List ℕ → Option (List ℕ)
slash_of [] = none
slash_of (c ∷ cs) = some (c ∷ cs)

abbrev pub other_host : (List ℕ → Option (List ℕ)) → List ℕ → Option (List ℕ)
other_host idna s = slash_of (until (the_byte b'/') s).1 >>= λ slash.
    if port_or_host idna s (until (the_byte b':') s).1 then some slash else none

unfoldable pub file_host : (List ℕ → Option (List ℕ)) → List ℕ → Option (List ℕ)
unfolding until the_byte is_valid_hostname all_digits
file_host idna s =
    if starts localhost s
    then if first (drop 9 s) == b'/' then some (drop 9 s) else none
    else other_host idna s

unfoldable pub is_valid_file_link : (List ℕ → Option (List ℕ)) → List ℕ → Bool
unfolding file_host scan in_fpath
is_valid_file_link idna link = valid (
    after_scheme file_scheme link >>= λ s.
    file_host idna s >>= λ slash. scan in_fpath 0 (drop 1 slash))

-- libidn takes no name with a slash, as the STD3 rules have it.
abbrev pub NoSlash : (List ℕ → Option (List ℕ)) → Type 0
NoSlash idna = (name out : List ℕ) → idna name ≡ some out → Outside (the_byte b'/') name

take-append :
    (name path : List ℕ) (c k : ℕ)
    → take (length name + suc k) (name ++ c ∷ path) ≡ name ++ c ∷ take k path
take-append [] path c k =
    let count : 0 + suc k ≡ suc k = omega arith in ap (λ n. take n (c ∷ path)) count
take-append (x ∷ xs) path c k =
    let count : suc (length xs) + suc k ≡ suc (length xs + suc k) = omega arith in
    ap (λ n. take n (x ∷ (xs ++ c ∷ path))) count ∙ ap (λ l. x ∷ l) (take-append xs path c k)

Outside-slash : (name path : List ℕ) → Outside (the_byte b'/') (name ++ b'/' ∷ path) → ⊥
unfolding the_byte one_of
Outside-slash [] path h = ground (arith, h.0)
Outside-slash (x ∷ xs) path h = Outside-slash xs path h.1

is_valid_hostname-slash :
    (idna : List ℕ → Option (List ℕ)) (name path : List ℕ)
    → NoSlash idna
    → is_valid_hostname idna (name ++ b'/' ∷ path) ≡ false
unfolding is_valid_hostname
is_valid_hostname-slash idna name path no_slash = elim (Option-cases (idna (name ++ b'/' ∷ path))) [
  | inl n ↦ rw n (elim (Bool-cases (first (name ++ b'/' ∷ path) == b'-')) [
    | inl is ↦ rw is refl
    | inr isnt ↦ rw isnt refl
  ])
  | inr (out, is) ↦ absurd (Outside-slash name path (no_slash _ out is))
]

refused_host-false :
    (idna : List ℕ → Option (List ℕ)) (name path : List ℕ)
    → NoSlash idna
    → refused_host idna (name ++ b'/' ∷ path) name ≡ false
refused_host-false idna name path no_slash =
    let count : 7 + length name + 7 ≡ length name + suc 13 = omega arith in
    ap (λ k. is_valid_hostname idna (take k (name ++ b'/' ∷ path))) count
    ∙ ap (is_valid_hostname idna) (take-append name path b'/' 13)
    ∙ is_valid_hostname-slash idna name (take 13 path) no_slash

file_host-any :
    (idna : List ℕ → Option (List ℕ)) (name path : List ℕ)
    → NoSlash idna
    → Outside (the_byte b'/') name
    → Outside (the_byte b':') (name ++ b'/' ∷ path)
    → starts localhost (name ++ b'/' ∷ path) ≡ false
    → file_host idna (name ++ b'/' ∷ path) ≡ some (b'/' ∷ path)
unfolding file_host
file_host-any idna name path no_slash outside no_colon remote =
    let s = name ++ b'/' ∷ path in
    let at_slash = until-append (the_byte b'/') name (b'/' ∷ path) outside refl in
    let at_end : until (the_byte b':') s ≡ (s, []) =
      ap (until (the_byte b':')) (sym (append-nil s))
      ∙ until-append (the_byte b':') s [] no_colon tt in
    rw (remote, at_slash, at_end, at_slash, refused_host-false idna name path no_slash) refl

-- If libidn takes no name with a slash, is_valid_file_link looks only at the path of a link with
-- another host than `localhost` and without a colon behind the scheme: it accepts the link
-- whatever the bytes before the path are, since the copied name reaches behind the slash and a
-- name that is_valid_hostname refuses passes.
pub is_valid_file_link-any_host :
    (idna : List ℕ → Option (List ℕ)) (name path : List ℕ)
    → NoSlash idna
    → IsCstring (file_scheme ++ name ++ b'/' ∷ path)
    → Outside (the_byte b'/') name
    → Outside (the_byte b':') (name ++ b'/' ∷ path)
    → starts localhost (name ++ b'/' ∷ path) ≡ false
    → is_valid_file_link idna (file_scheme ++ name ++ b'/' ∷ path) ≡ valid (scan in_fpath 0 path)
unfolding is_valid_file_link
is_valid_file_link-any_host idna name path no_slash k outside no_colon remote =
    let s = name ++ b'/' ∷ path in
    let begin =
      (after_scheme_lem file_scheme (file_scheme ++ s) s (ground arith) k (omega arith)).1 refl in
    rw (begin, file_host-any idna name path no_slash outside no_colon remote) refl
