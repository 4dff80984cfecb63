-- ===== src/Validate/Harmless.antt =====
-- The bytes of the http links that src/validate.c accepts.
use cforum_upto.Base.{
  ℕ, ◌<◌, ◌≡◌, ◌≢◌, sym, ap, ◌∙◌, ◌⊎◌, inl, inr, Bool, true, false, not, ◌&&◌, ◌||◌, Bool-cases,
  Option-cases, Option, some, List, [], ◌∷◌, ◌++◌, ◌==◌, ==_iff, if◌then◌else◌, arith,
}
use cforum_upto.Str.Equal.{first, IsCstring}
use cforum_upto.Validate.{
  isdigit, isxdigit, isalpha, isalnum, isascii, one_of, isextra, issafe, isuchar_wo_escape,
  safe_bytes, extra_bytes, is_valid_hostname, checked, Turn, go,
}
use cforum_upto.Validate.Http.{
  behind_host, path_bytes, search_bytes, anchor_bytes, in_path, in_search, in_anchor,
  is_valid_http_link, http_scheme, https_scheme,
}
use cforum_upto.Validate.Grammar.{
  Part, ◌then◌, Optional, Behind, Text, Escaped, nothing, plain, escape,
}
use cforum_upto.Validate.Authority.{Host, Digits, Outside}
use cforum_upto.Validate.HttpEnd.{HttpParts-end}
use cforum_upto.Validate.HttpLanguage.{HttpParts, Anchor, is_valid_http_link_iff}

-- No blank, no control byte, no double quote and no angle bracket.
abbrev pub IsHarmless : ℕ → Type 0
IsHarmless c = (32 < c) × (c ≢ 127) × (c ≢ b'"') × (c ≢ b'<') × (c ≢ b'>')

abbrev pub Each : (ℕ → Type 0) → List ℕ → Type 0
Each P [] = Unit
Each P (c ∷ cs) = P c × Each P cs

Each-append :
    (xs ys : List ℕ) → Each IsHarmless xs → Each IsHarmless ys → Each IsHarmless (xs ++ ys)
Each-append [] ys h k = k
Each-append (x ∷ xs) ys h k = (h.0, Each-append xs ys h.1 k)

one_of_lem : (xs : List ℕ) (c : ℕ) → Each IsHarmless xs → one_of xs c ≡ true → IsHarmless c
unfolding one_of
one_of_lem [] c h e = absurd (ground arith)
one_of_lem (x ∷ xs) c h e = elim (Bool-cases (c == x)) [
  | inl is ↦ rw ((==_iff c x).0 is) h.0
  | inr isnt ↦ one_of_lem xs c h.1 (ground (arith, isnt, e))
]

isalnum-IsHarmless : (c : ℕ) → isalnum c ≡ true → IsHarmless c
unfolding isalnum isalpha isdigit
isalnum-IsHarmless c e = ground arith

isxdigit-IsHarmless : (c : ℕ) → isxdigit c ≡ true → IsHarmless c
unfolding isxdigit isdigit
isxdigit-IsHarmless c e = ground arith

isuchar_wo_escape-cases :
    (a b s e : Bool)
    → not ((not a || not b) && (not s && not e)) ≡ true
    → (a ≡ true) ⊎ ((s ≡ true) ⊎ (e ≡ true))
isuchar_wo_escape-cases a b s e h = ground arith

isuchar_wo_escape-IsHarmless : (c : ℕ) → isuchar_wo_escape c ≡ true → IsHarmless c
unfolding isuchar_wo_escape issafe isextra
isuchar_wo_escape-IsHarmless c e =
    elim (isuchar_wo_escape-cases (isalnum c) (isascii c) (issafe c) (isextra c) e) [
      | inl letter ↦ isalnum-IsHarmless c letter
      | inr (inl safe) ↦ one_of_lem safe_bytes c (omega arith) safe
      | inr (inr extra) ↦ one_of_lem extra_bytes c (omega arith) extra
    ]

either-IsHarmless :
    (bytes : List ℕ) (c : ℕ)
    → Each IsHarmless bytes
    → (isuchar_wo_escape c ≡ true) ⊎ (one_of bytes c ≡ true)
    → IsHarmless c
either-IsHarmless bytes c h (inl u) = isuchar_wo_escape-IsHarmless c u
either-IsHarmless bytes c h (inr o) = one_of_lem bytes c h o

in_path-IsHarmless : (c : ℕ) → in_path c ≡ go → IsHarmless c
unfolding in_path
in_path-IsHarmless c e = either-IsHarmless path_bytes c (omega arith) (ground arith)

in_search-IsHarmless : (c : ℕ) → in_search c ≡ go → IsHarmless c
unfolding in_search
in_search-IsHarmless c e = either-IsHarmless search_bytes c (omega arith) (ground arith)

in_anchor-IsHarmless : (c : ℕ) → in_anchor c ≡ go → IsHarmless c
unfolding in_anchor
in_anchor-IsHarmless c e = either-IsHarmless anchor_bytes c (omega arith) (ground arith)

Escaped-IsHarmless :
    (f : ℕ → Turn) (part : List ℕ)
    → ((c : ℕ) → f c ≡ go → IsHarmless c)
    → Escaped f part
    → Each IsHarmless part
Escaped-IsHarmless f [] h nothing = tt
Escaped-IsHarmless f (c ∷ cs) h (plain _ _ _ goes text) = (h c goes, Escaped-IsHarmless f cs h text)
Escaped-IsHarmless f _ h (escape x y cs hx hy text) = (
  omega arith,
  (isxdigit-IsHarmless x hx, (isxdigit-IsHarmless y hy, Escaped-IsHarmless f cs h text)),
)

-- A part whose bytes are harmless.
abbrev Keeps : Part → Type 0
Keeps G = (s r : List ℕ) → G s r → Each IsHarmless r → Each IsHarmless s

Text-Keeps : (f : ℕ → Turn) → ((c : ℕ) → f c ≡ go → IsHarmless c) → Keeps (Text f)
Text-Keeps f h s r (part, e, text, end) k =
    rw e (Each-append part r (Escaped-IsHarmless f part h text) k)

Optional-Keeps : (c : ℕ) (G : Part) → Keeps G → Keeps (Optional c G)
Optional-Keeps c G h s r (inl (_, g)) k = h s r g k
Optional-Keeps c G h s r (inr (_, e)) k = rw e k

Behind-Keeps : (c : ℕ) (G : Part) → IsHarmless c → Keeps G → Keeps (Optional c (Behind G))
Behind-Keeps c G ok h s r (inr (_, e)) k = rw e k
Behind-Keeps c G ok h [] r (inl (is, g)) k = tt
Behind-Keeps c G ok h (x ∷ s) r (inl (is, g)) k = (rw is ok, h s r g k)

digit-IsHarmless : (c : ℕ) → isdigit c ≡ true → IsHarmless c
unfolding isdigit
digit-IsHarmless c e = ground arith

digits-IsHarmless :
    (digits : List ℕ) → Outside (λ c. not (isdigit c)) digits → Each IsHarmless digits
digits-IsHarmless [] o = tt
digits-IsHarmless (d ∷ ds) o = (digit-IsHarmless d (ground (arith, o.0)), digits-IsHarmless ds o.1)

Digits-Keeps : Keeps (Digits true)
Digits-Keeps s r (digits, e, o, ends) k = rw e (Each-append digits r (digits-IsHarmless digits o) k)

Anchor-Keeps : (strict : Bool) → Keeps (Optional b'#' (Anchor strict))
Anchor-Keeps false s r part k =
    Behind-Keeps b'#' (Text in_anchor) (omega arith) (Text-Keeps in_anchor in_anchor-IsHarmless) s r
      part k
Anchor-Keeps true s r (inl (_, a)) k = absurd a
Anchor-Keeps true s r (inr (_, e)) k = rw e k

-- The bytes of a name that libidn takes under the STD3 rules are harmless.
abbrev pub IsStd3 : (List ℕ → Option (List ℕ)) → Type 0
IsStd3 idna = (name out : List ℕ) → idna name ≡ some out → Each IsHarmless name

is_valid_hostname-IsHarmless :
    (idna : List ℕ → Option (List ℕ)) (name : List ℕ)
    → IsStd3 idna
    → is_valid_hostname idna name ≡ true
    → Each IsHarmless name
unfolding is_valid_hostname
is_valid_hostname-IsHarmless idna name std3 e = elim (Option-cases (idna name)) [
  | inr (out, is) ↦ std3 name out is
  | inl n ↦
      let refused = sym (ap (λ o. if first name == b'-' then false else checked o) n) ∙ e in
      absurd (ground arith)
]

Host-Keeps :
    (idna : List ℕ → Option (List ℕ)) (stops : ℕ → Bool) → IsStd3 idna → Keeps (Host idna stops)
Host-Keeps idna stops std3 s r (name, e, outside, begins, is) k =
    rw e (Each-append name r (is_valid_hostname-IsHarmless idna name std3 is) k)

HttpParts-Keeps :
    (idna : List ℕ → Option (List ℕ)) (strict : Bool) → IsStd3 idna → Keeps (HttpParts idna strict)
HttpParts-Keeps idna strict std3 s r
      (m1, (host, (m2, (port, (m3, (path, (m4, (search, anchor)))))))) k =
    Host-Keeps idna behind_host std3 s m1 host (
      Behind-Keeps b':' (Digits true) (omega arith) Digits-Keeps m1 m2 port (
        Optional-Keeps b'/' (Text in_path) (Text-Keeps in_path in_path-IsHarmless) m2 m3 path (
          Behind-Keeps b'?' (Text in_search) (omega arith)
            (Text-Keeps in_search in_search-IsHarmless) m3 m4 search
            (Anchor-Keeps strict m4 r anchor k))))

-- If libidn refuses a name with a blank, a control byte, a double quote or an angle bracket, as the
-- STD3 rules have it, then a link that is_valid_http_link accepts has none of these bytes.
pub is_valid_http_link-IsHarmless :
    (idna : List ℕ → Option (List ℕ)) (link : List ℕ) (strict : Bool)
    → IsStd3 idna
    → IsCstring link
    → is_valid_http_link idna link strict ≡ true
    → Each IsHarmless link
is_valid_http_link-IsHarmless idna link strict std3 k e =
    let (s, begin, (r, parts)) = (is_valid_http_link_iff idna link strict k).0 e in
    let nothing_left : Each IsHarmless r = rw (HttpParts-end idna strict s r parts) tt in
    let rest = HttpParts-Keeps idna strict std3 s r parts nothing_left in
    elim begin [
      | inl http ↦ rw http (Each-append http_scheme s (omega arith) rest)
      | inr https ↦ rw https (Each-append https_scheme s (omega arith) rest)
    ]
