-- ===== src/Str/Equal.antt =====
-- The comparisons of src/stringutils.c.
use cforum_upto.Base.{
  ℕ, zero, suc, ◌+◌, ◌-◌, ◌<◌, ◌≤◌, ◌≡◌, ◌≢◌, refl, ◌↔◌, inl, inr, ap, not, ◌&&◌, List, [], ◌∷◌,
  map, ltb, leb, ◌==◌, Bool-cases, if◌then◌else◌, length, take, length-take, arith,
}
use cforum_upto.Str.{Str, text, equal_loop, equal_string}

-- `*str` of a C string; behind the bytes that are listed stands the NUL.
abbrev pub first : List ℕ → ℕ
first [] = 0
first (x ∷ xs) = x

-- toupper of the C locale.
abbrev pub toupper : ℕ → ℕ
toupper c = if leb b'a' c && leb c b'z' then c - 32 else c

-- `if(*str1 == *str2) return 0; return 1;`
abbrev verdict : ℕ → ℕ → ℕ
verdict a b = if a == b then 0 else 1

unfoldable pub strcmp : List ℕ → List ℕ → ℕ
strcmp (x ∷ xs) (y ∷ ys) =
    let rest = strcmp xs ys in
    if not (x == 0) && (not (y == 0) && x == y) then rest else verdict x y
strcmp [] ys = verdict 0 (first ys)
strcmp (x ∷ xs) [] = verdict x 0

unfoldable pub strcasecmp : List ℕ → List ℕ → ℕ
strcasecmp (x ∷ xs) (y ∷ ys) =
    let rest = strcasecmp xs ys in
    if not (x == 0) && (not (y == 0) && toupper x == toupper y)
    then rest
    else verdict (toupper x) (toupper y)
strcasecmp [] ys = verdict (toupper 0) (toupper (first ys))
strcasecmp (x ∷ xs) [] = verdict (toupper x) (toupper 0)

-- The loop counts `i` up to `n`.
strncmp_from : List ℕ → List ℕ → ℕ → ℕ → ℕ
strncmp_from (x ∷ xs) (y ∷ ys) n i =
    let rest = strncmp_from xs ys n (i + 1) in
    if not (x == 0) && (not (y == 0) && (x == y && ltb i n))
    then if i == n - 1 then 0 else rest
    else verdict x y
strncmp_from [] ys n i = verdict 0 (first ys)
strncmp_from (x ∷ xs) [] n i = verdict x 0

unfoldable pub strncmp : List ℕ → List ℕ → ℕ → ℕ
unfolding strncmp_from
strncmp xs ys n = strncmp_from xs ys n 0

-- The bytes of a C string are not NUL.
abbrev pub IsCstring : List ℕ → Type 0
IsCstring [] = Unit
IsCstring (x ∷ xs) = (x ≢ 0) × IsCstring xs

equal_loop_iff : (xs ys : List ℕ) → length xs ≡ length ys → (equal_loop xs ys ≡ 0) ↔ (xs ≡ ys)
unfolding equal_loop
equal_loop_iff [] [] e = (λ _. refl, λ _. refl)
equal_loop_iff [] (y ∷ ys) e = absurd (omega arith)
equal_loop_iff (x ∷ xs) [] e = absurd (omega arith)
equal_loop_iff (x ∷ xs) (y ∷ ys) e = (
  ground (arith, (equal_loop_iff xs ys (omega arith)).0),
  ground (arith, (equal_loop_iff xs ys (omega arith)).1),
)

-- cf_strcmp returns 0 exactly for two C strings with the same bytes.
pub strcmp_iff : (xs ys : List ℕ) → IsCstring xs → IsCstring ys → (strcmp xs ys ≡ 0) ↔ (xs ≡ ys)
unfolding strcmp
strcmp_iff [] [] h k = (λ _. refl, λ _. refl)
strcmp_iff [] (y ∷ ys) h k = (ground arith, ground arith)
strcmp_iff (x ∷ xs) [] h k = (ground arith, ground arith)
strcmp_iff (x ∷ xs) (y ∷ ys) h k =
    (ground (arith, (strcmp_iff xs ys h.1 k.1).0), ground (arith, (strcmp_iff xs ys h.1 k.1).1))

-- cf_strcasecmp returns 0 exactly for two C strings whose bytes are the same in upper case.
pub strcasecmp_iff :
    (xs ys : List ℕ)
    → IsCstring xs
    → IsCstring ys
    → (strcasecmp xs ys ≡ 0) ↔ (map toupper xs ≡ map toupper ys)
unfolding strcasecmp
strcasecmp_iff [] [] h k = (λ _. refl, λ _. refl)
strcasecmp_iff [] (y ∷ ys) h k = (ground arith, ground arith)
strcasecmp_iff (x ∷ xs) [] h k = (ground arith, ground arith)
strcasecmp_iff (x ∷ xs) (y ∷ ys) h k = (
  ground (arith, (strcasecmp_iff xs ys h.1 k.1).0),
  ground (arith, (strcasecmp_iff xs ys h.1 k.1).1),
)

strncmp_from_iff :
    (xs ys : List ℕ) (n i m : ℕ)
    → IsCstring xs
    → IsCstring ys
    → n ≡ suc m + i
    → (strncmp_from xs ys n i ≡ 0) ↔ (take (suc m) xs ≡ take (suc m) ys)
unfolding strncmp_from
strncmp_from_iff [] [] n i m h k e = (λ _. refl, λ _. refl)
strncmp_from_iff [] (y ∷ ys) n i m h k e = (ground arith, ground arith)
strncmp_from_iff (x ∷ xs) [] n i m h k e = (ground arith, ground arith)
strncmp_from_iff (x ∷ xs) (y ∷ ys) n i zero h k e = (ground arith, ground arith)
strncmp_from_iff (x ∷ xs) (y ∷ ys) n i (suc m) h k e = (
  ground (arith, (strncmp_from_iff xs ys n (i + 1) m h.1 k.1 (omega arith)).0),
  ground (arith, (strncmp_from_iff xs ys n (i + 1) m h.1 k.1 (omega arith)).1),
)

-- For `n > 0` cf_strncmp returns 0 exactly for two C strings that agree in their first `n` bytes.
pub strncmp_iff :
    (xs ys : List ℕ) (n : ℕ)
    → IsCstring xs
    → IsCstring ys
    → 0 < n
    → (strncmp xs ys n ≡ 0) ↔ (take n xs ≡ take n ys)
unfolding strncmp
strncmp_iff xs ys zero h k lt = absurd (omega arith)
strncmp_iff xs ys (suc m) h k lt = strncmp_from_iff xs ys (suc m) 0 m h k (omega arith)

-- For `n = 0` it compares the first bytes, NUL included.
pub strncmp-zero : (xs ys : List ℕ) → (strncmp xs ys 0 ≡ 0) ↔ (first xs ≡ first ys)
unfolding strncmp strncmp_from
strncmp-zero [] ys = (ground arith, ground arith)
strncmp-zero (x ∷ xs) [] = (ground arith, ground arith)
strncmp-zero (x ∷ xs) (y ∷ ys) = (ground arith, ground arith)

-- Two strings whose lengths lie inside their blocks.
abbrev pub Fits : Str → Type 0
Fits s = s.len ≤ length s.content

length-text : (s : Str) → Fits s → length (text s) ≡ s.len
length-text s h = omega (arith, length-take s.len s.content)

-- cf_str_equal_string returns 0 exactly for two strings with the same text.
pub equal_string_iff : (s t : Str) → Fits s → Fits t → (equal_string s t ≡ 0) ↔ (text s ≡ text t)
unfolding equal_string
equal_string_iff s t h k = elim (Bool-cases (s.len == t.len)) [
  | inl e ↦
      rw e (equal_loop_iff (text s) (text t) (ground (arith, length-text s h, length-text t k)))
  | inr e ↦ rw e (
    λ o. absurd (omega arith),
    λ o. ground (arith, ap length o, length-text s h, length-text t k),
  )
]
