-- ===== src/Utf8/Strings.antt =====
-- Whole UTF-8 strings: is_valid_utf8_string of src/charconvert.c and cf_strlen_utf8 of
-- src/stringutils.c. The string is the list of its bytes; the NUL stands behind them.
use cforum_upto.Base.{
  ℕ, zero, suc, ◌+◌, ◌-◌, ◌%◌, ◌^◌, ◌≤◌, ◌<◌, ◌≡◌, ◌≢◌, refl, ap, ◌∙◌, Bool, true, false, ◌||◌,
  Bool-cases, inl, inr, List, [], ◌∷◌, ◌++◌, ◌==◌, leb, ltb, if◌then◌else◌, length, drop,
  length-append, length-drop, arith,
}
use cforum_upto.Utf8.{
  eilseq, at, utf8_to_unicode, unicode_to_utf8, decode2, decode3, decode4, decode5, decode6,
}
use cforum_upto.Utf8.RoundTrip.{utf8_to_unicode-unicode_to_utf8}

-- What a scan of a string ends with. `outside` is a pointer behind the NUL.
pub data Scan {ℓ} (A : Type ℓ) : Type ℓ where
  done : A → Scan A
  outside : Scan A
  out_of_fuel : Scan A

-- The loop of is_valid_utf8_string: `true` for the result 0 and `false` for -1.
unfoldable pub valid_loop : ℕ → List ℕ → ℕ → Scan Bool
valid_loop zero s len = out_of_fuel
valid_loop (suc fuel) s len =
    let ret = (utf8_to_unicode s len 0).0 in
    let rest = valid_loop fuel (drop ret s) (len - ret) in
    if at s 0 == 0 || len == 0
    then done true
    else if ret == eilseq
    then done false
    else if ltb (length s) ret
    then outside
    else rest

-- One round for each byte and one for the end is enough.
unfoldable pub is_valid_utf8_string : List ℕ → ℕ → Scan Bool
unfolding valid_loop
is_valid_utf8_string s len = valid_loop (suc (length s)) s len

-- `bytes < 0`, for an `int` of 32 bits.
abbrev pub is_negative : ℕ → Bool
is_negative bytes = leb (2 ^ 31) bytes

-- `return -1` of a `size_t`.
abbrev pub minus_one : ℕ
minus_one = 2 ^ 64 - 1

-- The loop of cf_strlen_utf8; `rlen` is a `size_t`.
unfoldable pub strlen_loop : ℕ → List ℕ → ℕ → ℕ → Scan ℕ
strlen_loop zero s rlen len = out_of_fuel
strlen_loop (suc fuel) s rlen len =
    let bytes = (utf8_to_unicode s rlen 0).0 in
    let rest = strlen_loop fuel (drop bytes s) ((rlen + 2 ^ 64 - bytes) % 2 ^ 64) (len + 1) in
    if at s 0 == 0
    then done len
    else if is_negative bytes
    then done minus_one
    else if ltb (length s) bytes
    then outside
    else rest

unfoldable pub strlen_utf8 : List ℕ → ℕ → Scan ℕ
unfolding strlen_loop
strlen_utf8 s rlen = strlen_loop (suc (length s)) s rlen 0

-- The text of some code points.
unfoldable pub encode_all : List ℕ → List ℕ
encode_all [] = []
encode_all (n ∷ ns) = (unicode_to_utf8 n 6).1 ++ encode_all ns

-- Code points that may stand in a C string.
abbrev pub IsCodes : List ℕ → Type 0
IsCodes [] = Unit
IsCodes (n ∷ ns) = (0 < n) × (n < 0x80000000) × IsCodes ns

record Sized (r : ℕ × List ℕ) : Type 0 where
  length_eq : length r.1 ≡ r.0
  pos : 1 ≤ r.0
  top : r.0 ≤ 6

unicode_to_utf8-Sized : (n : ℕ) → n < 0x80000000 → Sized (unicode_to_utf8 n 6)
unfolding unicode_to_utf8
unicode_to_utf8-Sized n h = ground arith

drop_all : (xs ys : List ℕ) → drop (length xs) (xs ++ ys) ≡ ys
drop_all [] ys = refl
drop_all (x ∷ xs) ys = drop_all xs ys

-- A string does not start with NUL if its first code point is not 0.
head-ne :
    (s : List ℕ) (m old k n : ℕ) → utf8_to_unicode s m old ≡ (k, n) → 0 < n → (at s 0 == 0) ≡ false
unfolding utf8_to_unicode
head-ne s m old k n e h = elim (Bool-cases (at s 0 == 0)) [ inl z ↦ ground arith | inr z ↦ z ]

-- What the loops read at the first code point of a text.
record Head (n : ℕ) (rest : List ℕ) (m : ℕ) : Type 0 where
  count : ℕ
  read : utf8_to_unicode ((unicode_to_utf8 n 6).1 ++ rest) m 0 ≡ (count, n)
  pos : 1 ≤ count
  top : count ≤ 6
  size : length ((unicode_to_utf8 n 6).1 ++ rest) ≡ count + length rest
  rest_eq : drop count ((unicode_to_utf8 n 6).1 ++ rest) ≡ rest
  ne : (at ((unicode_to_utf8 n 6).1 ++ rest) 0 == 0) ≡ false

Head-of :
    (n : ℕ) (rest : List ℕ) (m : ℕ)
    → 0 < n
    → n < 0x80000000
    → length ((unicode_to_utf8 n 6).1 ++ rest) ≤ m
    → Head n rest m
Head-of n rest m lo hi fits =
    let sized = unicode_to_utf8-Sized n hi in
    let read =
      utf8_to_unicode-unicode_to_utf8 n 6 m 0 rest hi (let e = sized.top in omega arith)
        (omega (arith, length-append (unicode_to_utf8 n 6).1 rest, sized.length_eq)) in
    record {
      count = (unicode_to_utf8 n 6).0;
      read = read;
      pos = sized.pos;
      top = sized.top;
      size = omega (arith, length-append (unicode_to_utf8 n 6).1 rest, sized.length_eq);
      rest_eq = rw (← sized.length_eq) (drop_all (unicode_to_utf8 n 6).1 rest);
      ne = head-ne _ m 0 _ n read lo;
    }

valid_loop-encode_all :
    (ns : List ℕ) (fuel m : ℕ)
    → IsCodes ns
    → length (encode_all ns) < fuel
    → length (encode_all ns) ≤ m
    → valid_loop fuel (encode_all ns) m ≡ done true
unfolding valid_loop encode_all
valid_loop-encode_all ns zero m c f h = absurd (omega arith)
valid_loop-encode_all [] (suc fuel) m c f h = refl
valid_loop-encode_all (n ∷ ns) (suc fuel) m c f h =
    let head = Head-of n (encode_all ns) m c.0 c.1 h in
    let again =
      valid_loop-encode_all ns fuel (m - head.count) c.2 (omega (arith, head.pos, head.size))
        (omega (arith, head.size)) in
    rw (head.read, head.ne, head.rest_eq, again) (ground (arith, head.pos, head.top, head.size))

-- is_valid_utf8_string accepts what unicode_to_utf8 writes for any sequence of code points from 1
-- to 31 bits, if the length given covers the text.
pub is_valid_utf8_string-encode_all :
    (ns : List ℕ) (m : ℕ)
    → IsCodes ns
    → length (encode_all ns) ≤ m
    → is_valid_utf8_string (encode_all ns) m ≡ done true
unfolding is_valid_utf8_string
is_valid_utf8_string-encode_all ns m c h =
    valid_loop-encode_all ns (suc (length (encode_all ns))) m c (omega arith) h

strlen_loop-encode_all :
    (ns : List ℕ) (fuel m len : ℕ)
    → IsCodes ns
    → length (encode_all ns) < fuel
    → length (encode_all ns) ≤ m
    → m < 2 ^ 64
    → strlen_loop fuel (encode_all ns) m len ≡ done (len + length ns)
unfolding strlen_loop encode_all
strlen_loop-encode_all ns zero m len c f h w = absurd (omega arith)
strlen_loop-encode_all [] (suc fuel) m len c f h w = ap done (omega arith)
strlen_loop-encode_all (n ∷ ns) (suc fuel) m len c f h w =
    let head = Head-of n (encode_all ns) m c.0 c.1 h in
    let wrap : (m + 2 ^ 64 - head.count) % 2 ^ 64 ≡ m - head.count = omega (arith, head.size) in
    let again =
      strlen_loop-encode_all ns fuel (m - head.count) (len + 1) c.2
        (omega (arith, head.pos, head.size)) (omega (arith, head.size)) (omega arith) in
    rw (head.read, head.ne, head.rest_eq, wrap, again)
      (ground (arith, head.pos, head.top, head.size))

-- cf_strlen_utf8 counts the code points of a text, if the length given covers the text.
pub strlen_utf8-encode_all :
    (ns : List ℕ) (m : ℕ)
    → IsCodes ns
    → length (encode_all ns) ≤ m
    → m < 2 ^ 64
    → strlen_utf8 (encode_all ns) m ≡ done (length ns)
unfolding strlen_utf8
strlen_utf8-encode_all ns m c h w =
    strlen_loop-encode_all ns (suc (length (encode_all ns))) m 0 c (omega arith) h w
    ∙ ap done (omega arith)

utf8_to_unicode-small :
    (s : List ℕ) (m : ℕ) → (1 ≤ (utf8_to_unicode s m 0).0) × ((utf8_to_unicode s m 0).0 ≤ eilseq)
unfolding utf8_to_unicode decode2 decode3 decode4 decode5 decode6
utf8_to_unicode-small s m = ground arith

-- The pointer leaves the string, or the result is at most `n`.
abbrev pub Counts : ℕ → Scan ℕ → Type 0
Counts n (done k) = k ≤ n
Counts n outside = Unit
Counts n out_of_fuel = ⊥

Counts-le : (n m : ℕ) (r : Scan ℕ) → n ≤ m → Counts n r → Counts m r
Counts-le n m (done k) h c = omega arith
Counts-le n m outside h c = tt
Counts-le n m out_of_fuel h c = elim c [ ]

round-Counts :
    (n len : ℕ) (ends negative leaves : Bool) (rest : Scan ℕ)
    → len ≤ n
    → negative ≡ false
    → Counts n rest
    → Counts n (
        if ends
        then done len
        else if negative
        then done minus_one
        else if leaves
        then outside
        else rest)
round-Counts n len true negative leaves rest h never c = h
round-Counts n len false negative true rest h never c = rw never tt
round-Counts n len false negative false rest h never c = rw never c

strlen_loop-Counts :
    (fuel : ℕ) (s : List ℕ) (rlen len : ℕ)
    → length s < fuel
    → Counts (len + length s) (strlen_loop fuel s rlen len)
unfolding strlen_loop
strlen_loop-Counts zero s rlen len h = absurd (omega arith)
strlen_loop-Counts (suc fuel) [] rlen len h = omega arith
strlen_loop-Counts (suc fuel) (x ∷ s) rlen len h =
    let bytes = (utf8_to_unicode (x ∷ s) rlen 0).0 in
    let small = utf8_to_unicode-small (x ∷ s) rlen in
    let shorter = length-drop bytes (x ∷ s) in
    let more = Counts-le _ (len + length (x ∷ s)) _ (omega (arith, shorter, small)) (
      strlen_loop-Counts fuel (drop bytes (x ∷ s)) ((rlen + 2 ^ 64 - bytes) % 2 ^ 64) (len + 1)
        (omega (arith, shorter, small))) in
    let never : is_negative bytes ≡ false = ground (arith, small) in
    round-Counts (len + length (x ∷ s)) len (x == 0) (is_negative bytes)
      (ltb (length (x ∷ s)) bytes) _ (omega arith) never more

Counts-minus_one : (n : ℕ) (r : Scan ℕ) → n < 2 ^ 64 - 1 → Counts n r → r ≢ done minus_one
Counts-minus_one n (done k) h c e = ground arith
Counts-minus_one n outside h c e = ground arith
Counts-minus_one n out_of_fuel h c e = elim c [ ]

-- On a string of fewer than 2 ^ 64 - 1 bytes, whatever they are, cf_strlen_utf8 ends: it leaves the
-- string, or returns at most the number of the bytes. It does not return -1, so that an illegal
-- sequence is not reported.
pub strlen_utf8-minus_one :
    (s : List ℕ) (m : ℕ)
    → length s < 2 ^ 64 - 1
    → Counts (length s) (strlen_utf8 s m) × (strlen_utf8 s m ≢ done minus_one)
unfolding strlen_utf8
strlen_utf8-minus_one s m h =
    let counts =
      Counts-le (0 + length s) (length s) (strlen_utf8 s m) (omega arith)
        (strlen_loop-Counts (suc (length s)) s m 0 (omega arith)) in
    (counts, Counts-minus_one (length s) _ h counts)
