-- ===== src/Utf8.antt =====
-- The UTF-8 coder of src/charconvert.c, for up to six bytes and 31 bits. A byte is a number below
-- 256; what stands behind the listed bytes reads as the NUL that ends a string.
pub mod Arith
pub mod Decode
pub mod Encode
pub mod RoundTrip
pub mod Shortest
pub mod Strings
pub mod Valid
mod Examples
use Prim.Native.Nat.{bit_and, bit_or, bit_xor}
use cforum_upto.Base.{
  ℕ, zero, suc, ◌*◌, ◌/◌, ◌%◌, ◌^◌, ◌≡◌, Bool, true, false, ◌&&◌, ◌||◌, List, [], ◌∷◌, ltb, leb,
  if◌then◌else◌,
}

-- The values of EILSEQ and EINVAL on Linux: both are positive.
abbrev pub eilseq : ℕ
eilseq = 84

abbrev pub einval : ℕ
einval = 22

-- `s[i]`
abbrev pub at : List ℕ → ℕ → ℕ
at [] i = 0
at (x ∷ xs) zero = x
at (x ∷ xs) (suc i) = at xs i

infixl 75 ◌<<◌ ◌>>◌
abbrev pub ◌<<◌ : ℕ → ℕ → ℕ
x << k = x * 2 ^ k

abbrev pub ◌>>◌ : ℕ → ℕ → ℕ
x >> k = x / 2 ^ k

-- `s[i] ^ 0x80`
unfoldable pub tail_bits : ℕ → ℕ
tail_bits b = bit_xor b 0x80

-- `(s[i] ^ 0x80) < 0x40`
unfoldable pub is_tail : ℕ → Bool
unfolding tail_bits
is_tail b = ltb (tail_bits b) 0x40

-- `a | b | … ` over bytes shifted into place.
infixl 64 ◌or◌
abbrev pub ◌or◌ : ℕ → ℕ → ℕ
a or b = bit_or a b

-- The branches of utf8_to_unicode by the length of the sequence: the result, and `*num`.
unfoldable pub decode2 : List ℕ → ℕ → ℕ → ℕ × ℕ
unfolding is_tail
decode2 s n num =
    if ltb n 2
    then (eilseq, num)
    else if is_tail (at s 1)
    then (2, (bit_and (at s 0) 0x1f << 6) or tail_bits (at s 1))
    else (eilseq, num)

unfoldable pub decode3 : List ℕ → ℕ → ℕ → ℕ × ℕ
unfolding is_tail
decode3 s n num =
    if ltb n 3
    then (eilseq, num)
    else if is_tail (at s 1) && (is_tail (at s 2) && (leb 0xe1 (at s 0) || leb 0xa0 (at s 1)))
    then (3, (bit_and (at s 0) 0x0f << 12) or (tail_bits (at s 1) << 6) or tail_bits (at s 2))
    else (eilseq, num)

unfoldable pub decode4 : List ℕ → ℕ → ℕ → ℕ × ℕ
unfolding is_tail
decode4 s n num =
    if ltb n 4
    then (eilseq, num)
    else if is_tail (at s 1)
        && (is_tail (at s 2) && (is_tail (at s 3) && (leb 0xf1 (at s 0) || leb 0x90 (at s 1))))
    then (
      4,
      (bit_and (at s 0) 0x07 << 18)
          or (tail_bits (at s 1) << 12)
          or (tail_bits (at s 2) << 6)
          or tail_bits (at s 3),
    )
    else (eilseq, num)

unfoldable pub decode5 : List ℕ → ℕ → ℕ → ℕ × ℕ
unfolding is_tail
decode5 s n num =
    if ltb n 5
    then (eilseq, num)
    else if is_tail (at s 1)
        && (is_tail (at s 2)
            && (is_tail (at s 3) && (is_tail (at s 4) && (leb 0xf9 (at s 0) || leb 0x88 (at s 1)))))
    then (
      5,
      (bit_and (at s 0) 0x03 << 24)
          or (tail_bits (at s 1) << 18)
          or (tail_bits (at s 2) << 12)
          or (tail_bits (at s 3) << 6)
          or tail_bits (at s 4),
    )
    else (eilseq, num)

unfoldable pub decode6 : List ℕ → ℕ → ℕ → ℕ × ℕ
unfolding is_tail
decode6 s n num =
    if ltb n 6
    then (eilseq, num)
    else if is_tail (at s 1)
        && (is_tail (at s 2)
            && (is_tail (at s 3)
                && (is_tail (at s 4)
                    && (is_tail (at s 5) && (leb 0xfd (at s 0) || leb 0x84 (at s 1))))))
    then (
      6,
      (bit_and (at s 0) 0x01 << 30)
          or (tail_bits (at s 1) << 24)
          or (tail_bits (at s 2) << 18)
          or (tail_bits (at s 3) << 12)
          or (tail_bits (at s 4) << 6)
          or tail_bits (at s 5),
    )
    else (eilseq, num)

-- utf8_to_unicode on the bytes `s`, of which `n` may be read, with `num` as the old `*num`: the
-- returned length or error, and the new `*num`.
unfoldable pub utf8_to_unicode : List ℕ → ℕ → ℕ → ℕ × ℕ
unfolding decode2 decode3 decode4 decode5 decode6
utf8_to_unicode s n num =
    let c = at s 0 in
    if ltb c 0x80
    then (1, c)
    else if ltb c 0xc2
    then (eilseq, num)
    else if ltb c 0xe0
    then decode2 s n num
    else if ltb c 0xf0
    then decode3 s n num
    else if ltb c 0xf8
    then decode4 s n num
    else if ltb c 0xfc
    then decode5 s n num
    else if ltb c 0xfe
    then decode6 s n num
    else (eilseq, num)

-- `c[i] = 0x80 | (num & 0x3F)` and `num = (num >> 6) | mark`.
unfoldable pub low : ℕ → ℕ
low num = bit_or 0x80 (bit_and num 0x3f)

unfoldable pub up : ℕ → ℕ → ℕ
up num mark = bit_or (num >> 6) mark

-- The cases of the switch, each with what falls through from it. The bytes that the cases above
-- have written stand behind.
unfoldable pub encode1 : ℕ → List ℕ → List ℕ
encode1 num rest = (num % 256) ∷ rest

unfoldable pub encode2 : ℕ → List ℕ → List ℕ
unfolding encode1 low up
encode2 num rest = encode1 (up num 0xc0) (low num ∷ rest)

unfoldable pub encode3 : ℕ → List ℕ → List ℕ
unfolding encode2
encode3 num rest = encode2 (up num 0x800) (low num ∷ rest)

unfoldable pub encode4 : ℕ → List ℕ → List ℕ
unfolding encode3
encode4 num rest = encode3 (up num 0x10000) (low num ∷ rest)

unfoldable pub encode5 : ℕ → List ℕ → List ℕ
unfolding encode4
encode5 num rest = encode4 (up num 0x200000) (low num ∷ rest)

unfoldable pub encode6 : ℕ → List ℕ → List ℕ
unfolding encode5
encode6 num rest = encode5 (up num 0x4000000) (low num ∷ rest)

abbrev written : ℕ → ℕ → List ℕ → ℕ × List ℕ
written n count bytes = if ltb n count then (einval, []) else (count, bytes)

-- unicode_to_utf8 for a buffer of `n` bytes: the returned length or error, and the bytes written.
unfoldable pub unicode_to_utf8 : ℕ → ℕ → ℕ × List ℕ
unfolding encode6
unicode_to_utf8 num n =
    if ltb num 0x80
    then written n 1 (encode1 num [])
    else if ltb num 0x800
    then written n 2 (encode2 num [])
    else if ltb num 0x10000
    then written n 3 (encode3 num [])
    else if ltb num 0x200000
    then written n 4 (encode4 num [])
    else if ltb num 0x4000000
    then written n 5 (encode5 num [])
    else if leb num 0x7fffffff
    then written n 6 (encode6 num [])
    else (einval, [])
