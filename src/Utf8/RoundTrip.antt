-- ===== src/Utf8/RoundTrip.antt =====
-- utf8_to_unicode and unicode_to_utf8 of src/charconvert.c undo each other.
use cforum_upto.Base.{
  ℕ, ◌+◌, ◌/◌, ◌≤◌, ◌<◌, ◌≡◌, ◌≢◌, ◌⊎◌, inl, inr, refl, Bool-cases, ltb, if◌then◌else◌, List, [],
  ◌++◌, arith,
}
use cforum_upto.Utf8.{
  einval, encode1, encode2, encode3, encode4, encode5, encode6, utf8_to_unicode, unicode_to_utf8,
}
use cforum_upto.Utf8.Encode.{tail, encode2_lem, encode3_lem, encode4_lem, encode5_lem, encode6_lem}
use cforum_upto.Utf8.Decode.{decode2_lem, decode3_lem, decode4_lem, decode5_lem, decode6_lem}

-- The five ranges of numbers that need more than one byte.

decode2-encode2 :
    (num m old : ℕ) (rest : List ℕ)
    → 0x80 ≤ num
    → num < 0x800
    → 2 ≤ m
    → utf8_to_unicode (encode2 num [] ++ rest) m old ≡ (2, num)
unfolding utf8_to_unicode
decode2-encode2 num m old rest lo hi fits =
    rw (encode2_lem num [] (omega arith))
      (ground (arith, decode2_lem (192 + num / 64) (tail num) rest m old (omega arith) fits))

cover3 :
    (num : ℕ)
    → 0x800 ≤ num
    → num < 0x10000
    → (0xe1 ≤ 224 + num / 64 / 64) ⊎ (0xa0 ≤ tail (num / 64))
cover3 num lo hi = ground arith

decode3-encode3 :
    (num m old : ℕ) (rest : List ℕ)
    → 0x800 ≤ num
    → num < 0x10000
    → 3 ≤ m
    → utf8_to_unicode (encode3 num [] ++ rest) m old ≡ (3, num)
unfolding utf8_to_unicode
decode3-encode3 num m old rest lo hi fits = rw (encode3_lem num [] (omega arith)) (
    ground (
      arith,
      decode3_lem (224 + num / 64 / 64) (tail (num / 64)) (tail num) rest m old (omega arith)
          (omega arith) (cover3 num lo hi) fits,
    ))

cover4 :
    (num : ℕ)
    → 0x10000 ≤ num
    → num < 0x200000
    → (0xf1 ≤ 240 + num / 64 / 64 / 64) ⊎ (0x90 ≤ tail (num / 64 / 64))
cover4 num lo hi = ground arith

decode4-encode4 :
    (num m old : ℕ) (rest : List ℕ)
    → 0x10000 ≤ num
    → num < 0x200000
    → 4 ≤ m
    → utf8_to_unicode (encode4 num [] ++ rest) m old ≡ (4, num)
unfolding utf8_to_unicode
decode4-encode4 num m old rest lo hi fits = rw (encode4_lem num [] (omega arith)) (
    ground (
      arith,
      decode4_lem (240 + num / 64 / 64 / 64) (tail (num / 64 / 64)) (tail (num / 64)) (tail num)
          rest m old (omega arith) (omega arith) (omega arith) (cover4 num lo hi) fits,
    ))

cover5 :
    (num : ℕ)
    → 0x200000 ≤ num
    → num < 0x4000000
    → (0xf9 ≤ 248 + num / 64 / 64 / 64 / 64) ⊎ (0x88 ≤ tail (num / 64 / 64 / 64))
cover5 num lo hi = ground arith

decode5-encode5 :
    (num m old : ℕ) (rest : List ℕ)
    → 0x200000 ≤ num
    → num < 0x4000000
    → 5 ≤ m
    → utf8_to_unicode (encode5 num [] ++ rest) m old ≡ (5, num)
unfolding utf8_to_unicode
decode5-encode5 num m old rest lo hi fits = rw (encode5_lem num [] (omega arith)) (
    ground (
      arith,
      decode5_lem (248 + num / 64 / 64 / 64 / 64) (tail (num / 64 / 64 / 64)) (tail (num / 64 / 64))
          (tail (num / 64)) (tail num) rest m old (omega arith) (omega arith) (omega arith)
          (omega arith) (cover5 num lo hi) fits,
    ))

cover6 :
    (num : ℕ)
    → 0x4000000 ≤ num
    → num < 0x80000000
    → (0xfd ≤ 252 + num / 64 / 64 / 64 / 64 / 64) ⊎ (0x84 ≤ tail (num / 64 / 64 / 64 / 64))
cover6 num lo hi = ground arith

decode6-encode6 :
    (num m old : ℕ) (rest : List ℕ)
    → 0x4000000 ≤ num
    → num < 0x80000000
    → 6 ≤ m
    → utf8_to_unicode (encode6 num [] ++ rest) m old ≡ (6, num)
unfolding utf8_to_unicode
decode6-encode6 num m old rest lo hi fits = rw (encode6_lem num [] (omega arith)) (
    ground (
      arith,
      decode6_lem (252 + num / 64 / 64 / 64 / 64 / 64) (tail (num / 64 / 64 / 64 / 64))
          (tail (num / 64 / 64 / 64)) (tail (num / 64 / 64)) (tail (num / 64)) (tail num) rest m old
          (omega arith) (omega arith) (omega arith) (omega arith) (omega arith) (cover6 num lo hi)
          fits,
    ))

decode1-encode1 :
    (num m old : ℕ) (rest : List ℕ)
    → num < 0x80
    → utf8_to_unicode (encode1 num [] ++ rest) m old ≡ (1, num)
unfolding utf8_to_unicode encode1
decode1-encode1 num m old rest hi = ground arith

-- The result of unicode_to_utf8 for a number that needs `k` bytes.
abbrev pub sized : ℕ → ℕ → List ℕ → ℕ × List ℕ
sized n k bytes = if ltb n k then (einval, []) else (k, bytes)

abbrev Back : ℕ → ℕ → ℕ → List ℕ → ℕ × List ℕ → Type 0
Back num m old rest r = r.0 ≢ einval → r.0 ≤ m → utf8_to_unicode (r.1 ++ rest) m old ≡ (r.0, num)

sized-Back :
    (num n m old k : ℕ) (rest bytes : List ℕ)
    → (k ≤ m → utf8_to_unicode (bytes ++ rest) m old ≡ (k, num))
    → Back num m old rest (sized n k bytes)
sized-Back num n m old k rest bytes h = elim (Bool-cases (ltb n k)) [
  | inl e ↦ rw e (λ ne _. absurd (ne refl))
  | inr e ↦ rw e (λ _ fits. h fits)
]

pub unicode_to_utf8-1 :
    (num n : ℕ) → num < 0x80 → unicode_to_utf8 num n ≡ sized n 1 (encode1 num [])
unfolding unicode_to_utf8
unicode_to_utf8-1 num n hi = ground arith

pub unicode_to_utf8-2 :
    (num n : ℕ) → 0x80 ≤ num → num < 0x800 → unicode_to_utf8 num n ≡ sized n 2 (encode2 num [])
unfolding unicode_to_utf8
unicode_to_utf8-2 num n lo hi = ground arith

pub unicode_to_utf8-3 :
    (num n : ℕ) → 0x800 ≤ num → num < 0x10000 → unicode_to_utf8 num n ≡ sized n 3 (encode3 num [])
unfolding unicode_to_utf8
unicode_to_utf8-3 num n lo hi = ground arith

pub unicode_to_utf8-4 :
    (num n : ℕ)
    → 0x10000 ≤ num
    → num < 0x200000
    → unicode_to_utf8 num n ≡ sized n 4 (encode4 num [])
unfolding unicode_to_utf8
unicode_to_utf8-4 num n lo hi = ground arith

pub unicode_to_utf8-5 :
    (num n : ℕ)
    → 0x200000 ≤ num
    → num < 0x4000000
    → unicode_to_utf8 num n ≡ sized n 5 (encode5 num [])
unfolding unicode_to_utf8
unicode_to_utf8-5 num n lo hi = ground arith

pub unicode_to_utf8-6 :
    (num n : ℕ)
    → 0x4000000 ≤ num
    → num < 0x80000000
    → unicode_to_utf8 num n ≡ sized n 6 (encode6 num [])
unfolding unicode_to_utf8
unicode_to_utf8-6 num n lo hi = ground arith

-- To split on a comparison.
ltb-cases : (a b : ℕ) → (a < b) ⊎ (b ≤ a)
ltb-cases a b = ground arith

back :
    (num n m old : ℕ) (rest : List ℕ)
    → num < 0x80000000
    → Back num m old rest (unicode_to_utf8 num n)
back num n m old rest top = elim (ltb-cases num 0x80) [
  | inl h1 ↦
      rw (unicode_to_utf8-1 num n h1)
        (sized-Back num n m old 1 rest _ λ _. decode1-encode1 num m old rest h1)
  | inr l1 ↦ elim (ltb-cases num 0x800) [
    | inl h2 ↦
        rw (unicode_to_utf8-2 num n l1 h2)
          (sized-Back num n m old 2 rest _ (decode2-encode2 num m old rest l1 h2))
    | inr l2 ↦ elim (ltb-cases num 0x10000) [
      | inl h3 ↦
          rw (unicode_to_utf8-3 num n l2 h3)
            (sized-Back num n m old 3 rest _ (decode3-encode3 num m old rest l2 h3))
      | inr l3 ↦ elim (ltb-cases num 0x200000) [
        | inl h4 ↦
            rw (unicode_to_utf8-4 num n l3 h4)
              (sized-Back num n m old 4 rest _ (decode4-encode4 num m old rest l3 h4))
        | inr l4 ↦ elim (ltb-cases num 0x4000000) [
          | inl h5 ↦
              rw (unicode_to_utf8-5 num n l4 h5)
                (sized-Back num n m old 5 rest _ (decode5-encode5 num m old rest l4 h5))
          | inr l5 ↦
              rw (unicode_to_utf8-6 num n l5 top)
                (sized-Back num n m old 6 rest _ (decode6-encode6 num m old rest l5 top))
        ]
      ]
    ]
  ]
]

-- Whatever unicode_to_utf8 writes for a number of at most 31 bits, utf8_to_unicode reads back:
-- the same length and the same number, whatever bytes follow, if the length it may read covers
-- the sequence.
pub utf8_to_unicode-unicode_to_utf8 :
    (num n m old : ℕ) (rest : List ℕ)
    → num < 0x80000000
    → (unicode_to_utf8 num n).0 ≢ einval
    → (unicode_to_utf8 num n).0 ≤ m
    → utf8_to_unicode ((unicode_to_utf8 num n).1 ++ rest) m old ≡ ((unicode_to_utf8 num n).0, num)
utf8_to_unicode-unicode_to_utf8 num n m old rest top ne fits = back num n m old rest top ne fits
