-- ===== src/Utf8/Shortest.antt =====
-- What utf8_to_unicode of src/charconvert.c accepts is what unicode_to_utf8 writes: no overlong
-- form is accepted.
use mathlib.Core.Path.{ap₂}
use cforum_upto.Base.{
  ℕ, ◌+◌, ◌-◌, ◌*◌, ◌%◌, ◌≤◌, ◌<◌, ◌≡◌, ◌≢◌, ◌⊎◌, inl, inr, refl, ap, ◌∙◌, Bool-cases, ltb, ltb→lt,
  List, [], ◌∷◌, length, take, arith,
}
use cforum_upto.Utf8.{
  eilseq, encode1, encode2, encode3, encode4, encode5, encode6, decode2, decode3, decode4, decode5,
  decode6, utf8_to_unicode, unicode_to_utf8,
}
use cforum_upto.Utf8.Arith.{is_tail_lem}
use cforum_upto.Utf8.Encode.{encode2_lem, encode3_lem, encode4_lem, encode5_lem, encode6_lem}
use cforum_upto.Utf8.Decode.{
  IsTail, decode2_lem, decode3_lem, decode4_lem, decode5_lem, decode6_lem,
}
use cforum_upto.Utf8.RoundTrip.{
  unicode_to_utf8-1, unicode_to_utf8-2, unicode_to_utf8-3, unicode_to_utf8-4, unicode_to_utf8-5,
  unicode_to_utf8-6,
}

-- A list of bytes.
abbrev pub IsBytes : List ℕ → Type 0
IsBytes [] = Unit
IsBytes (x ∷ xs) = (x < 256) × IsBytes xs

decode2-accepts :
    (c b1 : ℕ) (rest : List ℕ) (n num : ℕ)
    → b1 < 256
    → (decode2 (c ∷ b1 ∷ rest) n num).0 ≢ eilseq
    → IsTail b1 × (2 ≤ n)
unfolding decode2
decode2-accepts c b1 rest n num y1 ne = ground (arith, is_tail_lem b1 y1)

encode2-decode2 :
    (c b1 num : ℕ)
    → 0xc2 ≤ c
    → c < 0xe0
    → IsTail b1
    → num ≡ (c % 32) * 64 + (b1 - 128)
    → (0x80 ≤ num) × (num < 0x800) × (encode2 num [] ≡ c ∷ b1 ∷ [])
encode2-decode2 c b1 num lo hi t1 v = (
  omega arith,
  omega arith,
  encode2_lem num [] (omega arith) ∙ ap₂ ◌∷◌ (omega arith) (ap₂ ◌∷◌ (omega arith) refl),
)

decode3-accepts :
    (c b1 b2 : ℕ) (rest : List ℕ) (n num : ℕ)
    → b1 < 256
    → b2 < 256
    → (decode3 (c ∷ b1 ∷ b2 ∷ rest) n num).0 ≢ eilseq
    → IsTail b1 × IsTail b2 × ((0xe1 ≤ c) ⊎ (0xa0 ≤ b1)) × (3 ≤ n)
unfolding decode3
decode3-accepts c b1 b2 rest n num y1 y2 ne = ground (arith, is_tail_lem b1 y1, is_tail_lem b2 y2)

encode3-decode3 :
    (c b1 b2 num : ℕ)
    → 0xe0 ≤ c
    → c < 0xf0
    → IsTail b1
    → IsTail b2
    → (0xe1 ≤ c) ⊎ (0xa0 ≤ b1)
    → num ≡ ((c % 16) * 64 + (b1 - 128)) * 64 + (b2 - 128)
    → (0x800 ≤ num) × (num < 0x10000) × (encode3 num [] ≡ c ∷ b1 ∷ b2 ∷ [])
encode3-decode3 c b1 b2 num lo hi t1 t2 e v = (
  omega arith,
  omega arith,
  encode3_lem num [] (omega arith)
      ∙ ap₂ ◌∷◌ (omega arith) (ap₂ ◌∷◌ (omega arith) (ap₂ ◌∷◌ (omega arith) refl)),
)

decode4-accepts :
    (c b1 b2 b3 : ℕ) (rest : List ℕ) (n num : ℕ)
    → b1 < 256
    → b2 < 256
    → b3 < 256
    → (decode4 (c ∷ b1 ∷ b2 ∷ b3 ∷ rest) n num).0 ≢ eilseq
    → IsTail b1 × IsTail b2 × IsTail b3 × ((0xf1 ≤ c) ⊎ (0x90 ≤ b1)) × (4 ≤ n)
unfolding decode4
decode4-accepts c b1 b2 b3 rest n num y1 y2 y3 ne =
    ground (arith, is_tail_lem b1 y1, is_tail_lem b2 y2, is_tail_lem b3 y3)

encode4-decode4 :
    (c b1 b2 b3 num : ℕ)
    → 0xf0 ≤ c
    → c < 0xf8
    → IsTail b1
    → IsTail b2
    → IsTail b3
    → (0xf1 ≤ c) ⊎ (0x90 ≤ b1)
    → num ≡ (((c % 8) * 64 + (b1 - 128)) * 64 + (b2 - 128)) * 64 + (b3 - 128)
    → (0x10000 ≤ num) × (num < 0x200000) × (encode4 num [] ≡ c ∷ b1 ∷ b2 ∷ b3 ∷ [])
encode4-decode4 c b1 b2 b3 num lo hi t1 t2 t3 e v = (
  omega arith,
  omega arith,
  encode4_lem num [] (omega arith)
      ∙ ap₂ ◌∷◌ (omega arith)
          (ap₂ ◌∷◌ (omega arith) (ap₂ ◌∷◌ (omega arith) (ap₂ ◌∷◌ (omega arith) refl))),
)

decode5-accepts :
    (c b1 b2 b3 b4 : ℕ) (rest : List ℕ) (n num : ℕ)
    → b1 < 256
    → b2 < 256
    → b3 < 256
    → b4 < 256
    → (decode5 (c ∷ b1 ∷ b2 ∷ b3 ∷ b4 ∷ rest) n num).0 ≢ eilseq
    → IsTail b1 × IsTail b2 × IsTail b3 × IsTail b4 × ((0xf9 ≤ c) ⊎ (0x88 ≤ b1)) × (5 ≤ n)
unfolding decode5
decode5-accepts c b1 b2 b3 b4 rest n num y1 y2 y3 y4 ne =
    ground (arith, is_tail_lem b1 y1, is_tail_lem b2 y2, is_tail_lem b3 y3, is_tail_lem b4 y4)

encode5-decode5 :
    (c b1 b2 b3 b4 num : ℕ)
    → 0xf8 ≤ c
    → c < 0xfc
    → IsTail b1
    → IsTail b2
    → IsTail b3
    → IsTail b4
    → (0xf9 ≤ c) ⊎ (0x88 ≤ b1)
    → num ≡ ((((c % 4) * 64 + (b1 - 128)) * 64 + (b2 - 128)) * 64 + (b3 - 128)) * 64 + (b4 - 128)
    → (0x200000 ≤ num) × (num < 0x4000000) × (encode5 num [] ≡ c ∷ b1 ∷ b2 ∷ b3 ∷ b4 ∷ [])
encode5-decode5 c b1 b2 b3 b4 num lo hi t1 t2 t3 t4 e v = (
  omega arith,
  omega arith,
  encode5_lem num [] (omega arith)
      ∙ ap₂ ◌∷◌ (omega arith) (
          ap₂ ◌∷◌ (omega arith)
            (ap₂ ◌∷◌ (omega arith) (ap₂ ◌∷◌ (omega arith) (ap₂ ◌∷◌ (omega arith) refl)))),
)

decode6-accepts :
    (c b1 b2 b3 b4 b5 : ℕ) (rest : List ℕ) (n num : ℕ)
    → b1 < 256
    → b2 < 256
    → b3 < 256
    → b4 < 256
    → b5 < 256
    → (decode6 (c ∷ b1 ∷ b2 ∷ b3 ∷ b4 ∷ b5 ∷ rest) n num).0 ≢ eilseq
    → IsTail b1
      × IsTail b2
      × IsTail b3
      × IsTail b4
      × IsTail b5
      × ((0xfd ≤ c) ⊎ (0x84 ≤ b1))
      × (6 ≤ n)
unfolding decode6
decode6-accepts c b1 b2 b3 b4 b5 rest n num y1 y2 y3 y4 y5 ne = ground (
  arith,
  is_tail_lem b1 y1,
  is_tail_lem b2 y2,
  is_tail_lem b3 y3,
  is_tail_lem b4 y4,
  is_tail_lem b5 y5,
)

encode6-decode6 :
    (c b1 b2 b3 b4 b5 num : ℕ)
    → 0xfc ≤ c
    → c < 0xfe
    → IsTail b1
    → IsTail b2
    → IsTail b3
    → IsTail b4
    → IsTail b5
    → (0xfd ≤ c) ⊎ (0x84 ≤ b1)
    → num
      ≡ (((((c % 2) * 64 + (b1 - 128)) * 64 + (b2 - 128)) * 64 + (b3 - 128)) * 64 + (b4 - 128)) * 64
        + (b5 - 128)
    → (0x4000000 ≤ num) × (num < 0x80000000) × (encode6 num [] ≡ c ∷ b1 ∷ b2 ∷ b3 ∷ b4 ∷ b5 ∷ [])
encode6-decode6 c b1 b2 b3 b4 b5 num lo hi t1 t2 t3 t4 t5 e v = (
  omega arith,
  omega arith,
  encode6_lem num [] (omega arith)
      ∙ ap₂ ◌∷◌ (omega arith) (
          ap₂ ◌∷◌ (omega arith) (
            ap₂ ◌∷◌ (omega arith)
              (ap₂ ◌∷◌ (omega arith) (ap₂ ◌∷◌ (omega arith) (ap₂ ◌∷◌ (omega arith) refl))))),
)

-- The result `r` of a decoder on `s` is an error, or the shortest form of its number.
abbrev Short : List ℕ → ℕ × ℕ → Type 0
Short s r = r.0 ≢ eilseq → unicode_to_utf8 r.1 6 ≡ (r.0, take r.0 s)

decode2-Short :
    (c : ℕ) (s : List ℕ) (n num : ℕ)
    → 0xc2 ≤ c
    → c < 0xe0
    → IsBytes s
    → n ≤ length (c ∷ s)
    → Short (c ∷ s) (decode2 (c ∷ s) n num)
unfolding decode2
decode2-Short c [] n num lo hi y fits ne = ground arith
decode2-Short c (b1 ∷ rest) n num lo hi y fits ne =
    let acc = decode2-accepts c b1 rest n num y.0 ne in
    let ran = decode2_lem c b1 rest n num acc.0 acc.1 in
    let is = encode2-decode2 c b1 _ lo hi acc.0 refl in
    rw ran (unicode_to_utf8-2 _ 6 is.0 is.1 ∙ ap (λ (l : List ℕ). (2, l)) is.2)

decode3-Short :
    (c : ℕ) (s : List ℕ) (n num : ℕ)
    → 0xe0 ≤ c
    → c < 0xf0
    → IsBytes s
    → n ≤ length (c ∷ s)
    → Short (c ∷ s) (decode3 (c ∷ s) n num)
unfolding decode3
decode3-Short c [] n num lo hi y fits ne = ground arith
decode3-Short c (b1 ∷ []) n num lo hi y fits ne = ground arith
decode3-Short c (b1 ∷ b2 ∷ rest) n num lo hi y fits ne =
    let acc = decode3-accepts c b1 b2 rest n num y.0 y.1.0 ne in
    let ran = decode3_lem c b1 b2 rest n num acc.0 acc.1 acc.2 acc.3 in
    let is = encode3-decode3 c b1 b2 _ lo hi acc.0 acc.1 acc.2 refl in
    rw ran (unicode_to_utf8-3 _ 6 is.0 is.1 ∙ ap (λ (l : List ℕ). (3, l)) is.2)

decode4-Short :
    (c : ℕ) (s : List ℕ) (n num : ℕ)
    → 0xf0 ≤ c
    → c < 0xf8
    → IsBytes s
    → n ≤ length (c ∷ s)
    → Short (c ∷ s) (decode4 (c ∷ s) n num)
unfolding decode4
decode4-Short c [] n num lo hi y fits ne = ground arith
decode4-Short c (b1 ∷ []) n num lo hi y fits ne = ground arith
decode4-Short c (b1 ∷ b2 ∷ []) n num lo hi y fits ne = ground arith
decode4-Short c (b1 ∷ b2 ∷ b3 ∷ rest) n num lo hi y fits ne =
    let acc = decode4-accepts c b1 b2 b3 rest n num y.0 y.1.0 y.1.1.0 ne in
    let ran = decode4_lem c b1 b2 b3 rest n num acc.0 acc.1 acc.2 acc.3 acc.4 in
    let is = encode4-decode4 c b1 b2 b3 _ lo hi acc.0 acc.1 acc.2 acc.3 refl in
    rw ran (unicode_to_utf8-4 _ 6 is.0 is.1 ∙ ap (λ (l : List ℕ). (4, l)) is.2)

decode5-Short :
    (c : ℕ) (s : List ℕ) (n num : ℕ)
    → 0xf8 ≤ c
    → c < 0xfc
    → IsBytes s
    → n ≤ length (c ∷ s)
    → Short (c ∷ s) (decode5 (c ∷ s) n num)
unfolding decode5
decode5-Short c [] n num lo hi y fits ne = ground arith
decode5-Short c (b1 ∷ []) n num lo hi y fits ne = ground arith
decode5-Short c (b1 ∷ b2 ∷ []) n num lo hi y fits ne = ground arith
decode5-Short c (b1 ∷ b2 ∷ b3 ∷ []) n num lo hi y fits ne = ground arith
decode5-Short c (b1 ∷ b2 ∷ b3 ∷ b4 ∷ rest) n num lo hi y fits ne =
    let acc = decode5-accepts c b1 b2 b3 b4 rest n num y.0 y.1.0 y.1.1.0 y.1.1.1.0 ne in
    let ran = decode5_lem c b1 b2 b3 b4 rest n num acc.0 acc.1 acc.2 acc.3 acc.4 acc.5 in
    let is = encode5-decode5 c b1 b2 b3 b4 _ lo hi acc.0 acc.1 acc.2 acc.3 acc.4 refl in
    rw ran (unicode_to_utf8-5 _ 6 is.0 is.1 ∙ ap (λ (l : List ℕ). (5, l)) is.2)

decode6-Short :
    (c : ℕ) (s : List ℕ) (n num : ℕ)
    → 0xfc ≤ c
    → c < 0xfe
    → IsBytes s
    → n ≤ length (c ∷ s)
    → Short (c ∷ s) (decode6 (c ∷ s) n num)
unfolding decode6
decode6-Short c [] n num lo hi y fits ne = ground arith
decode6-Short c (b1 ∷ []) n num lo hi y fits ne = ground arith
decode6-Short c (b1 ∷ b2 ∷ []) n num lo hi y fits ne = ground arith
decode6-Short c (b1 ∷ b2 ∷ b3 ∷ []) n num lo hi y fits ne = ground arith
decode6-Short c (b1 ∷ b2 ∷ b3 ∷ b4 ∷ []) n num lo hi y fits ne = ground arith
decode6-Short c (b1 ∷ b2 ∷ b3 ∷ b4 ∷ b5 ∷ rest) n num lo hi y fits ne =
    let acc =
      decode6-accepts c b1 b2 b3 b4 b5 rest n num y.0 y.1.0 y.1.1.0 y.1.1.1.0 y.1.1.1.1.0 ne in
    let ran = decode6_lem c b1 b2 b3 b4 b5 rest n num acc.0 acc.1 acc.2 acc.3 acc.4 acc.5 acc.6 in
    let is = encode6-decode6 c b1 b2 b3 b4 b5 _ lo hi acc.0 acc.1 acc.2 acc.3 acc.4 acc.5 refl in
    rw ran (unicode_to_utf8-6 _ 6 is.0 is.1 ∙ ap (λ (l : List ℕ). (6, l)) is.2)

encode1_lem : (c n : ℕ) → c < 0x80 → unicode_to_utf8 c 6 ≡ (1, c ∷ [])
unfolding encode1
encode1_lem c n h = unicode_to_utf8-1 c 6 h ∙ ap (λ (b : ℕ). (1, b ∷ [])) (omega arith)

short :
    (c : ℕ) (s : List ℕ) (n num : ℕ)
    → IsBytes s
    → n ≤ length (c ∷ s)
    → Short (c ∷ s) (utf8_to_unicode (c ∷ s) n num)
unfolding utf8_to_unicode
short c s n num y fits = elim (Bool-cases (ltb c 0x80)) [
  | inl h ↦ rw h (λ _. encode1_lem c n (ltb→lt _ _ h))
  | inr h1 ↦ rw h1 (elim (Bool-cases (ltb c 0xc2)) [
    | inl h ↦ rw h (λ ne. absurd (ne refl))
    | inr h2 ↦ rw h2 (elim (Bool-cases (ltb c 0xe0)) [
      | inl h ↦ rw h (decode2-Short c s n num (ground arith) (ltb→lt _ _ h) y fits)
      | inr h3 ↦ rw h3 (elim (Bool-cases (ltb c 0xf0)) [
        | inl h ↦ rw h (decode3-Short c s n num (ground arith) (ltb→lt _ _ h) y fits)
        | inr h4 ↦ rw h4 (elim (Bool-cases (ltb c 0xf8)) [
          | inl h ↦ rw h (decode4-Short c s n num (ground arith) (ltb→lt _ _ h) y fits)
          | inr h5 ↦ rw h5 (elim (Bool-cases (ltb c 0xfc)) [
            | inl h ↦ rw h (decode5-Short c s n num (ground arith) (ltb→lt _ _ h) y fits)
            | inr h6 ↦ rw h6 (elim (Bool-cases (ltb c 0xfe)) [
              | inl h ↦ rw h (decode6-Short c s n num (ground arith) (ltb→lt _ _ h) y fits)
              | inr h7 ↦ rw h7 (λ ne. absurd (ne refl))
            ])
          ])
        ])
      ])
    ])
  ])
]

-- Whatever utf8_to_unicode accepts is the shortest form of the number: unicode_to_utf8 writes the
-- same length and the same bytes for it. The bytes are `c` and `s`, and the length that may be
-- read is within them.
pub unicode_to_utf8-utf8_to_unicode :
    (c : ℕ) (s : List ℕ) (n old : ℕ)
    → IsBytes s
    → n ≤ length (c ∷ s)
    → (utf8_to_unicode (c ∷ s) n old).0 ≢ eilseq
    → unicode_to_utf8 (utf8_to_unicode (c ∷ s) n old).1 6
      ≡ ((utf8_to_unicode (c ∷ s) n old).0, take (utf8_to_unicode (c ∷ s) n old).0 (c ∷ s))
unicode_to_utf8-utf8_to_unicode c s n old y fits ne = short c s n old y fits ne
