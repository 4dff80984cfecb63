-- ===== src/Utf8/Decode.antt =====
-- What utf8_to_unicode of src/charconvert.c accepts, and the number it computes.
use cforum_upto.Base.{ℕ, ◌+◌, ◌-◌, ◌*◌, ◌%◌, ◌≤◌, ◌<◌, ◌≡◌, ◌⊎◌, true, List, ◌∷◌, arith}
use cforum_upto.Base.Bits.{bit_and_1, bit_and_3, bit_and_7, bit_and_15, bit_and_31}
use cforum_upto.Utf8.{is_tail, tail_bits, decode2, decode3, decode4, decode5, decode6}
use cforum_upto.Utf8.Arith.{tail_bits_lem, is_tail_lem, join1, join2, join3, join4, join5}

-- A byte that is not the first of a sequence.
abbrev pub IsTail : ℕ → Type 0
IsTail b = (128 ≤ b) × (b < 192)

is_tail-true : (b : ℕ) → IsTail b → is_tail b ≡ true
is_tail-true b h = ground (arith, is_tail_lem b (omega arith))

tail_bits-tail : (b : ℕ) → IsTail b → tail_bits b ≡ b - 128
tail_bits-tail b h = ground (arith, tail_bits_lem b (omega arith))

pub decode2_lem :
    (c b1 : ℕ) (rest : List ℕ) (n num : ℕ)
    → IsTail b1
    → 2 ≤ n
    → decode2 (c ∷ b1 ∷ rest) n num ≡ (2, (c % 32) * 64 + (b1 - 128))
unfolding decode2
decode2_lem c b1 rest n num h1 m = ground (
  arith,
  is_tail-true b1 h1,
  tail_bits-tail b1 h1,
  bit_and_31 c,
  join1 (c % 32) (b1 - 128) (omega arith),
)

pub decode3_lem :
    (c b1 b2 : ℕ) (rest : List ℕ) (n num : ℕ)
    → IsTail b1
    → IsTail b2
    → (225 ≤ c) ⊎ (160 ≤ b1)
    → 3 ≤ n
    → decode3 (c ∷ b1 ∷ b2 ∷ rest) n num ≡ (3, ((c % 16) * 64 + (b1 - 128)) * 64 + (b2 - 128))
unfolding decode3
decode3_lem c b1 b2 rest n num h1 h2 e m = ground (
  arith,
  is_tail-true b1 h1,
  tail_bits-tail b1 h1,
  is_tail-true b2 h2,
  tail_bits-tail b2 h2,
  bit_and_15 c,
  join2 (c % 16) (b1 - 128) (b2 - 128) (omega arith) (omega arith),
)

pub decode4_lem :
    (c b1 b2 b3 : ℕ) (rest : List ℕ) (n num : ℕ)
    → IsTail b1
    → IsTail b2
    → IsTail b3
    → (241 ≤ c) ⊎ (144 ≤ b1)
    → 4 ≤ n
    → decode4 (c ∷ b1 ∷ b2 ∷ b3 ∷ rest) n num
      ≡ (4, (((c % 8) * 64 + (b1 - 128)) * 64 + (b2 - 128)) * 64 + (b3 - 128))
unfolding decode4
decode4_lem c b1 b2 b3 rest n num h1 h2 h3 e m = ground (
  arith,
  is_tail-true b1 h1,
  tail_bits-tail b1 h1,
  is_tail-true b2 h2,
  tail_bits-tail b2 h2,
  is_tail-true b3 h3,
  tail_bits-tail b3 h3,
  bit_and_7 c,
  join3 (c % 8) (b1 - 128) (b2 - 128) (b3 - 128) (omega arith) (omega arith) (omega arith),
)

pub decode5_lem :
    (c b1 b2 b3 b4 : ℕ) (rest : List ℕ) (n num : ℕ)
    → IsTail b1
    → IsTail b2
    → IsTail b3
    → IsTail b4
    → (249 ≤ c) ⊎ (136 ≤ b1)
    → 5 ≤ n
    → decode5 (c ∷ b1 ∷ b2 ∷ b3 ∷ b4 ∷ rest) n num
      ≡ (5, ((((c % 4) * 64 + (b1 - 128)) * 64 + (b2 - 128)) * 64 + (b3 - 128)) * 64 + (b4 - 128))
unfolding decode5
decode5_lem c b1 b2 b3 b4 rest n num h1 h2 h3 h4 e m = ground (
  arith,
  is_tail-true b1 h1,
  tail_bits-tail b1 h1,
  is_tail-true b2 h2,
  tail_bits-tail b2 h2,
  is_tail-true b3 h3,
  tail_bits-tail b3 h3,
  is_tail-true b4 h4,
  tail_bits-tail b4 h4,
  bit_and_3 c,
  join4 (c % 4) (b1 - 128) (b2 - 128) (b3 - 128) (b4 - 128) (omega arith) (omega arith)
      (omega arith) (omega arith),
)

pub decode6_lem :
    (c b1 b2 b3 b4 b5 : ℕ) (rest : List ℕ) (n num : ℕ)
    → IsTail b1
    → IsTail b2
    → IsTail b3
    → IsTail b4
    → IsTail b5
    → (253 ≤ c) ⊎ (132 ≤ b1)
    → 6 ≤ n
    → decode6 (c ∷ b1 ∷ b2 ∷ b3 ∷ b4 ∷ b5 ∷ rest) n num ≡ (
      6,
      (((((c % 2) * 64 + (b1 - 128)) * 64 + (b2 - 128)) * 64 + (b3 - 128)) * 64 + (b4 - 128)) * 64
          + (b5 - 128),
    )
unfolding decode6
decode6_lem c b1 b2 b3 b4 b5 rest n num h1 h2 h3 h4 h5 e m = ground (
  arith,
  is_tail-true b1 h1,
  tail_bits-tail b1 h1,
  is_tail-true b2 h2,
  tail_bits-tail b2 h2,
  is_tail-true b3 h3,
  tail_bits-tail b3 h3,
  is_tail-true b4 h4,
  tail_bits-tail b4 h4,
  is_tail-true b5 h5,
  tail_bits-tail b5 h5,
  bit_and_1 c,
  join5 (c % 2) (b1 - 128) (b2 - 128) (b3 - 128) (b4 - 128) (b5 - 128) (omega arith) (omega arith)
      (omega arith) (omega arith) (omega arith),
)
