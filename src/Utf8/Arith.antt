-- ===== src/Utf8/Arith.antt =====
-- The bit operations of the UTF-8 coder of src/charconvert.c as arithmetic.
use Prim.Native.Nat.{bit_xor}
use cforum_upto.Base.{
  ℕ, zero, suc, ◌+◌, ◌-◌, ◌*◌, ◌/◌, ◌%◌, ◌^◌, ◌<◌, ◌≡◌, refl, Bool, true, false, ◌&&◌, ltb, leb,
  ◌==◌, ==_iff, if◌then◌else◌, arith,
}
use cforum_upto.Base.Bits.{bit_or_fields, bit_or_fields_comm, bit_and_63}
use cforum_upto.Utf8.{◌<<◌, ◌or◌, tail_bits, is_tail, low, up}

-- The test passes for the `n` numbers under `n`, the highest first.
passes : (ℕ → Bool) → ℕ → Bool
passes test zero = true
passes test (suc n) = if test n then passes test n else false

passes_each : (test : ℕ → Bool) (n k : ℕ) → k < n → passes test n ≡ true → test k ≡ true
unfolding passes
passes_each test zero k within all = absurd (omega arith)
passes_each test (suc n) k within all = ground (passes_each test n k, arith)

-- `^ 0x80` flips the highest bit of a byte.
flip_table : passes (λ b. bit_xor b 0x80 == (if ltb b 128 then b + 128 else b - 128)) 256 ≡ true
unfolding passes
flip_table = refl

pub tail_bits_lem : (b : ℕ) → b < 256 → tail_bits b ≡ (if ltb b 128 then b + 128 else b - 128)
unfolding tail_bits
tail_bits_lem b h = (==_iff _ _).0 (passes_each _ 256 b h flip_table)

pub is_tail_lem : (b : ℕ) → b < 256 → is_tail b ≡ (leb 128 b && ltb b 192)
unfolding is_tail
is_tail_lem b h = ground (arith, tail_bits_lem b h)

-- Six more bits behind a number.
pub or_six : (q r : ℕ) → r < 64 → (q << 6) or r ≡ q * 64 + r
or_six q r h = bit_or_fields 6 q r h

shift_in6 : (a b : ℕ) → b < 64 → (a << 12) or (b << 6) ≡ (a * 64 + b) << 6
shift_in6 a b h = omega (arith, bit_or_fields 12 a (b << 6) (omega arith))

shift_in12 : (a b : ℕ) → b < 64 → (a << 18) or (b << 12) ≡ (a * 64 + b) << 12
shift_in12 a b h = omega (arith, bit_or_fields 18 a (b << 12) (omega arith))

shift_in18 : (a b : ℕ) → b < 64 → (a << 24) or (b << 18) ≡ (a * 64 + b) << 18
shift_in18 a b h = omega (arith, bit_or_fields 24 a (b << 18) (omega arith))

shift_in24 : (a b : ℕ) → b < 64 → (a << 30) or (b << 24) ≡ (a * 64 + b) << 24
shift_in24 a b h = omega (arith, bit_or_fields 30 a (b << 24) (omega arith))

-- `a << 6 k | …` of groups of six bits, the last at the bottom.
pub join1 : (a b1 : ℕ) → b1 < 64 → (a << 6) or b1 ≡ a * 64 + b1
join1 a b1 h1 = bit_or_fields 6 a b1 h1

pub join2 :
    (a b1 b2 : ℕ) → b1 < 64 → b2 < 64 → (a << 12) or (b1 << 6) or b2 ≡ (a * 64 + b1) * 64 + b2
join2 a b1 b2 h1 h2 = rw (shift_in6 a b1 h1) (join1 (a * 64 + b1) b2 h2)

pub join3 :
    (a b1 b2 b3 : ℕ)
    → b1 < 64
    → b2 < 64
    → b3 < 64
    → (a << 18) or (b1 << 12) or (b2 << 6) or b3 ≡ ((a * 64 + b1) * 64 + b2) * 64 + b3
join3 a b1 b2 b3 h1 h2 h3 = rw (shift_in12 a b1 h1) (join2 (a * 64 + b1) b2 b3 h2 h3)

pub join4 :
    (a b1 b2 b3 b4 : ℕ)
    → b1 < 64
    → b2 < 64
    → b3 < 64
    → b4 < 64
    → (a << 24) or (b1 << 18) or (b2 << 12) or (b3 << 6) or b4
      ≡ (((a * 64 + b1) * 64 + b2) * 64 + b3) * 64 + b4
join4 a b1 b2 b3 b4 h1 h2 h3 h4 = rw (shift_in18 a b1 h1) (join3 (a * 64 + b1) b2 b3 b4 h2 h3 h4)

pub join5 :
    (a b1 b2 b3 b4 b5 : ℕ)
    → b1 < 64
    → b2 < 64
    → b3 < 64
    → b4 < 64
    → b5 < 64
    → (a << 30) or (b1 << 24) or (b2 << 18) or (b3 << 12) or (b4 << 6) or b5
      ≡ ((((a * 64 + b1) * 64 + b2) * 64 + b3) * 64 + b4) * 64 + b5
join5 a b1 b2 b3 b4 b5 h1 h2 h3 h4 h5 =
    rw (shift_in24 a b1 h1) (join4 (a * 64 + b1) b2 b3 b4 b5 h2 h3 h4 h5)

pub low_lem : (num : ℕ) → low num ≡ 128 + num % 64
unfolding low
low_lem num = rw bit_and_63 (bit_or_fields 6 2 (num % 64) (omega arith))

-- `(num >> 6) | mark`, where the mark lies above the bits of the number.
pub up_lem : (k q num : ℕ) → num < 64 * 2 ^ k → up num (q * 2 ^ k) ≡ q * 2 ^ k + num / 64
unfolding up
up_lem k q num h = bit_or_fields_comm k q (num / 2 ^ 6) (omega arith)
