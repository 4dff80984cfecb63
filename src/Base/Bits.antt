-- ===== src/Base/Bits.antt =====
-- `|` of disjoint fields and `&` with a low mask as arithmetic, at every width.
use native.Mathlib.Nat.{pow-suc}
use native.Mathlib.Omega.{arith}
use mathlib.Core.Path.{sym, ◌∙◌, ap, refl, ◌≡◌}
use Prim.Native.Nat.{bit_or, bit_or-bitwise, bit_and, bit_and-bitwise, digits, bitwise}
use Prim.Native.Nat.{◌<◌, ◌≤◌, min, max, ◌^◌, ◌%◌, ◌/◌, ◌*◌, ◌+◌, suc, zero, ℕ}

-- As many rounds as the first number counts are enough, and more do not change the result.
settled :
    (zs : ℕ → ℕ) (on : ℕ → ℕ → ℕ) (bound rounds x y : ℕ)
    → rounds ≤ bound
    → x ≤ rounds
    → digits zs on rounds x y ≡ bitwise zs on x y
settled zs on bound zero zero y h e = refl
settled zs on bound (suc rounds) zero y h e = refl
settled zs on bound zero (suc x) y h e = absurd (omega arith)
settled zs on zero (suc rounds) (suc x) y h e = absurd (omega arith)
settled zs on (suc bound) (suc rounds) (suc x) y h e =
    let last_bit = λ (t : ℕ). t * 2 + on (suc x % 2) (y % 2) in
    let many = settled zs on bound rounds (suc x / 2) (y / 2) (omega arith) (omega arith) in
    let few = settled zs on bound x (suc x / 2) (y / 2) (omega arith) (omega arith) in
    ap last_bit (many ∙ sym few)

half_rounds :
    (zs : ℕ → ℕ) (on : ℕ → ℕ → ℕ) (x y : ℕ)
    → digits zs on x (suc x / 2) y ≡ bitwise zs on (suc x / 2) y
half_rounds zs on x y = settled zs on x x (suc x / 2) y (omega arith) (omega arith)

-- The lowest bit of `|` and of `&`, and the bits above it.
pub bit_or_step : (a b : ℕ) → bit_or a b ≡ bit_or (a / 2) (b / 2) * 2 + max (a % 2) (b % 2)
bit_or_step zero y = simp bit_or-bitwise (omega arith)
bit_or_step (suc x) y =
    simp bit_or-bitwise
      (ap (λ (t : ℕ). t * 2 + max (suc x % 2) (y % 2)) (half_rounds (λ k. k) max x (y / 2)))

pub bit_and_step : (a b : ℕ) → bit_and a b ≡ bit_and (a / 2) (b / 2) * 2 + min (a % 2) (b % 2)
bit_and_step zero y = simp bit_and-bitwise (omega arith)
bit_and_step (suc x) y =
    simp bit_and-bitwise
      (ap (λ (t : ℕ). t * 2 + min (suc x % 2) (y % 2)) (half_rounds (λ k. 0) min x (y / 2)))

-- Zero bits, by a bound on the other number.
bit_or-zero_below : (bound x : ℕ) → x < bound → bit_or x 0 ≡ x
bit_or-zero_below zero x h = absurd (omega arith)
bit_or-zero_below (suc bound) zero h = refl
bit_or-zero_below (suc bound) (suc x) h =
    omega (bit_or-zero_below bound (suc x / 2) (omega arith), bit_or_step (suc x) 0, arith)

bit_and-zero_below : (bound x : ℕ) → x < bound → bit_and x 0 ≡ 0
bit_and-zero_below zero x h = absurd (omega arith)
bit_and-zero_below (suc bound) zero h = refl
bit_and-zero_below (suc bound) (suc x) h =
    omega (bit_and-zero_below bound (suc x / 2) (omega arith), bit_and_step (suc x) 0, arith)

bit_and-zero : (x : ℕ) → bit_and x 0 ≡ 0
bit_and-zero x = bit_and-zero_below (suc x) x (omega arith)

-- Twice a field is the field one place up.
double_field : (places q : ℕ) → q * 2 ^ suc places ≡ q * 2 ^ places * 2
double_field places q = omega (ap (λ (t : ℕ). q * t) (pow-suc 2 places), arith)

-- `q << k | r` and `r | q << k` are sums where `r` has at most `k` bits.
pub bit_or_fields : (k q r : ℕ) → r < 2 ^ k → bit_or (q * 2 ^ k) r ≡ q * 2 ^ k + r
bit_or_fields zero q r h =
    let same = bit_or-zero_below (suc q) q (omega arith) in ground (same, arith)
bit_or_fields (suc k) q r h =
    let twice = pow-suc 2 k in
    let halves = bit_or_fields k q (r / 2) (omega (twice, arith)) in
    ground (halves, twice, double_field k q, bit_or_step (q * 2 ^ suc k) r, arith)

pub bit_or_fields_comm : (k q r : ℕ) → r < 2 ^ k → bit_or r (q * 2 ^ k) ≡ q * 2 ^ k + r
bit_or_fields_comm zero q r h = let same = bit_or-bitwise 0 q in ground (same, arith)
bit_or_fields_comm (suc k) q r h =
    let twice = pow-suc 2 k in
    let halves = bit_or_fields_comm k q (r / 2) (omega (twice, arith)) in
    ground (halves, twice, double_field k q, bit_or_step r (q * 2 ^ suc k), arith)

-- A mask of low ones takes the remainder.
pub bit_and_1 : (a : ℕ) → bit_and a 1 ≡ a % 2
bit_and_1 a = omega (bit_and-zero (a / 2), bit_and_step a 1, arith)

pub bit_and_3 : (a : ℕ) → bit_and a 3 ≡ a % 4
bit_and_3 a = omega (arith, bit_and_step a 3, bit_and_1 (a / 2))

pub bit_and_7 : (a : ℕ) → bit_and a 7 ≡ a % 8
bit_and_7 a = omega (arith, bit_and_step a 7, bit_and_3 (a / 2))

pub bit_and_15 : (a : ℕ) → bit_and a 15 ≡ a % 16
bit_and_15 a = omega (arith, bit_and_step a 15, bit_and_7 (a / 2))

pub bit_and_31 : (a : ℕ) → bit_and a 31 ≡ a % 32
bit_and_31 a = omega (arith, bit_and_step a 31, bit_and_15 (a / 2))

pub bit_and_63 : (a : ℕ) → bit_and a 63 ≡ a % 64
bit_and_63 a = omega (arith, bit_and_step a 63, bit_and_31 (a / 2))
