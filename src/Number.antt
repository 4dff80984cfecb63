-- ===== src/Number.antt =====
-- src/datautils.c: numbers written to and read from strings in decimal.
pub mod Swap
pub mod RoundTrip
mod Examples
use cforum_upto.Base.{
  ℕ, zero, suc, ◌+◌, ◌-◌, ◌*◌, ◌/◌, ◌%◌, ◌^◌, Bool, ◌&&◌, Option, none, some, List, [], ◌∷◌, leb,
  ltb, ◌==◌, if◌then◌else◌,
}
use cforum_upto.Str.{Str, ◌>>=◌, char_append}
use Swap.{swap_loop}

-- isdigit of the C locale.
abbrev pub isdigit : ℕ → Bool
isdigit c = leb b'0' c && leb c b'9'

-- The loop of cf_str_to_uint64 on what stands before the NUL, in 64 bits.
unfoldable pub read_digits : ℕ → List ℕ → ℕ
read_digits retval [] = retval
read_digits retval (c ∷ cs) =
    let rest = read_digits ((retval * 10 + c - b'0') % 2 ^ 64) cs in
    if isdigit c then rest else retval

unfoldable pub str_to_uint64 : List ℕ → ℕ
unfolding read_digits
str_to_uint64 s = read_digits 0 s

module _ (junk : ℕ) where
  -- The loop `while(num)`: the string, and `i`.
  unfoldable pub push_digits : ℕ → ℕ → Str → ℕ → Option (Str × ℕ)
  push_digits zero num s i = none
  push_digits (suc fuel) num s i =
      let after = λ (r : ℕ × Str). push_digits fuel (num / 10) r.1 (i + 1) in
      if num == 0 then some (s, i) else char_append junk s (b'0' + num % 10) >>= after

  -- The body that cf_uint16_to_str, cf_uint32_to_str and cf_uint64_to_str share. A round of the
  -- first loop divides the number by 10, and a round of the second brings the pointers closer.
  unfoldable pub uint_to_str : Str → ℕ → Option Str
  uint_to_str s num =
      let zero_digit = char_append junk s b'0' >>= λ (_, t). some t in
      let reversed = λ (r : Str × ℕ). (do
        content ← swap_loop r.1 r.0.content (r.0.len - r.1) (r.0.len - 1)
        some (record (r.0) { content = content })) in
      if num == 0 then zero_digit else push_digits (suc num) num s 0 >>= reversed
