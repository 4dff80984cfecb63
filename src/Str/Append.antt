-- ===== src/Str/Append.antt =====
-- Appending to and setting the strings of src/stringutils.c.
use cforum_upto.Base.{
  ℕ, ◌+◌, ◌≤◌, ◌<◌, ◌≡◌, ◌≢◌, refl, ◌∙◌, ◌⊎◌, inl, inr, Option, none, some, List, [], ◌∷◌, ◌++◌,
  leb, ◌==◌, Bool-cases, length, take, arith,
}
use cforum_upto.Str.{
  Str, text, with_growth, ensure, ensure_new, store_at, room_for, char_append, chars_append,
  char_set, str_init_growth,
}
use cforum_upto.Str.Block.{write, realloc, length-realloc, take-realloc, write-Stored}

-- The block has `reserved` bytes; either there is no block, or the text is followed by a NUL
-- inside the block. A growth of 1 is excluded.
pub record IsValid (s : Str) : Type 0 where
  pub block : length s.content ≡ s.reserved
  pub growth : s.growth ≢ 1
  pub state :
      ((s.reserved ≡ 0) × (s.len ≡ 0))
      ⊎ ((s.len < s.reserved) × (take (s.len + 1) s.content ≡ take s.len s.content ++ 0 ∷ []))

-- The call stayed inside the block, returned `n`, and left a valid string with the text `bytes`.
abbrev pub Leaves : ℕ → List ℕ → Option (ℕ × Str) → Type 0
Leaves n bytes none = ⊥
Leaves n bytes (some (r, s)) = IsValid s × (r ≡ n) × (text s ≡ bytes)

store_at-Leaves :
    (at : ℕ) (bytes : List ℕ) (s : Str)
    → at + length bytes < length s.content
    → length s.content ≡ s.reserved
    → s.growth ≢ 1
    → Leaves (length bytes) (take at s.content ++ bytes) (store_at at bytes s)
store_at-Leaves at bytes s fits block growth =
    let r = write-Stored s.content at bytes fits in
    rw (r.copied, r.closed)
      (
        record { block = r.size ∙ block; growth = growth; state = inr (omega arith, r.nul) },
        refl,
        r.front,
      )

-- A block with room for `n` bytes and a NUL behind the text, which is still `bytes`.
record Ready (s : Str) (n : ℕ) (bytes : List ℕ) (r : Str) : Type 0 where
  block : length r.content ≡ r.reserved
  growth : r.growth ≢ 1
  len : r.len ≡ s.len
  room : r.len + n < r.reserved
  same : text r ≡ bytes

with_growth-IsValid : (s : Str) → IsValid s → IsValid (with_growth s)
with_growth-IsValid s v = elim (Bool-cases (s.growth == 0)) [
  | inl e ↦ rw e (record { block = v.block; growth = omega arith; state = v.state })
  | inr e ↦ rw e v
]

with_growth-pos : (s : Str) → s.growth ≢ 1 → 2 ≤ (with_growth s).growth
with_growth-pos s h = ground arith

with_growth-text : (s : Str) → text (with_growth s) ≡ text s
with_growth-text s = ground arith

len-le : (s : Str) → IsValid s → s.len ≤ s.reserved
len-le s v = omega (arith, v.state)

module _ (junk : ℕ) where
  ensure-Ready :
      (n extra : ℕ) (s : Str)
      → IsValid s
      → s.len + n < s.reserved + extra
      → Ready s n (text s) (ensure junk n extra s)
  unfolding ensure
  ensure-Ready n extra s v h = elim (Bool-cases (leb s.reserved (s.len + n))) [
    | inl e ↦ rw e (record {
      block = length-realloc junk s.content (s.reserved + extra);
      growth = v.growth;
      len = refl;
      room = h;
      same =
          take-realloc junk s.content s.len (s.reserved + extra) (omega (arith, len-le s v))
            (omega (arith, v.block, len-le s v));
    })
    | inr e ↦ rw e (record {
      block = v.block;
      growth = v.growth;
      len = refl;
      room = ground arith;
      same = refl;
    })
  ]

  appended :
      (s r : Str) (bytes : List ℕ)
      → Ready s (length bytes) (text s) r
      → Leaves (length bytes) (text s ++ bytes) (store_at r.len bytes r)
  appended s r bytes h = rw (← h.same) (
      store_at-Leaves r.len bytes r (let e = h.block in let f = h.room in omega arith) h.block
        h.growth)

  ensure_new-Ready :
      (n room : ℕ) (s : Str)
      → IsValid s
      → n < room
      → (length (ensure_new junk n room s).content ≡ (ensure_new junk n room s).reserved)
        × ((ensure_new junk n room s).growth ≢ 1)
        × (n < (ensure_new junk n room s).reserved)
  unfolding ensure_new
  ensure_new-Ready n room s v h = elim (Bool-cases (leb s.reserved (s.len + n))) [
    | inl e ↦ rw e (length-realloc junk s.content room, v.growth, h)
    | inr e ↦ rw e (v.block, v.growth, ground arith)
  ]

  -- On a valid string cf_str_char_append stays inside the block, returns 1 and appends the byte;
  -- the result is valid again.
  pub char_append-Leaves :
      (s : Str) (c : ℕ) → IsValid s → Leaves 1 (text s ++ c ∷ []) (char_append junk s c)
  unfolding char_append
  char_append-Leaves s c v =
      let w = with_growth-IsValid s v in
      let r =
        ensure-Ready 1 (with_growth s).growth (with_growth s) w
          (omega (arith, len-le (with_growth s) w, with_growth-pos s v.growth)) in
      rw (← with_growth-text s) (appended (with_growth s) _ (c ∷ []) r)

  room_for-lt : (n : ℕ) (s : Str) → 2 ≤ s.growth → n < room_for n s
  room_for-lt n s h = ground arith

  -- On a valid string cf_str_chars_append stays inside the block, returns the number of bytes
  -- given and appends them; the result is valid again.
  pub chars_append-Leaves :
      (s : Str) (bytes : List ℕ)
      → IsValid s
      → Leaves (length bytes) (text s ++ bytes) (chars_append junk s bytes)
  unfolding chars_append
  chars_append-Leaves s bytes v =
      let w = with_growth-IsValid s v in
      let n : ℕ = length bytes in
      let r = ensure-Ready n (room_for n (with_growth s)) (with_growth s) w (
        omega (
          arith,
          len-le (with_growth s) w,
          room_for-lt n (with_growth s) (with_growth-pos s v.growth),
        )) in
      rw (← with_growth-text s) (appended (with_growth s) _ bytes r)

  -- On a valid string cf_str_char_set stays inside the block, returns the number of bytes given
  -- and replaces the text by them; the result is valid again.
  pub char_set-Leaves :
      (s : Str) (bytes : List ℕ) → IsValid s → Leaves (length bytes) bytes (char_set junk s bytes)
  unfolding char_set
  char_set-Leaves s bytes v =
      let w = with_growth-IsValid s v in
      let n : ℕ = length bytes in
      let r =
        ensure_new-Ready n (room_for n (with_growth s)) (with_growth s) w
          (room_for-lt n (with_growth s) (with_growth-pos s v.growth)) in
      store_at-Leaves 0 bytes (ensure_new junk n (room_for n (with_growth s)) (with_growth s))
        (let e = r.0 in let f = r.2 in omega arith) r.0 r.1

-- A fresh string of growth 1 is not safe: its first cf_str_char_append writes behind the block,
-- whatever the byte.
pub char_append-growth_one : (junk c : ℕ) → char_append junk (str_init_growth 1) c ≡ none
unfolding char_append str_init_growth write realloc
char_append-growth_one junk c = refl

-- cf_str_init and cf_str_init_growth, but for the growth 1, give a valid empty string.
pub str_init_growth-IsValid :
    (growth : ℕ)
    → growth ≢ 1
    → IsValid (str_init_growth growth) × (text (str_init_growth growth) ≡ [])
unfolding str_init_growth
str_init_growth-IsValid growth h =
    (record { block = refl; growth = h; state = inl (refl, refl) }, refl)
