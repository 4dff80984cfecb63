-- ===== src/Str.antt =====
-- The growing strings of src/stringutils.c. `none` is an access outside of the allocated block.
pub mod Block
pub mod Append
pub mod Equal
pub mod Run
pub mod Split
mod Examples
use cforum_upto.Base.{
  ℕ, ◌+◌, ◌≡◌, ◌≢◌, ◌<◌, Bool, true, false, not, ◌&&◌, ◌||◌, Option, none, some, List, [], ◌∷◌, leb,
  ltb, ◌==◌, if◌then◌else◌, length, take, get_elem?,
}
use Block.{write, realloc}

-- CF_BUFSIZ, which is BUFSIZ of the C library.
abbrev pub cf_bufsiz : ℕ
cf_bufsiz = 8192

-- `cf_string_t`. `content` is the whole allocated block, `[]` for NULL.
pub record Str : Type 0 where
  pub len : ℕ
  pub reserved : ℕ
  pub growth : ℕ
  pub content : List ℕ

-- The bytes that the string stands for.
abbrev pub text : Str → List ℕ
text s = take s.len s.content

infixl 5 ◌>>=◌
abbrev pub ◌>>=◌ {ℓ κ} : {A : Type ℓ} {B : Type κ} → Option A → (A → Option B) → Option B
none >>= f = none
some a >>= f = f a

unfoldable pub str_init_growth : ℕ → Str
str_init_growth growth = record { len = 0; reserved = 0; growth = growth; content = [] }

unfoldable pub str_init : Str
unfolding str_init_growth
str_init = str_init_growth cf_bufsiz

unfoldable pub str_cleanup : Str → Str
str_cleanup s = record s { len = 0; reserved = 0; content = [] }

-- The bytes of a C string: what stands before its NUL.
abbrev pub upto_nul : List ℕ → List ℕ
upto_nul [] = []
upto_nul (c ∷ cs) = let rest = upto_nul cs in if c == 0 then [] else c ∷ rest

-- What memcpy reads: `none` behind the block.
abbrev pub bytes_of : Str → Option (List ℕ)
bytes_of s = if leb s.len (length s.content) then some (text s) else none

-- `if(str->growth == 0) str->growth = CF_BUFSIZ;`
abbrev pub with_growth : Str → Str
with_growth s = if s.growth == 0 then record s { growth = cf_bufsiz } else s

-- The bytes, then the terminating NUL, written behind position `at`.
abbrev pub store_at : ℕ → List ℕ → Str → Option (ℕ × Str)
store_at at bytes s = do
  filled ← write s.content at bytes
  ended ← write filled (at + length bytes) (0 ∷ [])
  some (length bytes, record s { len = at + length bytes; content = ended })

-- `len = str->growth; … if(length >= len) len += length;`
abbrev pub room_for : ℕ → Str → ℕ
room_for n s = if leb s.growth n then s.growth + n else s.growth

-- What realloc leaves in new bytes is not determined: each is `junk`.
module _ (junk : ℕ) where
  -- The reallocation of the append functions, where `need` more bytes do not fit.
  unfoldable pub ensure : ℕ → ℕ → Str → Str
  ensure need extra s =
      if leb s.reserved (s.len + need)
      then record s {
        reserved = s.reserved + extra;
        content = realloc junk s.content (s.reserved + extra);
      }
      else s

  -- The reallocation of cf_str_char_set, which sets `reserved` anew.
  unfoldable pub ensure_new : ℕ → ℕ → Str → Str
  ensure_new need room s =
      if leb s.reserved (s.len + need)
      then record s { reserved = room; content = realloc junk s.content room }
      else s

  -- cf_str_char_append: the number of bytes appended, and the string.
  unfoldable pub char_append : Str → ℕ → Option (ℕ × Str)
  unfolding ensure
  char_append s c =
      let s = with_growth s in let s = ensure 1 s.growth s in store_at s.len (c ∷ []) s

  unfoldable pub chars_append : Str → List ℕ → Option (ℕ × Str)
  unfolding ensure
  chars_append s bytes =
      let s = with_growth s in
      let s = ensure (length bytes) (room_for (length bytes) s) s in store_at s.len bytes s

  unfoldable pub char_set : Str → List ℕ → Option (ℕ × Str)
  unfolding ensure_new
  char_set s bytes =
      let s = with_growth s in
      let s = ensure_new (length bytes) (room_for (length bytes) s) s in store_at 0 bytes s

  unfoldable pub str_append : Str → Str → Option (ℕ × Str)
  unfolding chars_append
  str_append s t = do bytes ← bytes_of t; chars_append s bytes

  unfoldable pub str_set : Str → Str → Option (ℕ × Str)
  unfolding char_set
  str_set s t = do bytes ← bytes_of t; char_set s bytes

  unfoldable pub cstr_append : Str → List ℕ → Option (ℕ × Str)
  unfolding chars_append
  cstr_append s c = chars_append s (upto_nul c)

  unfoldable pub cstr_set : Str → List ℕ → Option (ℕ × Str)
  unfolding char_set
  cstr_set s c = char_set s (upto_nul c)

-- The loop of cf_str_equal_string and cf_str_equal_chars over `len` bytes of both: 1 at the
-- first difference, 0 at the end.
unfoldable pub equal_loop : List ℕ → List ℕ → ℕ
equal_loop (x ∷ xs) (y ∷ ys) = let rest = equal_loop xs ys in if x == y then rest else 1
equal_loop [] ys = 0
equal_loop (x ∷ xs) [] = 1

unfoldable pub equal_string : Str → Str → ℕ
unfolding equal_loop
equal_string s t = if s.len == t.len then equal_loop (text s) (text t) else 1

unfoldable pub equal_chars : Str → List ℕ → ℕ
unfolding equal_loop
equal_chars s bytes = if s.len == length bytes then equal_loop (text s) bytes else 1
