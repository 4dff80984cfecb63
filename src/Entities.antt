-- ===== src/Entities.antt =====
-- htmlentities and print_htmlentities_encoded of src/charconvert.c. A string is the list of the
-- bytes before its NUL; `none` is an access outside of an allocated block.
pub mod Escape
pub mod Print
mod Examples
use cforum_upto.Base.{
  ℕ, ◌+◌, ◌≡◌, Bool, Option, none, some, List, [], ◌∷◌, ◌==◌, if◌then◌else◌, length,
}
use cforum_upto.Str.{Str, ◌>>=◌, char_append, chars_append, str_init}
use cforum_upto.Str.Block.{realloc}

-- The string constants of both functions.
abbrev pub gt : List ℕ
gt = b'&' ∷ b'g' ∷ b't' ∷ b';' ∷ []

abbrev pub lt : List ℕ
lt = b'&' ∷ b'l' ∷ b't' ∷ b';' ∷ []

abbrev pub amp : List ℕ
amp = b'&' ∷ b'a' ∷ b'm' ∷ b'p' ∷ b';' ∷ []

abbrev pub quot : List ℕ
quot = b'&' ∷ b'q' ∷ b'u' ∷ b'o' ∷ b't' ∷ b';' ∷ []

abbrev pub apos : List ℕ
apos = b'&' ∷ b'#' ∷ b'3' ∷ b'9' ∷ b';' ∷ []

module _ (junk : ℕ) where
  -- The `switch(*ptr)` of htmlentities.
  unfoldable pub put : Bool → ℕ → Str → Option (ℕ × Str)
  put sq c s =
      if c == b'>'
      then chars_append junk s gt
      else if c == b'<'
      then chars_append junk s lt
      else if c == b'&'
      then chars_append junk s amp
      else if c == b'"'
      then chars_append junk s quot
      else if c == b'\''
      then (if sq then chars_append junk s apos else char_append junk s c)
      else char_append junk s c

  unfoldable pub put_all : Bool → List ℕ → Str → Option Str
  put_all sq [] s = some s
  put_all sq (c ∷ cs) s = do (_, t) ← put sq c s; put_all sq cs t

  -- htmlentities: the block that is returned. The reallocation cuts it to the text and its NUL.
  unfoldable pub htmlentities : Bool → List ℕ → Option (List ℕ)
  unfolding put_all str_init
  htmlentities sq string = do
    s ← put_all sq string str_init
    some (realloc junk s.content (s.len + 1))

-- The stream is a parameter: fwrite returns the number of bytes that it has written.
module _ {ℓ} {File : Type ℓ} (fwrite : List ℕ → File → ℕ × File) (fputc : ℕ → File → File) where
  -- The `switch(*ptr)` of print_htmlentities_encoded: `s`, and the stream.
  unfoldable pub print : Bool → ℕ → File → ℕ × File
  print sq c handle =
      if c == 34
      then fwrite quot handle
      else if c == 38
      then fwrite amp handle
      else if c == 39
      then (if sq then fwrite apos handle else fwrite (c ∷ []) handle)
      else if c == 60
      then fwrite lt handle
      else if c == 62
      then fwrite gt handle
      else (1, fputc c handle)

  unfoldable pub print_all : Bool → List ℕ → File → ℕ → ℕ × File
  unfolding print
  print_all sq [] handle written = (written, handle)
  print_all sq (c ∷ cs) handle written =
      let s = (print sq c handle).0 in
      let after = (print sq c handle).1 in
      let rest = print_all sq cs after (written + s) in if s == 0 then (written, after) else rest

  unfoldable pub print_htmlentities_encoded : Bool → List ℕ → File → ℕ × File
  unfolding print_all
  print_htmlentities_encoded sq string handle = print_all sq string handle 0
