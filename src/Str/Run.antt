-- ===== src/Str/Run.antt =====
-- Whole runs of the operations of src/stringutils.c on one string.
use cforum_upto.Base.{
  ℕ, ◌≤◌, le→leb, ◌≡◌, refl, inl, Option, none, some, List, [], ◌∷◌, ◌++◌, length,
}
use cforum_upto.Str.{
  Str, text, upto_nul, ◌>>=◌, char_append, chars_append, char_set, str_append, str_set, cstr_append,
  cstr_set, str_cleanup,
}
use cforum_upto.Str.Append.{
  IsValid, Leaves, char_append-Leaves, chars_append-Leaves, char_set-Leaves,
}

-- One call that changes a string, with its argument.
pub data Call : Type 0 where
  byte : ℕ → Call
  bytes : List ℕ → Call
  string : Str → Call
  cstring : List ℕ → Call
  replace : List ℕ → Call
  replace_string : Str → Call
  replace_cstring : List ℕ → Call
  clear : Call

module _ (junk : ℕ) where
  abbrev pub call : Call → Str → Option (ℕ × Str)
  call (byte c) s = char_append junk s c
  call (bytes b) s = chars_append junk s b
  call (string t) s = str_append junk s t
  call (cstring c) s = cstr_append junk s c
  call (replace b) s = char_set junk s b
  call (replace_string t) s = str_set junk s t
  call (replace_cstring c) s = cstr_set junk s c
  call clear s = some (0, str_cleanup s)

  -- Calls one after the other.
  unfoldable pub run : List Call → Str → Option Str
  run [] s = some s
  run (c ∷ cs) s = do (_, t) ← call c s; run cs t

abbrev pub meaning : Call → List ℕ → List ℕ
meaning (byte c) xs = xs ++ c ∷ []
meaning (bytes b) xs = xs ++ b
meaning (string t) xs = xs ++ text t
meaning (cstring c) xs = xs ++ upto_nul c
meaning (replace b) xs = b
meaning (replace_string t) xs = text t
meaning (replace_cstring c) xs = upto_nul c
meaning clear xs = []

unfoldable pub meanings : List Call → List ℕ → List ℕ
meanings [] xs = xs
meanings (c ∷ cs) xs = meanings cs (meaning c xs)

-- The bytes of a string that is given as an argument stand in its block.
abbrev pub IsInside : Call → Type 0
IsInside (byte c) = Unit
IsInside (bytes b) = Unit
IsInside (string t) = t.len ≤ length t.content
IsInside (cstring c) = Unit
IsInside (replace b) = Unit
IsInside (replace_string t) = t.len ≤ length t.content
IsInside (replace_cstring c) = Unit
IsInside clear = Unit

abbrev pub AllInside : List Call → Type 0
AllInside [] = Unit
AllInside (c ∷ cs) = IsInside c × AllInside cs

abbrev pub Holds : List ℕ → Option Str → Type 0
Holds xs none = ⊥
Holds xs (some s) = IsValid s × (text s ≡ xs)

module _ (junk : ℕ) where
  then-Holds :
      (cs : List Call) (n : ℕ) (xs : List ℕ) (o : Option (ℕ × Str))
      → Leaves n xs o
      → ((t : Str) → IsValid t → Holds (meanings cs (text t)) (run junk cs t))
      → Holds (meanings cs xs) (o >>= λ (_, t). run junk cs t)
  then-Holds cs n xs none h next = h
  then-Holds cs n xs (some (r, t)) h next = rw (← h.2) (next t h.0)

  str_cleanup-Leaves : (s : Str) → IsValid s → Leaves 0 [] (some (0, str_cleanup s))
  unfolding str_cleanup
  str_cleanup-Leaves s v =
      (record { block = refl; growth = v.growth; state = inl (refl, refl) }, refl, refl)

  str_append-Leaves :
      (s t : Str)
      → IsValid s
      → t.len ≤ length t.content
      → Leaves (length (text t)) (text s ++ text t) (str_append junk s t)
  unfolding str_append
  str_append-Leaves s t v inside =
      rw (le→leb t.len (length t.content) inside) (chars_append-Leaves junk s (text t) v)

  cstr_append-Leaves :
      (s : Str) (c : List ℕ)
      → IsValid s
      → Leaves (length (upto_nul c)) (text s ++ upto_nul c) (cstr_append junk s c)
  unfolding cstr_append
  cstr_append-Leaves s c v = chars_append-Leaves junk s (upto_nul c) v

  str_set-Leaves :
      (s t : Str)
      → IsValid s
      → t.len ≤ length t.content
      → Leaves (length (text t)) (text t) (str_set junk s t)
  unfolding str_set
  str_set-Leaves s t v inside =
      rw (le→leb t.len (length t.content) inside) (char_set-Leaves junk s (text t) v)

  cstr_set-Leaves :
      (s : Str) (c : List ℕ)
      → IsValid s
      → Leaves (length (upto_nul c)) (upto_nul c) (cstr_set junk s c)
  unfolding cstr_set
  cstr_set-Leaves s c v = char_set-Leaves junk s (upto_nul c) v

  -- Any run of appends, sets and cleanups of a valid string, with arguments whose bytes stand in
  -- their blocks, stays inside the allocated blocks and
  -- ends in a valid string, whose text is what the same run does to a list of bytes.
  pub run-Holds :
      (cs : List Call) (s : Str)
      → IsValid s
      → AllInside cs
      → Holds (meanings cs (text s)) (run junk cs s)
  unfolding run meanings
  run-Holds [] s v k = (v, refl)
  run-Holds (byte c ∷ cs) s v k =
      then-Holds cs _ _ _ (char_append-Leaves junk s c v) (λ t w. run-Holds cs t w k.1)
  run-Holds (bytes b ∷ cs) s v k =
      then-Holds cs _ _ _ (chars_append-Leaves junk s b v) (λ t w. run-Holds cs t w k.1)
  run-Holds (string t ∷ cs) s v k =
      then-Holds cs _ _ _ (str_append-Leaves s t v k.0) (λ t w. run-Holds cs t w k.1)
  run-Holds (cstring c ∷ cs) s v k =
      then-Holds cs _ _ _ (cstr_append-Leaves s c v) (λ t w. run-Holds cs t w k.1)
  run-Holds (replace_string t ∷ cs) s v k =
      then-Holds cs _ _ _ (str_set-Leaves s t v k.0) (λ t w. run-Holds cs t w k.1)
  run-Holds (replace_cstring c ∷ cs) s v k =
      then-Holds cs _ _ _ (cstr_set-Leaves s c v) (λ t w. run-Holds cs t w k.1)
  run-Holds (replace b ∷ cs) s v k =
      then-Holds cs _ _ _ (char_set-Leaves junk s b v) (λ t w. run-Holds cs t w k.1)
  run-Holds (clear ∷ cs) s v k =
      then-Holds cs 0 [] (some (0, str_cleanup s)) (str_cleanup-Leaves s v)
        (λ t w. run-Holds cs t w k.1)
