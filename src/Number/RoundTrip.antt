-- ===== src/Number/RoundTrip.antt =====
-- What the functions of src/datautils.c write is what cf_str_to_uint64 reads.
use cforum_upto.Base.{
  ℕ, zero, suc, ◌+◌, ◌-◌, ◌*◌, ◌/◌, ◌%◌, ◌^◌, ◌<◌, ◌≡◌, ◌≢◌, refl, sym, ap, ◌∙◌, inl, inr, true,
  false, Bool-cases, Option, none, some, List, [], ◌∷◌, ◌++◌, append_assoc, append-nil, ◌==◌,
  if◌then◌else◌, length, take, drop, take-append-drop, length-append, length-take, arith,
}
use cforum_upto.Str.{Str, text, ◌>>=◌}
use cforum_upto.Str.Block.{take_all}
use cforum_upto.Str.Append.{IsValid, Leaves, char_append-Leaves}
use cforum_upto.Number.{isdigit, read_digits, str_to_uint64, push_digits, uint_to_str}
use cforum_upto.Number.Swap.{reverse, swap_loop, swap_loop-reverse}

-- The decimal digits of a number, the lowest first; none for 0.
lows : ℕ → ℕ → List ℕ
lows zero n = []
lows (suc fuel) n = let rest = lows fuel (n / 10) in if n == 0 then [] else (b'0' + n % 10) ∷ rest

read_digits-lows :
    (fuel n : ℕ) (ys : List ℕ)
    → n < fuel
    → n < 2 ^ 64
    → read_digits 0 (reverse (lows fuel n) ++ ys) ≡ read_digits n ys
unfolding lows read_digits
read_digits-lows zero n ys h k = absurd (omega arith)
read_digits-lows (suc fuel) n ys h k = elim (Bool-cases (n == 0)) [
  | inl e ↦ let is : n ≡ 0 = ground arith in rw (e, is) refl
  | inr e ↦
      let pos : 0 < n = ground arith in
      let digit : isdigit (b'0' + n % 10) ≡ true = ground arith in
      let next : (n / 10 * 10 + (b'0' + n % 10) - b'0') % 2 ^ 64 ≡ n = omega arith in
      rw
        (
          e,
          append_assoc (reverse (lows fuel (n / 10))) ((b'0' + n % 10) ∷ []) ys,
          read_digits-lows fuel (n / 10) ((b'0' + n % 10) ∷ ys) (omega arith) (omega arith),
          digit,
          next,
        )
        refl
]

-- A valid string that is not empty: its text, a NUL, and the rest of the block.
IsValid-split :
    (s : Str) → IsValid s → s.len ≢ 0 → (rest : List ℕ) × (s.content ≡ text s ++ 0 ∷ rest)
IsValid-split s v ne = elim v.state [
  | inl (r, l) ↦ absurd (ne l)
  | inr (l, e) ↦ (
    drop (s.len + 1) s.content,
    sym (take-append-drop (s.len + 1) s.content)
        ∙ ap (λ (l : List ℕ). l ++ drop (s.len + 1) s.content) e
        ∙ append_assoc (text s) (0 ∷ []) _,
  )
]

IsValid-join :
    (s : Str) (xs rest : List ℕ)
    → IsValid s
    → length xs ≡ s.len
    → length (xs ++ 0 ∷ rest) ≡ s.reserved
    → IsValid (record s { content = xs ++ 0 ∷ rest }) × (take s.len (xs ++ 0 ∷ rest) ≡ xs)
IsValid-join s xs rest v n size =
    let front : take s.len (xs ++ 0 ∷ rest) ≡ xs = rw (← n) (take_all xs (0 ∷ rest)) in
    let m : length (xs ++ 0 ∷ []) ≡ s.len + 1 = omega (arith, n, length-append xs (0 ∷ [])) in
    let whole : take (s.len + 1) (xs ++ 0 ∷ rest) ≡ xs ++ 0 ∷ [] =
      rw (← m, ← append_assoc xs (0 ∷ []) rest) (take_all (xs ++ 0 ∷ []) rest) in
    (
      record {
        block = size;
        growth = v.growth;
        state = inr (
          omega (arith, n, size, length-append xs (0 ∷ rest)),
          whole ∙ ap (λ (l : List ℕ). l ++ 0 ∷ []) (sym front),
        );
      },
      front,
    )

lows-pos : (n : ℕ) → (n == 0) ≡ false → 0 < length (lows (suc n) n)
unfolding lows
lows-pos n e = rw e (omega arith)

-- What a loop that appends `bytes` to the text `before` and counts them from `i` ends with.
abbrev Pushed : List ℕ → List ℕ → ℕ → Option (Str × ℕ) → Type 0
Pushed before bytes i none = ⊥
Pushed before bytes i (some (t, j)) =
    IsValid t × (j ≡ i + length bytes) × (text t ≡ before ++ bytes)

-- A valid string with the given text.
abbrev pub Writes : List ℕ → Option Str → Type 0
Writes bytes none = ⊥
Writes bytes (some t) = IsValid t × (text t ≡ bytes)

module _ (junk : ℕ) where
  then-Pushed :
      (before : List ℕ) (c : ℕ) (rest : List ℕ) (i : ℕ) (o : Option (ℕ × Str))
      (next : Str → Option (Str × ℕ))
      → Leaves 1 (before ++ c ∷ []) o
      → ((t : Str) → IsValid t → Pushed (text t) rest (i + 1) (next t))
      → Pushed before (c ∷ rest) i (o >>= λ r. next r.1)
  then-Pushed before c rest i none next h k = h
  then-Pushed before c rest i (some (r, t)) next h k = count (next t) (k t h.0)
    where
      count : (o : Option (Str × ℕ)) → Pushed (text t) rest (i + 1) o → Pushed before (c ∷ rest) i o
      count none p = p
      count (some (u, j)) p =
          (p.0, omega (arith, p.1), p.2 ∙ rw (h.2, append_assoc before (c ∷ []) rest) refl)

  push_digits-Pushed :
      (fuel n : ℕ) (s : Str) (i : ℕ)
      → n < fuel
      → IsValid s
      → Pushed (text s) (lows fuel n) i (push_digits junk fuel n s i)
  unfolding push_digits lows
  push_digits-Pushed zero n s i h v = absurd (omega arith)
  push_digits-Pushed (suc fuel) n s i h v = elim (Bool-cases (n == 0)) [
    | inl e ↦ rw e (v, omega arith, rw (append-nil (text s)) refl)
    | inr e ↦
        let pos : 0 < n = ground arith in
        rw e (
          then-Pushed (text s) _ _ i _ (λ t. push_digits junk fuel (n / 10) t (i + 1))
            (char_append-Leaves junk s (b'0' + n % 10) v)
            (λ t w. push_digits-Pushed fuel (n / 10) t (i + 1) (omega arith) w))
  ]

  length-reverse : (xs : List ℕ) → length (reverse xs) ≡ length xs
  length-reverse [] = refl
  length-reverse (x ∷ xs) = omega (arith, length-reverse xs, length-append (reverse xs) (x ∷ []))

  len-split :
      (before ls : List ℕ) (t : Str)
      → IsValid t
      → text t ≡ before ++ ls
      → t.len ≡ length before + length ls
  len-split before ls t v e =
      let l = ap length e ∙ length-append before ls in
      let m = length-take t.len t.content in
      elim v.state [ inl (r, z) ↦ omega (arith, v.block) | inr (z, w) ↦ omega (arith, v.block) ]

  -- The second loop on a string that ends with the bytes `ls`.
  reversed-Writes :
      (before ls : List ℕ) (t : Str)
      → 0 < length ls
      → IsValid t
      → text t ≡ before ++ ls
      → Writes (before ++ reverse ls) (
          swap_loop (length ls) t.content (t.len - length ls) (t.len - 1) >>= λ (c : List ℕ).
          some (record t { content = c }))
  reversed-Writes before ls t pos v e =
      let n = len-split before ls t v e in
      let (rest, whole) = IsValid-split t v (λ z. omega arith) in
      let p : t.len - length ls ≡ length before = omega arith in
      let q : t.len - 1 ≡ length before + length ls - 1 = omega arith in
      let c : t.content ≡ before ++ (ls ++ 0 ∷ rest) =
        whole ∙ rw (e, append_assoc before ls (0 ∷ rest)) refl in
      let done : swap_loop (length ls) t.content (t.len - length ls) (t.len - 1)
          ≡ some ((before ++ reverse ls) ++ 0 ∷ rest) =
        rw (c, p, q, append_assoc before (reverse ls) (0 ∷ rest))
          (swap_loop-reverse (length ls) before ls (0 ∷ rest) (omega arith)) in
      let m = length-append before (reverse ls) ∙ ap (λ k. length before + k) (length-reverse ls) in
      let size = ap length c ∙ length-append before (ls ++ 0 ∷ rest) in
      rw done (
        IsValid-join t (before ++ reverse ls) rest v (omega arith) (
          omega (
            arith,
            v.block,
            length-append (before ++ reverse ls) (0 ∷ rest),
            length-append ls (0 ∷ rest),
          )))

  single-Writes :
      (xs : List ℕ) (o : Option (ℕ × Str)) → Leaves 1 xs o → Writes xs (o >>= λ (_, t). some t)
  single-Writes xs none h = h
  single-Writes xs (some (r, t)) h = (h.0, h.2)

  reverse-Writes :
      (before ls : List ℕ) (o : Option (Str × ℕ))
      → 0 < length ls
      → Pushed before ls 0 o
      → Writes (before ++ reverse ls) (
          o >>= λ (r : Str × ℕ).
          swap_loop r.1 r.0.content (r.0.len - r.1) (r.0.len - 1) >>= λ (c : List ℕ).
          some (record (r.0) { content = c }))
  reverse-Writes before ls none pos h = h
  reverse-Writes before ls (some (t, j)) pos h =
      let is : j ≡ length ls = omega (arith, h.1) in rw is (reversed-Writes before ls t pos h.0 h.2)

  -- Any of the cf_uintN_to_str, on a valid string and a number of at most 64 bits, ends, stays
  -- inside the block and appends digits to the text, from which cf_str_to_uint64 reads the number
  -- back; the string is valid again.
  pub str_to_uint64-uint_to_str :
      (s : Str) (num : ℕ)
      → IsValid s
      → num < 2 ^ 64
      → (ds : List ℕ) × Writes (text s ++ ds) (uint_to_str junk s num) × (str_to_uint64 ds ≡ num)
  unfolding uint_to_str str_to_uint64 read_digits
  str_to_uint64-uint_to_str s num v h = elim (Bool-cases (num == 0)) [
    | inl e ↦
        let is : num ≡ 0 = ground arith in
        (b'0' ∷ [], rw e (single-Writes _ _ (char_append-Leaves junk s b'0' v)), sym is)
    | inr e ↦ (
      reverse (lows (suc num) num),
      rw e (
          reverse-Writes (text s) (lows (suc num) num) _ (lows-pos num e)
            (push_digits-Pushed (suc num) num s 0 (omega arith) v)),
      rw (← append-nil (reverse (lows (suc num) num)))
          (read_digits-lows (suc num) num [] (omega arith) h),
    )
  ]
