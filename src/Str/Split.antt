-- ===== src/Str/Split.antt =====
-- cf_split and cf_nsplit of src/stringutils.c. A string is the list of its bytes before the NUL; a
-- place in it is a number. `[]` stands for the empty string at the end. The block of the list of
-- parts, which grows when it is full, is not in the model.
pub mod Loop
pub mod Unique
use cforum_upto.Base.{
  ℕ, zero, suc, ◌+◌, ◌-◌, ◌≤◌, ◌<◌, ◌≡◌, ◌≢◌, ◌⊎◌, ◌↔◌, refl, sym, ap, ◌∙◌, Bool, true, false,
  Bool-cases, inl, inr, Option, none, some, List, [], ◌∷◌, ◌++◌, leb, le→leb, ◌==◌, ==_iff,
  ==_false, if◌then◌else◌, length, take, drop, length-append, append_assoc, arith,
}
use mathlib.Core.Path.{subst, ap₂}

abbrev pub begins_with : List ℕ → List ℕ → Bool
begins_with [] s = true
begins_with (c ∷ cs) [] = false
begins_with (c ∷ cs) (x ∷ xs) = let rest = begins_with cs xs in if c == x then rest else false

abbrev pub one_more : Option ℕ → Option ℕ
one_more none = none
one_more (some n) = some (suc n)

-- How far the first place where `small` stands is.
unfoldable pub strstr : List ℕ → List ℕ → Option ℕ
strstr small [] = if begins_with small [] then some 0 else none
strstr small (x ∷ xs) =
    let rest = one_more (strstr small xs) in if begins_with small (x ∷ xs) then some 0 else rest

-- `strdup(pre)` while there is a NUL at `pos`.
abbrev pub part : List ℕ → ℕ → ℕ → List ℕ
part big pre pos = if leb pre pos then take (pos - pre) (drop pre big) else drop pre big

-- `if(len + 1 == max) break;` of cf_nsplit; cf_split has no such number.
abbrev pub reached : Option ℕ → ℕ → Bool
reached none len = false
reached (some max) len = len + 1 == max

-- `if(len + 1 <= max)`.
abbrev pub last_fits : Option ℕ → ℕ → Bool
last_fits none len = true
last_fits (some max) len = leb (len + 1) max

abbrev pub put_first : List ℕ → Option (List (List ℕ)) → Option (List (List ℕ))
put_first x none = none
put_first x (some xs) = some (x ∷ xs)

-- The part behind the loop.
abbrev pub last_part : Option ℕ → ℕ → List ℕ → ℕ → List (List ℕ)
last_part max len big pre = if last_fits max len then drop pre big ∷ [] else []

-- A round of the loop after strstr; `again` is the rest of the loop, from the place that was found.
abbrev pub split_round :
    Option ℕ
    → Option ℕ
    → List ℕ
    → List ℕ
    → ℕ
    → ℕ
    → ℕ
    → (ℕ → Option (List (List ℕ)))
    → Option (List (List ℕ))
split_round none max big small pos pre len again = some (last_part max len big pre)
split_round (some k) max big small pos pre len again =
    let at = pos + k in
    let rest = again at in
    let stopped = some (last_part max (len + 1) big (at + length small)) in
    put_first (part big pre at) (if reached max (len + 1) then stopped else rest)

-- The loop, with `len` parts in the list, on fuel.
unfoldable pub split_parts : ℕ → Option ℕ → List ℕ → List ℕ → ℕ → ℕ → ℕ → Option (List (List ℕ))
unfolding strstr
split_parts zero max big small pos pre len = none
split_parts (suc fuel) max big small pos pre len =
    split_round (strstr small (drop pos big)) max big small pos pre len
      (λ at. split_parts fuel max big small (at + 1) (at + length small) (len + 1))

-- cf_split.
abbrev pub split_string : List ℕ → List ℕ → Option (List (List ℕ))
split_string big small = split_parts (length big + 1) none big small 0 0 0

-- cf_nsplit.
abbrev pub nsplit_string : List ℕ → List ℕ → ℕ → Option (List (List ℕ))
nsplit_string big small max = split_parts (length big + 1) (some max) big small 0 0 0

abbrev pub Without : ℕ → List ℕ → Type 0
Without c [] = Unit
Without c (x ∷ xs) = (x ≢ c) × Without c xs

-- The parts with the separator between them.
abbrev pub join : ℕ → List ℕ → List (List ℕ) → List ℕ
join c x [] = x
join c x (y ∷ ys) = x ++ c ∷ join c y ys

-- `x` may be the last part, as number `n`: it is without the separator, or it is number `max`.
abbrev pub Last : Option ℕ → ℕ → ℕ → List ℕ → Type 0
Last none c n x = Without c x
Last (some max) c n x = (n ≤ max) × (Without c x ⊎ (n ≡ max))

-- The parts `x` and `xs`, of which `x` has the number `n`.
abbrev pub Parts : Option ℕ → ℕ → ℕ → List ℕ → List (List ℕ) → Type 0
Parts max c n x [] = Last max c n x
Parts max c n x (y ∷ ys) = Without c x × Parts max c (n + 1) y ys

-- A list of parts that gives the string back.
abbrev pub Splits : ℕ → Option ℕ → ℕ → List ℕ → Option (List (List ℕ)) → Type 0
Splits c max len s r =
    (x : List ℕ) × (xs : List (List ℕ)) × (r ≡ some (x ∷ xs))
    × (join c x xs ≡ s)
    × Parts max c (len + 1) x xs
