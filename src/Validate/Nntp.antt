-- ===== src/Validate/Nntp.antt =====
-- is_valid_nntp_link of src/validate.c.
use cforum_upto.Base.{
  ℕ, ◌≡◌, ◌≢◌, refl, sym, ap, ◌∙◌, inl, inr, ◌↔◌, Bool, true, not, ◌||◌, Bool-cases, Option, none,
  some, List, [], ◌∷◌, ◌++◌, ◌==◌, ==_iff, ==_false, if◌then◌else◌, arith,
}
use cforum_upto.Str.{◌>>=◌}
use cforum_upto.Str.Equal.{first, IsCstring}
use cforum_upto.Validate.{
  isdigit, isalpha, isalnum, one_of, after_scheme, is_valid_hostname, host, optional, expect, valid,
}
use cforum_upto.Validate.Grammar.{valid_bind, none-some, some-injective}
use cforum_upto.Validate.Authority.{after_scheme_lem, Outside, host-Describes}

abbrev pub nntp_scheme : List ℕ
nntp_scheme = b'n' ∷ b'n' ∷ b't' ∷ b'p' ∷ b':' ∷ b'/' ∷ b'/' ∷ []

unfoldable pub slash : ℕ → Bool
unfolding one_of
slash = one_of (b'/' ∷ [])

unfoldable pub in_group : ℕ → Bool
unfolding isalnum one_of
in_group c = isalnum c || one_of (b'-' ∷ b'.' ∷ b'+' ∷ b'_' ∷ []) c

-- `if(!isalpha(*ptr)) return -1;`
unfoldable pub letter : List ℕ → Option (List ℕ)
unfolding isalpha
letter s = if isalpha (first s) then some s else none

-- The loop over the name of the group.
unfoldable pub group_loop : List ℕ → Option (List ℕ)
unfolding in_group
group_loop [] = some []
group_loop (c ∷ cs) =
    let on = group_loop cs in if c == b'/' then some (c ∷ cs) else if in_group c then on else none

-- The loop over the number of the article, which starts at the slash before it.
unfoldable pub number_loop : List ℕ → Option (List ℕ)
unfolding isdigit
number_loop [] = some []
number_loop (c ∷ cs) = let on = number_loop cs in if isdigit c then on else none

-- What follows the scheme: the host name ends at the first slash, which has to be there.
unfoldable pub nntp_rest : (List ℕ → Option (List ℕ)) → List ℕ → Option (List ℕ)
unfolding host slash letter group_loop number_loop
nntp_rest idna s = host idna slash s >>= λ s1.
    expect b'/' s1 >>= λ s2. letter s2 >>= λ s3. group_loop s3 >>= optional b'/' number_loop

unfoldable pub is_valid_nntp_link : (List ℕ → Option (List ℕ)) → List ℕ → Bool
unfolding nntp_rest
is_valid_nntp_link idna link = valid (after_scheme nntp_scheme link >>= nntp_rest idna)

-- The name of a group: a letter, and then bytes of the class.
abbrev pub Group : List ℕ → Type 0
Group g = (isalpha (first g) ≡ true) × Outside (λ c. not (in_group c)) g

-- An article number is refused, since its loop meets the slash first.
group_iff :
    (s : List ℕ)
    → (valid (group_loop s >>= optional b'/' number_loop) ≡ true)
      ↔ Outside (λ c. not (in_group c)) s
unfolding group_loop number_loop in_group isalnum isalpha isdigit one_of
group_iff [] = (λ _. tt, λ _. refl)
group_iff (c ∷ cs) = elim (Bool-cases (c == b'/')) [
  | inl is ↦
      rw ((==_iff c b'/').0 is) (λ k. absurd (ground arith), λ h. absurd (ground (arith, h.0)))
  | inr isnt ↦ elim (Bool-cases (in_group c)) [
    | inl member ↦ rw (isnt, member) (λ k. (refl, (group_iff cs).0 k), λ h. (group_iff cs).1 h.1)
    | inr other ↦ rw (isnt, other) (λ k. absurd (ground arith), λ h. absurd (ground (arith, h.0)))
  ]
]

-- What follows the host name and its slash.
abbrev group_part : List ℕ → Option (List ℕ)
group_part s2 = letter s2 >>= λ s3. group_loop s3 >>= optional b'/' number_loop

rest_iff : (s : List ℕ) → (valid (group_part s) ≡ true) ↔ Group s
unfolding letter
rest_iff s = elim (Bool-cases (isalpha (first s))) [
  | inl is ↦ rw is (λ k. (refl, (group_iff s).0 k), λ h. (group_iff s).1 h.1)
  | inr isnt ↦ rw isnt (λ k. absurd (ground arith), λ h. absurd (ground (arith, h.0)))
]

expect_eq : (c : ℕ) (s r : List ℕ) → c ≢ 0 → expect c s ≡ some r → s ≡ c ∷ r
expect_eq c [] r nz e =
    absurd
      (none-some (sym (ap (λ b. if b then some [] else none) (==_false 0 c (λ k. nz (sym k)))) ∙ e))
expect_eq c (x ∷ xs) r nz e = elim (Bool-cases (x == c)) [
  | inl is ↦
      rw ((==_iff x c).0 is, some-injective (sym (ap (λ b. if b then some xs else none) is) ∙ e))
        refl
  | inr isnt ↦ absurd (none-some (sym (ap (λ b. if b then some xs else none) isnt) ∙ e))
]

-- What a valid link is: no article can follow the group.
abbrev pub NntpLink : (List ℕ → Option (List ℕ)) → List ℕ → Type 0
NntpLink idna link =
    (name : List ℕ) × (group : List ℕ) × (link ≡ nntp_scheme ++ name ++ b'/' ∷ group)
    × Outside slash name
    × (is_valid_hostname idna name ≡ true)
    × Group group

-- is_valid_nntp_link accepts a link exactly if it is made up of `nntp://`, a host name without a
-- slash that is_valid_hostname accepts, a slash, and a group of letters, digits, `-`, `.`, `+` and
-- `_` that begins with a letter: no link with an article number behind the group is accepted.
pub is_valid_nntp_link_iff :
    (idna : List ℕ → Option (List ℕ)) (link : List ℕ)
    → IsCstring link
    → (is_valid_nntp_link idna link ≡ true) ↔ NntpLink idna link
unfolding is_valid_nntp_link nntp_rest slash one_of
is_valid_nntp_link_iff idna link k = (
  λ e.
      let (s, begin, e1) = (valid_bind (after_scheme nntp_scheme link) (nntp_rest idna)).0 e in
      let (s1, at_host, e2) =
        (valid_bind (host idna slash s) (λ s1. expect b'/' s1 >>= group_part)).0 e1 in
      let (s2, at_slash, e3) = (valid_bind (expect b'/' s1) group_part).0 e2 in
      let (name, parts, outside, begins, is) = (host-Describes idna slash s s1).0 at_host in
      let whole = (after_scheme_lem nntp_scheme link s (ground arith) k (omega arith)).0 begin in
      let behind = parts ∙ ap (λ l. name ++ l) (expect_eq b'/' s1 s2 (omega arith) at_slash) in
      (name, s2, whole ∙ ap (λ l. nntp_scheme ++ l) behind, outside, is, (rest_iff s2).0 e3),
  λ (name, group, e, outside, is, g).
      let begin =
        (after_scheme_lem nntp_scheme link (name ++ b'/' ∷ group) (ground arith) k (omega arith)).1
          e in
      let at_host =
        (host-Describes idna slash (name ++ b'/' ∷ group) (b'/' ∷ group)).1
          (name, refl, outside, refl, is) in
      rw (begin, at_host) ((rest_iff group).1 g),
)
