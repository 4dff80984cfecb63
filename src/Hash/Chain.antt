-- ===== src/Hash/Chain.antt =====
-- One bucket of the hash table of src/hashlib.c, read by keys alone.
use cforum_upto.Base.{
  ℕ, ◌+◌, ◌%◌, ◌≤◌, ◌≡◌, refl, ap, true, Option, none, some, List, [], ◌∷◌, ◌++◌, if◌then◌else◌,
  arith, inl, inr, Bool-cases,
}
use cforum_upto.Hash.{Entry, same_key, matches, find_entry, change_entry, unlink_entry}

pub same_key_self : (xs : List ℕ) → same_key xs xs ≡ true
unfolding same_key
same_key_self [] = refl
same_key_self (x ∷ xs) = ground (arith, same_key_self xs)

pub eq_of_same_key : (xs ys : List ℕ) → same_key xs ys ≡ true → xs ≡ ys
unfolding same_key
eq_of_same_key [] [] h = refl
eq_of_same_key [] (y ∷ ys) h = cc
eq_of_same_key (x ∷ xs) [] h = cc
eq_of_same_key (x ∷ xs) (y ∷ ys) h = ground (arith, eq_of_same_key xs ys)

-- Equal keys compare in the same way with any key.
pub same_key_congr : (a b q : List ℕ) → same_key a b ≡ true → same_key a q ≡ same_key b q
same_key_congr a b q h = rw (eq_of_same_key a b h)

pub same_key_both :
    (a b q : List ℕ) → same_key a q ≡ true → same_key b q ≡ true → same_key a b ≡ true
same_key_both a b q h k = rw (eq_of_same_key a q h, eq_of_same_key b q k) (same_key_self q)

abbrev pub or_else {ℓ} : {A : Type ℓ} → Option A → Option A → Option A
or_else none b = b
or_else (some a) b = some a

module _ {ℓ} {D : Type ℓ} where
  -- The first entry with a key.
  unfoldable pub first : List ℕ → List (Entry D) → Option (Entry D)
  first q [] = none
  first q (e ∷ es) = if same_key e.key q then some e else first q es

  -- How many entries have a key.
  unfoldable pub count : List ℕ → List (Entry D) → ℕ
  count q [] = 0
  count q (e ∷ es) = (if same_key e.key q then 1 else 0) + count q es

  pub first-none : (q : List ℕ) (es : List (Entry D)) → count q es ≡ 0 → first q es ≡ none
  unfolding first count
  first-none q [] h = refl
  first-none q (e ∷ es) h = ground (arith, first-none q es)

  pub count-zero : (q : List ℕ) (es : List (Entry D)) → first q es ≡ none → count q es ≡ 0
  unfolding first count
  count-zero q [] h = refl
  count-zero q (e ∷ es) h = ground (arith, count-zero q es)

  pub first-append :
      (q : List ℕ) (xs ys : List (Entry D)) → first q (xs ++ ys) ≡ or_else (first q xs) (first q ys)
  unfolding first
  first-append q [] ys = refl
  first-append q (e ∷ xs) ys = ground (arith, first-append q xs ys)

  pub count-append :
      (q : List ℕ) (xs ys : List (Entry D)) → count q (xs ++ ys) ≡ count q xs + count q ys
  unfolding count
  count-append q [] ys = omega arith
  count-append q (e ∷ xs) ys = omega (arith, count-append q xs ys)

module _ {ℓ} {D : Type ℓ} (lookup : List ℕ → ℕ) (elems i : ℕ) where
  -- The entry has the hash value of its key, and stands in its bucket.
  abbrev pub IsHome : Entry D → Type 0
  IsHome e = (e.hashval ≡ lookup e.key) × (e.hashval % elems ≡ i)

  abbrev pub AllHome : List (Entry D) → Type 0
  AllHome [] = Unit
  AllHome (e ∷ es) = IsHome e × AllHome es

  pub AllHome-append : (xs ys : List (Entry D)) → AllHome xs → AllHome ys → AllHome (xs ++ ys)
  AllHome-append [] ys h k = k
  AllHome-append (x ∷ xs) ys h k = (h.0, AllHome-append xs ys h.1 k)

  matches-same_key :
      (q : List ℕ) (e : Entry D) → IsHome e → matches (lookup q) q e ≡ same_key e.key q
  matches-same_key q e h = elim (Bool-cases (same_key e.key q)) [
    | inl s ↦ let k = eq_of_same_key e.key q s in ground (arith, ap lookup k)
    | inr s ↦ ground arith
  ]

  pub find_entry-first :
      (q : List ℕ) (es : List (Entry D)) → AllHome es → find_entry (lookup q) q es ≡ first q es
  unfolding find_entry first
  find_entry-first q [] h = refl
  find_entry-first q (e ∷ es) h = rw (matches-same_key q e h.0, find_entry-first q es h.1) refl

  pub change_entry-AllHome :
      (f : Entry D → Entry D) (k : List ℕ) (es : List (Entry D))
      → ((e : Entry D) → ((f e).key ≡ e.key) × ((f e).hashval ≡ e.hashval))
      → AllHome es
      → AllHome (change_entry f (lookup k) k es)
  unfolding change_entry
  change_entry-AllHome f k [] same h = tt
  change_entry-AllHome f k (e ∷ es) same h = elim (Bool-cases (matches (lookup k) k e)) [
    | inl m ↦ rw m ((rw ((same e).0, (same e).1) h.0.0, rw (same e).1 h.0.1), h.1)
    | inr m ↦ rw m (h.0, change_entry-AllHome f k es same h.1)
  ]

  pub first-change_entry :
      (f : Entry D → Entry D) (k q : List ℕ) (es : List (Entry D)) (old : Entry D)
      → ((e : Entry D) → (f e).key ≡ e.key)
      → AllHome es
      → first k es ≡ some old
      → first q (change_entry f (lookup k) k es)
        ≡ (if same_key k q then some (f old) else first q es)
  unfolding first change_entry
  first-change_entry f k q [] old same h found = cc
  first-change_entry f k q (e ∷ es) old same h found = elim (Bool-cases (same_key e.key k)) [
    | inl s ↦
        let here : some e ≡ some old = rw s at found in
        let is : e ≡ old = cc in
        let key : same_key (f e).key q ≡ same_key e.key q = ap (λ a. same_key a q) (same e) in
        rw (matches-same_key k e h.0, s, key, ← is, same_key_congr e.key k q s) (ground arith)
    | inr s ↦
        let later = rw s at found in
        rw (matches-same_key k e h.0, s)
          (ground (arith, first-change_entry f k q es old same h.1 later, same_key_both e.key k q))
  ]

  pub count-change_entry :
      (f : Entry D → Entry D) (k q : List ℕ) (es : List (Entry D))
      → ((e : Entry D) → (f e).key ≡ e.key)
      → count q (change_entry f (lookup k) k es) ≡ count q es
  unfolding count change_entry
  count-change_entry f k q [] same = refl
  count-change_entry f k q (e ∷ es) same =
      ground (arith, same e, ap (λ a. same_key a q) (same e), count-change_entry f k q es same)

  pub unlink_entry-AllHome :
      (k : List ℕ) (es : List (Entry D)) → AllHome es → AllHome (unlink_entry (lookup k) k es)
  unfolding unlink_entry
  unlink_entry-AllHome k [] h = tt
  unlink_entry-AllHome k (e ∷ es) h = elim (Bool-cases (matches (lookup k) k e)) [
    | inl m ↦ rw m h.1
    | inr m ↦ rw m (h.0, unlink_entry-AllHome k es h.1)
  ]

  pub first-unlink_entry :
      (k q : List ℕ) (es : List (Entry D))
      → AllHome es
      → count q es ≤ 1
      → first q (unlink_entry (lookup k) k es) ≡ (if same_key k q then none else first q es)
  unfolding first count unlink_entry
  first-unlink_entry k q [] h one = ground arith
  first-unlink_entry k q (e ∷ es) h one = elim (Bool-cases (same_key e.key k)) [
    | inl s ↦
        rw (matches-same_key k e h.0, s)
          (ground (arith, first-none q es, same_key_congr e.key k q s))
    | inr s ↦
        rw (matches-same_key k e h.0, s)
          (ground (arith, first-unlink_entry k q es h.1, same_key_both e.key k q))
  ]

  pub count-unlink_entry :
      (k q : List ℕ) (es : List (Entry D)) → count q (unlink_entry (lookup k) k es) ≤ count q es
  unfolding count unlink_entry
  count-unlink_entry k q [] = omega arith
  count-unlink_entry k q (e ∷ es) = ground (arith, count-unlink_entry k q es)
