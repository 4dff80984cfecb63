-- ===== src/Hash/Split.antt =====
-- _cf_hash_split of src/hashlib.c: the buckets after the table has been doubled.
use native.Mathlib.Nat.{add-mul-mod_self_left, mod-add-div, mod-lt, mod-eq_of_lt, mod-eq-sub-mod}
use cforum_upto.Base.{
  ℕ, zero, suc, ◌+◌, ◌-◌, ◌*◌, ◌/◌, ◌%◌, ◌≤◌, ◌<◌, ◌≡◌, ◌≢◌, refl, sym, ap, ◌∙◌, ◌⊎◌, inl, inr,
  true, false, ◌&&◌, Bool-cases, List, [], ◌∷◌, ◌++◌, append-nil, append_assoc, leb, ltb, ltb→lt,
  ◌==◌, ==_iff, if◌then◌else◌, arith,
}
use cforum_upto.Hash.{Entry, same_key, set_bucket, split_bucket, split_loop}
use cforum_upto.Hash.Chain.{AllHome, first, count, first-none, or_else, eq_of_same_key}

module _ {ℓ} {D : Type ℓ} where
  -- The entries of bucket `i` that stay there in a table of `elems` buckets, and those that go,
  -- put before `acc` one after the other.
  unfoldable pub keep : ℕ → ℕ → List (Entry D) → List (Entry D)
  keep elems i [] = []
  keep elems i (e ∷ es) = if e.hashval % elems == i then e ∷ keep elems i es else keep elems i es

  unfoldable pub moved : ℕ → ℕ → List (Entry D) → List (Entry D) → List (Entry D)
  moved elems i [] acc = acc
  moved elems i (e ∷ es) acc = moved elems i es (if e.hashval % elems == i then acc else e ∷ acc)

-- A table of `elems` buckets, twice as many as the `o` before.
module _ (lookup : List ℕ → ℕ) (o elems : ℕ) (pos : 0 < o) (double : elems ≡ o + o) where
  pub halves : (h i : ℕ) → h % o ≡ i → (h % elems ≡ i) ⊎ (h % elems ≡ i + o)
  halves h i is =
      let a : ℕ = h % elems in
      let q : ℕ = h / elems in
      let twice : elems * q ≡ o * (q + q) = rw double (grind arith) in
      let whole : a + o * (q + q) ≡ h = omega (arith, mod-add-div h elems) in
      let same : a % o ≡ i = sym (add-mul-mod_self_left a o (q + q)) ∙ ap (λ k. k % o) whole ∙ is in
      let small : a < elems = mod-lt h (omega arith) in
      elim (Bool-cases (ltb a o)) [
        | inl l ↦ inl (sym (mod-eq_of_lt (ltb→lt a o l)) ∙ same)
        | inr g ↦
            let high : o ≤ a = ground arith in
            let less : (a - o) % o ≡ a - o = mod-eq_of_lt (omega arith) in
            let shift = mod-eq-sub-mod high in inr (omega arith)
      ]

  module _ {D : Type 0} where
    split_bucket-eq :
        (i : ℕ) (kept es : List (Entry D)) (tb : ℕ → List (Entry D)) (j : ℕ)
        → AllHome lookup o i es
        → split_bucket elems i kept es tb j ≡ (
            if j == i
            then kept ++ keep elems i es
            else if j == i + o
            then moved elems i es (tb (i + o))
            else tb j)
    unfolding split_bucket keep moved
    split_bucket-eq i kept [] tb j h = rw (append-nil kept) (ground arith)
    split_bucket-eq i kept (e ∷ es) tb j h = elim (Bool-cases (e.hashval % elems == i)) [
      | inl s ↦
          rw (s, split_bucket-eq i (kept ++ e ∷ []) es tb j h.1, append_assoc kept (e ∷ [])) refl
      | inr s ↦
          let home : e.hashval % elems ≡ i + o = ground (arith, halves e.hashval i h.0.1) in
          let tb' = set_bucket tb (e.hashval % elems) (e ∷ tb (e.hashval % elems)) in
          rw (s, split_bucket-eq i kept es tb' j h.1, home) (ground arith)
    ]

    -- Bucket `i` and then the others are all of them.
    merge :
        (rounds i : ℕ) (tb : ℕ → List (Entry D)) (j : ℕ)
        → i + suc rounds ≤ o
        → (if leb (i + 1) j && ltb j (i + 1 + rounds)
            then keep elems j (
                if j == i
                then keep elems i (tb i)
                else if j == i + o
                then moved elems i (tb i) (tb (i + o))
                else tb j)
            else if leb (i + 1 + o) j && ltb j (i + 1 + o + rounds)
            then moved elems
                (j - o)
                (if j - o == i
                  then keep elems i (tb i)
                  else if j - o == i + o
                  then moved elems i (tb i) (tb (i + o))
                  else tb (j - o))
                (if j == i
                  then keep elems i (tb i)
                  else if j == i + o
                  then moved elems i (tb i) (tb (i + o))
                  else tb j)
            else if j == i
            then keep elems i (tb i)
            else if j == i + o
            then moved elems i (tb i) (tb (i + o))
            else tb j)
          ≡ (if leb i j && ltb j (i + suc rounds)
              then keep elems j (tb j)
              else if leb (i + o) j && ltb j (i + o + suc rounds)
              then moved elems (j - o) (tb (j - o)) (tb j)
              else tb j)
    merge rounds i tb j fits = elim (Bool-cases (j == i)) [
      | inl e ↦ let is : j ≡ i = ground arith in rw is (ground arith)
      | inr e ↦ elim (Bool-cases (j == i + o)) [
        | inl f ↦
            let is : j ≡ i + o = ground arith in
            let back : i + o - o ≡ i = omega arith in rw (is, back) (ground arith)
        | inr f ↦ rw (e, f) (ground arith)
      ]
    ]

    pub split_loop-eq :
        (rounds i : ℕ) (tb : ℕ → List (Entry D)) (j : ℕ)
        → i + rounds ≤ o
        → ((k : ℕ) → i ≤ k → k < o → AllHome lookup o k (tb k))
        → split_loop elems rounds i tb j ≡ (
            if leb i j && ltb j (i + rounds)
            then keep elems j (tb j)
            else if leb (i + o) j && ltb j (i + o + rounds)
            then moved elems (j - o) (tb (j - o)) (tb j)
            else tb j)
    unfolding split_loop
    split_loop-eq zero i tb j fits h = ground arith
    split_loop-eq (suc rounds) i tb j fits h =
        let one = λ (k : ℕ). split_bucket-eq i [] (tb i) tb k (h i (omega arith) (omega arith)) in
        let later =
          split_loop-eq rounds (i + 1) (split_bucket elems i [] (tb i) tb) j (omega arith)
            (λ k lo hi.
              let same : split_bucket elems i [] (tb i) tb k ≡ tb k = one k ∙ ground arith in
              rw same (h k (omega arith) hi)) in
        later ∙ rw (one j, one (j - o)) (merge rounds i tb j fits)

    -- Where a key is looked up in the doubled table, it reads as before.
    pub first-keep :
        (q : List ℕ) (i : ℕ) (es : List (Entry D))
        → AllHome lookup o i es
        → lookup q % elems ≡ i
        → first q (keep elems i es) ≡ first q es
    unfolding first keep
    first-keep q i [] h is = refl
    first-keep q i (e ∷ es) h is = elim (Bool-cases (same_key e.key q)) [
      | inl s ↦
          let hv : e.hashval ≡ lookup q = h.0.0 ∙ ap lookup (eq_of_same_key e.key q s) in
          let stays : (e.hashval % elems == i) ≡ true = (==_iff _ _).1 (rw hv is) in rw (stays, s)
      | inr s ↦ ground (arith, first-keep q i es h.1 is)
    ]

    pub first-moved :
        (q : List ℕ) (i : ℕ) (es acc : List (Entry D))
        → AllHome lookup o i es
        → lookup q % elems ≢ i
        → count q es ≤ 1
        → first q (moved elems i es acc) ≡ or_else (first q es) (first q acc)
    unfolding first moved count
    first-moved q i [] acc h ne one = refl
    first-moved q i (e ∷ es) acc h ne one = elim (Bool-cases (same_key e.key q)) [
      | inl s ↦
          let hv : e.hashval ≡ lookup q = h.0.0 ∙ ap lookup (eq_of_same_key e.key q s) in
          let goes : (e.hashval % elems == i) ≡ false = ground (arith, ap (λ k. k % elems) hv) in
          let none_left = first-none q es (ground arith) in
          rw (goes, first-moved q i es (e ∷ acc) h.1 ne (ground arith), s, none_left) refl
      | inr s ↦ elim (Bool-cases (e.hashval % elems == i)) [
        | inl k ↦ rw (k, first-moved q i es acc h.1 ne (ground arith), s) refl
        | inr k ↦ rw (k, first-moved q i es (e ∷ acc) h.1 ne (ground arith), s) refl
      ]
    ]

    pub count-keep :
        (q : List ℕ) (i : ℕ) (es : List (Entry D)) → count q (keep elems i es) ≤ count q es
    unfolding count keep
    count-keep q i [] = omega arith
    count-keep q i (e ∷ es) = ground (arith, count-keep q i es)

    pub count-moved :
        (q : List ℕ) (i : ℕ) (es acc : List (Entry D))
        → count q (moved elems i es acc) ≤ count q es + count q acc
    unfolding count moved
    count-moved q i [] acc = omega arith
    count-moved q i (e ∷ es) acc =
        ground (arith, count-moved q i es acc, count-moved q i es (e ∷ acc))

    pub keep-AllHome :
        (i : ℕ) (es : List (Entry D))
        → AllHome lookup o i es
        → AllHome lookup elems i (keep elems i es)
    unfolding keep
    keep-AllHome i [] h = tt
    keep-AllHome i (e ∷ es) h = elim (Bool-cases (e.hashval % elems == i)) [
      | inl k ↦ rw k ((h.0.0, (==_iff _ _).0 k), keep-AllHome i es h.1)
      | inr k ↦ rw k (keep-AllHome i es h.1)
    ]

    pub moved-AllHome :
        (i : ℕ) (es acc : List (Entry D))
        → AllHome lookup o i es
        → AllHome lookup elems (i + o) acc
        → AllHome lookup elems (i + o) (moved elems i es acc)
    unfolding moved
    moved-AllHome i [] acc h k = k
    moved-AllHome i (e ∷ es) acc h k = elim (Bool-cases (e.hashval % elems == i)) [
      | inl s ↦ rw s (moved-AllHome i es acc h.1 k)
      | inr s ↦
          let home : e.hashval % elems ≡ i + o = ground (arith, halves e.hashval i h.0.1) in
          rw s (moved-AllHome i es (e ∷ acc) h.1 ((h.0.0, home), k))
    ]
