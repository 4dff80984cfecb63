-- ===== src/Hash/Reads.antt =====
-- What a table of src/hashlib.c holds, and that the operations act on it as on a finite map.
use native.Mathlib.Nat.{pow-suc, mod-lt, one-le-pow, pow-le-pow_right}
use cforum_upto.Base.{
  ℕ, suc, ◌+◌, ◌-◌, ◌%◌, ◌^◌, ◌≤◌, ◌<◌, ◌≡◌, refl, sym, ap, ◌∙◌, inl, inr, true, false, ◌&&◌,
  Bool-cases, Option, none, some, List, [], ◌∷◌, ◌++◌, leb, ltb, ◌==◌, if◌then◌else◌, arith,
}
use cforum_upto.Hash.{Entry, Table, same_key, cf_hashsize, set_bucket, split, cleared}
use cforum_upto.Hash.Chain.{
  AllHome, AllHome-append, first, count, count-zero, first-append, count-append, or_else,
  eq_of_same_key,
}
use cforum_upto.Hash.Split.{
  keep, moved, halves, split_loop-eq, first-keep, first-moved, count-keep, count-moved,
  keep-AllHome, moved-AllHome,
}

below : (o k : ℕ) → k < o → leb o k ≡ false
below o k h = ground arith

-- The buckets from 0 on are all.
joined :
    {A : Type 0} (o j : ℕ) (f : ℕ → List A → List A) (g : ℕ → List A → List A → List A)
    (tb : ℕ → List A)
    → (if leb 0 j && ltb j (0 + o)
        then f j (if leb o j then [] else tb j)
        else if leb (0 + o) j && ltb j (0 + o + o)
        then g (j - o) (if leb o (j - o) then [] else tb (j - o)) (if leb o j then [] else tb j)
        else if leb o j
        then []
        else tb j)
      ≡ (if ltb j o then f j (tb j) else if ltb j (o + o) then g (j - o) (tb (j - o)) [] else [])
joined o j f g tb = ground arith

or_else-none : {A : Type 0} (o : Option A) → or_else o none ≡ o
or_else-none none = refl
or_else-none (some a) = refl

power_small : (n : ℕ) → n < 32 → 2 ^ n < 2 ^ 32
power_small n h =
    let most : n ≤ 31 = omega arith in
    let two : 0 < 2 = omega arith in
    let le : 2 ^ n ≤ 2 ^ 31 = pow-le-pow_right two most in omega (arith, le)

cf_hashsize-power : (n : ℕ) → n < 32 → cf_hashsize n ≡ 2 ^ n
unfolding cf_hashsize
cf_hashsize-power n h = let less = power_small n h in omega (arith, less)

cf_hashsize-suc : (n : ℕ) → n < 31 → cf_hashsize (suc n) ≡ cf_hashsize n + cf_hashsize n
cf_hashsize-suc n h =
    let one = cf_hashsize-power n (omega arith) in
    let two = cf_hashsize-power (suc n) (omega arith) in omega (arith, one, two, pow-suc 2 n)

cf_hashsize-pos : (n : ℕ) → n < 31 → 0 < cf_hashsize n
cf_hashsize-pos n h =
    let one = cf_hashsize-power n (omega arith) in omega (arith, one, one-le-pow n 2)

module _ (lookup : List ℕ → ℕ) {D : Type 0} where
  -- Every entry stands in the bucket of its key, and no bucket has two entries with one key.
  pub record IsPlaced (n : ℕ) (tb : ℕ → List (Entry D)) : Type 0 where
    pub home : (j : ℕ) → AllHome lookup (cf_hashsize n) j (tb j)
    pub single : (q : List ℕ) (j : ℕ) → count q (tb j) ≤ 1

  abbrev pub reads : ℕ → (ℕ → List (Entry D)) → List ℕ → Option (Entry D)
  reads n tb q = first q (tb (lookup q % cf_hashsize n))

  -- The buckets of a table after it has been doubled.
  module _ (t : Table D) (v : IsPlaced t.tablesize t.buckets) (small : t.tablesize < 31) where
    split-bucket :
        (j : ℕ)
        → split t j ≡ (
            if ltb j (cf_hashsize t.tablesize)
            then keep (cf_hashsize (suc t.tablesize)) j (t.buckets j)
            else if ltb j (cf_hashsize t.tablesize + cf_hashsize t.tablesize)
            then moved
                (cf_hashsize (suc t.tablesize))
                (j - cf_hashsize t.tablesize)
                (t.buckets (j - cf_hashsize t.tablesize))
                []
            else [])
    unfolding split
    split-bucket j =
        let o : ℕ = cf_hashsize t.tablesize in
        let double : cf_hashsize (suc t.tablesize) ≡ o + o = cf_hashsize-suc t.tablesize small in
        let pos : 0 < o = cf_hashsize-pos t.tablesize small in
        split_loop-eq lookup o (cf_hashsize (suc t.tablesize)) pos double o 0 (cleared o t.buckets)
          j (omega arith) (λ k lo hi. rw (below o k hi) (v.home k))
        ∙ joined o j (keep (cf_hashsize (suc t.tablesize))) (moved (cf_hashsize (suc t.tablesize)))
            t.buckets

    pub split-IsPlaced : IsPlaced (suc t.tablesize) (split t)
    unfolding count
    split-IsPlaced =
        let o : ℕ = cf_hashsize t.tablesize in
        let double : cf_hashsize (suc t.tablesize) ≡ o + o = cf_hashsize-suc t.tablesize small in
        let pos : 0 < o = cf_hashsize-pos t.tablesize small in
        record {
          home = λ j. rw (split-bucket j) (elim (Bool-cases (ltb j o)) [
            | inl e ↦ rw e (
                keep-AllHome lookup o (cf_hashsize (suc t.tablesize)) pos double j (t.buckets j)
                  (v.home j))
            | inr e ↦ elim (Bool-cases (ltb j (o + o))) [
              | inl f ↦
                  let up : j - o + o ≡ j = ground arith in
                  rw (e, f)
                    (rw up at (
                      moved-AllHome lookup o (cf_hashsize (suc t.tablesize)) pos double (j - o)
                        (t.buckets (j - o)) [] (v.home (j - o)) tt))
              | inr f ↦ rw (e, f) tt
            ]
          ]);
          single = λ q j. rw (split-bucket j) (
              ground (
                arith,
                count-keep lookup o (cf_hashsize (suc t.tablesize)) pos double q j (t.buckets j),
                count-moved lookup o (cf_hashsize (suc t.tablesize)) pos double q (j - o)
                    (t.buckets (j - o)) [],
                v.single q j,
                v.single q (j - o),
              ));
        }

    pub split-reads :
        (q : List ℕ) → reads (suc t.tablesize) (split t) q ≡ reads t.tablesize t.buckets q
    unfolding first
    split-reads q =
        let o : ℕ = cf_hashsize t.tablesize in
        let i : ℕ = lookup q % o in
        let double : cf_hashsize (suc t.tablesize) ≡ o + o = cf_hashsize-suc t.tablesize small in
        let pos : 0 < o = cf_hashsize-pos t.tablesize small in
        let low : i < o = mod-lt (lookup q) pos in
        rw (split-bucket (lookup q % cf_hashsize (suc t.tablesize)))
          (elim (halves lookup o (cf_hashsize (suc t.tablesize)) pos double (lookup q) i refl) [
            | inl e ↦
                let lower : ltb i o ≡ true = ground arith in
                rw (e, lower)
                  (first-keep lookup o (cf_hashsize (suc t.tablesize)) pos double q i (t.buckets i)
                    (v.home i) e)
            | inr e ↦
                let upper : ltb (i + o) o ≡ false = ground arith in
                let in_range : ltb (i + o) (o + o) ≡ true = ground arith in
                let back : i + o - o ≡ i = omega arith in
                rw (e, upper, in_range, back)
                  (first-moved lookup o (cf_hashsize (suc t.tablesize)) pos double q i (t.buckets i)
                      [] (v.home i) (λ z. omega arith) (v.single q i)
                    ∙ or_else-none (first q (t.buckets i)))
          ])

  pub set_bucket-IsPlaced :
      (n : ℕ) (tb : ℕ → List (Entry D)) (i : ℕ) (b : List (Entry D))
      → IsPlaced n tb
      → AllHome lookup (cf_hashsize n) i b
      → ((q : List ℕ) → count q b ≤ 1)
      → IsPlaced n (set_bucket tb i b)
  set_bucket-IsPlaced n tb i b v home single = record {
    home = λ j. elim (Bool-cases (j == i)) [
      | inl e ↦ let is : j ≡ i = ground arith in rw (e, is) home
      | inr e ↦ rw e (v.home j)
    ];
    single =
        λ q j. elim (Bool-cases (j == i)) [ inl e ↦ rw e (single q) | inr e ↦ rw e (v.single q j) ];
  }

  -- What is found after one bucket, that of the key `k`, has been replaced.
  pub reads-set_bucket :
      (n : ℕ) (tb : ℕ → List (Entry D)) (k q : List ℕ) (b : List (Entry D)) (new : Option (Entry D))
      → ((q : List ℕ)
          → first q b ≡ (if same_key k q then new else first q (tb (lookup k % cf_hashsize n))))
      → reads n (set_bucket tb (lookup k % cf_hashsize n) b) q
        ≡ (if same_key k q then new else reads n tb q)
  reads-set_bucket n tb k q b new h =
      elim (Bool-cases (lookup q % cf_hashsize n == lookup k % cf_hashsize n)) [
        | inl e ↦
            let is : lookup q % cf_hashsize n ≡ lookup k % cf_hashsize n = ground arith in
            rw (e, h q, is) refl
        | inr e ↦ elim (Bool-cases (same_key k q)) [
          | inl s ↦
              let is : k ≡ q = eq_of_same_key k q s in
              absurd (ground (arith, ap (λ a. lookup a % cf_hashsize n) is))
          | inr s ↦ rw (e, s) refl
        ]
      ]

  -- A new entry at the end of its bucket.
  module _ (n : ℕ) (tb : ℕ → List (Entry D)) (e : Entry D) (hv : e.hashval ≡ lookup e.key)
      (v : IsPlaced n tb) (new : reads n tb e.key ≡ none) where
    abbrev pub longer : List (Entry D)
    longer = tb (lookup e.key % cf_hashsize n) ++ e ∷ []

    first-longer :
        (q : List ℕ)
        → first q longer
          ≡ (if same_key e.key q then some e else first q (tb (lookup e.key % cf_hashsize n)))
    unfolding first
    first-longer q = elim (Bool-cases (same_key e.key q)) [
      | inl s ↦
          let is : e.key ≡ q = eq_of_same_key e.key q s in
          let gone : first q (tb (lookup e.key % cf_hashsize n)) ≡ none =
            ap (λ a. first a (tb (lookup e.key % cf_hashsize n))) (sym is) ∙ new in
          rw (first-append, gone, s) refl
      | inr s ↦ rw (first-append, s) (or_else-none _)
    ]

    count-longer : (q : List ℕ) → count q longer ≤ 1
    unfolding count
    count-longer q = elim (Bool-cases (same_key e.key q)) [
      | inl s ↦
          let is : e.key ≡ q = eq_of_same_key e.key q s in
          let gone : count q (tb (lookup e.key % cf_hashsize n)) ≡ 0 =
            ap (λ a. count a (tb (lookup e.key % cf_hashsize n))) (sym is)
            ∙ count-zero e.key _ new in
          rw (count-append, s) (omega arith)
      | inr s ↦ rw (count-append, s) (omega (arith, v.single q (lookup e.key % cf_hashsize n)))
    ]

    pub save-IsPlaced : IsPlaced n (set_bucket tb (lookup e.key % cf_hashsize n) longer)
    save-IsPlaced =
        set_bucket-IsPlaced n tb (lookup e.key % cf_hashsize n) longer v
          (AllHome-append lookup (cf_hashsize n) (lookup e.key % cf_hashsize n) _ _
            (v.home (lookup e.key % cf_hashsize n)) ((hv, ap (λ h. h % cf_hashsize n) hv), tt))
          count-longer

    pub save-reads :
        (q : List ℕ)
        → reads n (set_bucket tb (lookup e.key % cf_hashsize n) longer) q
          ≡ (if same_key e.key q then some e else reads n tb q)
    save-reads q = reads-set_bucket n tb e.key q longer (some e) first-longer
