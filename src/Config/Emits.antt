-- ===== src/Config/Emits.antt =====
-- Steps of the code generator of src/cfgcomp_codegenerator.c: what a piece of code computes, and the
-- register it leaves the value in.
use cforum_upto.Base.{
  ℕ, ◌≤◌, ◌<◌, ◌≡◌, ◌≢◌, refl, sym, ap, ◌∙◌, true, false, Bool-cases, inl, inr, Option, none, some,
  List, [], ◌∷◌, ◌++◌, append_assoc, ◌==◌, ==_iff, ==_false, arith,
}
use cforum_upto.Config.Codegen.{
  Line, register, minus_one, parse_error, Bits, set_used, set_unused, next_unused_register, Gen,
  outside, gen, Emitter, with_unused,
}
use cforum_upto.Config.Registers.{free, SameBits, plus, next_unused_register_lem}
use cforum_upto.Config.Machine.{Machine, Registers, put, namespace, exec_line, exec, exec-append}

module _ {V : Type 0} (M : Machine V) where
  -- The code behind `out` leaves the value in register `r`, which was free and is used now, and
  -- keeps the registers that were used.
  pub record Made (used after : Bits) (out text : List Line) (r : ℕ) (val : Registers M → V)
      : Type 0 where
    pub unused : used r ≡ false
    pub in_range : r < 8
    pub bits : SameBits after (plus used r)
    pub code : List Line
    pub whole : text ≡ out ++ code
    pub computes : (f : Registers M) → exec M code f r ≡ val f
    pub keeps : (f : Registers M) (j : ℕ) → used j ≡ true → exec M code f j ≡ f j

  abbrev pub Good : Bits → List Line → (Registers M → V) → Gen → Type 0
  Good used out val outside = ⊥
  Good used out val (gen (register r) after text) = Made used after out text r val
  Good used out val (gen minus_one after text) = ⊥
  Good used out val (gen parse_error after text) = ⊥

  abbrev pub Holds : Option ℕ → Bits → Type 0
  Holds none used = Unit
  Holds (some r) used = used r ≡ true

  -- With so many free registers, the emitter gives code for the value in the namespace.
  abbrev pub Emits : Emitter → ℕ → Option ℕ → (V → V) → Type 0
  Emits emit needed regarg val =
      (used : Bits) (out : List Line)
      → Holds regarg used
      → needed ≤ free used
      → Good used out (λ f. val (namespace M regarg f)) (emit used out)

  pub set_used-plus : (used : Bits) (r : ℕ) → SameBits (set_used r used) (plus used r)
  set_used-plus used r j = elim (Bool-cases (j == r)) [
    | inl is ↦ rw is (elim (Bool-cases (used j)) [ inl u ↦ rw u refl | inr v ↦ rw v refl ])
    | inr isnt ↦ rw isnt (elim (Bool-cases (used j)) [ inl u ↦ rw u refl | inr v ↦ rw v refl ])
  ]

  pub differs : (used : Bits) (j r : ℕ) → used r ≡ false → used j ≡ true → j ≢ r
  differs used j r unused is same =
      let both : true ≡ false = sym is ∙ ap used same ∙ unused in ground arith

  pub put_at : (r : ℕ) (v : V) (f : Registers M) → put M r v f r ≡ v
  put_at r v f = rw ((==_iff r r).1 refl) refl

  pub put_elsewhere : (r j : ℕ) (v : V) (f : Registers M) → j ≢ r → put M r v f j ≡ f j
  put_elsewhere r j v f ne = rw (==_false j r ne) refl

  leaf-Made :
      (line : ℕ → Line) (regarg : Option ℕ) (val : V → V)
      → ((r : ℕ) (f : Registers M)
          → exec_line M (line r) f ≡ put M r (val (namespace M regarg f)) f)
      → (used : Bits) (out : List Line) (r : ℕ) → used r ≡ false
      → r < 8
      → Made used (set_used r used) out (out ++ line r ∷ []) r (λ f. val (namespace M regarg f))
  unfolding exec
  leaf-Made line regarg val does used out r unused high = record {
    unused = unused;
    in_range = high;
    bits = set_used-plus used r;
    code = line r ∷ [];
    whole = refl;
    computes = λ f. ap (λ (g : Registers M). g r) (does r f) ∙ put_at r _ f;
    keeps = λ f j is.
        ap (λ (g : Registers M). g j) (does r f)
        ∙ put_elsewhere r j _ f (differs used j r unused is);
  }

  -- One line.
  pub leaf-Emits :
      (line : ℕ → Line) (regarg : Option ℕ) (val : V → V)
      → ((r : ℕ) (f : Registers M)
          → exec_line M (line r) f ≡ put M r (val (namespace M regarg f)) f)
      → Emits
          (λ used out.
            with_unused
              (next_unused_register used)
              (λ reg. gen (register reg) (set_used reg used) (out ++ line reg ∷ [])))
          1
          regarg
          val
  leaf-Emits line regarg val does used out holds enough =
      leaf-Good (next_unused_register_lem used enough)
    where
      leaf-Good :
          (r : ℕ) × (next_unused_register used ≡ some r) × (used r ≡ false) × (r < 8)
          → Good used out
              (λ f. val (namespace M regarg f))
              (with_unused
                (next_unused_register used)
                (λ reg. gen (register reg) (set_used reg used) (out ++ line reg ∷ [])))
      leaf-Good (r, found, unused, high) =
          rw found (leaf-Made line regarg val does used out r unused high)

  -- One more line, which writes to the register of the value.
  pub more-Made :
      (used after : Bits) (out text : List Line) (r : ℕ) (val : Registers M → V) (w : V → V)
      (line : Line)
      → ((f : Registers M) → exec_line M line f ≡ put M r (w (f r)) f)
      → Made used after out text r val
      → Made used after out (text ++ line ∷ []) r (λ f. w (val f))
  unfolding exec
  more-Made used after out text r val w line does m = record {
    unused = m.unused;
    in_range = m.in_range;
    bits = m.bits;
    code = m.code ++ line ∷ [];
    whole = ap (λ l. l ++ line ∷ []) m.whole ∙ append_assoc out m.code (line ∷ []);
    computes = λ f.
        ap (λ (g : Registers M). g r) (exec-append M m.code (line ∷ []) f)
        ∙ ap (λ (g : Registers M). g r) (does (exec M m.code f))
        ∙ put_at r _ (exec M m.code f)
        ∙ ap w (m.computes f);
    keeps = λ f j is.
        ap (λ (g : Registers M). g j) (exec-append M m.code (line ∷ []) f)
        ∙ ap (λ (g : Registers M). g j) (does (exec M m.code f))
        ∙ put_elsewhere r j _ (exec M m.code f) (differs used j r m.unused is)
        ∙ m.keeps f j is;
  }

  -- What a line of two registers does: it leaves the value in the second, and writes to no other
  -- register but the first.
  abbrev pub Combines : Line → ℕ → ℕ → (V → V → V) → Type 0
  Combines line a b w =
      (f : Registers M)
      → (exec_line M line f b ≡ w (f a) (f b))
        × ((j : ℕ) → j ≢ a → j ≢ b → exec_line M line f j ≡ f j)

  set_unused-plus :
      (used u1 u2 : Bits) (a b : ℕ)
      → used a ≡ false
      → SameBits u1 (plus used a)
      → SameBits u2 (plus u1 b)
      → a ≢ b
      → SameBits (set_unused a u2) (plus used b)
  set_unused-plus used u1 u2 a b unused s1 s2 ne j = elim (Bool-cases (j == a)) [
    | inl is ↦ let same : j ≡ a = (==_iff j a).0 is in rw (is, same, unused, ==_false a b ne) refl
    | inr isnt ↦
        rw (isnt, s2 j, s1 j, isnt)
          (elim (Bool-cases (used j)) [ inl u ↦ rw u refl | inr v ↦ rw v refl ])
  ]

  namespace-keeps :
      (regarg : Option ℕ) (used : Bits) (f g : Registers M)
      → Holds regarg used
      → ((j : ℕ) → used j ≡ true → g j ≡ f j)
      → namespace M regarg g ≡ namespace M regarg f
  namespace-keeps none used f g holds keeps = refl
  namespace-keeps (some r) used f g holds keeps = keeps r holds

  pub was_used :
      (used u1 : Bits) (a j : ℕ) → SameBits u1 (plus used a) → used j ≡ true → u1 j ≡ true
  was_used used u1 a j s1 is = s1 j ∙ rw is refl

  pub is_used : (used u1 : Bits) (a : ℕ) → SameBits u1 (plus used a) → u1 a ≡ true
  is_used used u1 a s1 =
      s1 a
      ∙ rw ((==_iff a a).1 refl)
          (elim (Bool-cases (used a)) [ inl u ↦ rw u refl | inr v ↦ rw v refl ])

  pub still_unused :
      (used u1 : Bits) (a b : ℕ) → SameBits u1 (plus used a) → u1 b ≡ false → used b ≡ false
  still_unused used u1 a b s1 unused = elim (Bool-cases (used b)) [
    | inl is ↦ absurd (differs u1 b b unused (was_used used u1 a b s1 is) refl)
    | inr isnt ↦ isnt
  ]

  exec-three :
      (xs ys : List Line) (line : Line) (f : Registers M)
      → exec M (xs ++ (ys ++ line ∷ [])) f ≡ exec_line M line (exec M ys (exec M xs f))
  unfolding exec
  exec-three xs ys line f =
      exec-append M xs (ys ++ line ∷ []) f ∙ exec-append M ys (line ∷ []) (exec M xs f)

  module _ (used u1 u2 : Bits) (out o1 o2 : List Line) (a b : ℕ) (regarg : Option ℕ)
      (left right : V → V) (line : Line) (w : V → V → V)
      (m1 : Made used u1 out o1 a (λ f. left (namespace M regarg f)))
      (m2 : Made u1 u2 o1 o2 b (λ f. right (namespace M regarg f))) (holds : Holds regarg used)
      (combines : a ≢ b → Combines line a b w) where
    apart : a ≢ b
    apart same = differs u1 a b m2.unused (is_used used u1 a m1.bits) same

    both_text : o2 ++ line ∷ [] ≡ out ++ (m1.code ++ (m2.code ++ line ∷ []))
    both_text =
        ap (λ l. l ++ line ∷ []) (m2.whole ∙ ap (λ l. l ++ m2.code) m1.whole)
        ∙ append_assoc (out ++ m1.code) m2.code (line ∷ [])
        ∙ append_assoc out m1.code (m2.code ++ line ∷ [])

    both_computes :
        (f : Registers M)
        → exec M (m1.code ++ (m2.code ++ line ∷ [])) f b
          ≡ w (left (namespace M regarg f)) (right (namespace M regarg f))
    both_computes f =
        let f1 = exec M m1.code f in
        let f2 = exec M m2.code f1 in
        let at_a : f2 a ≡ left (namespace M regarg f) =
          m2.keeps f1 a (is_used used u1 a m1.bits) ∙ m1.computes f in
        let at_b : f2 b ≡ right (namespace M regarg f) =
          m2.computes f1 ∙ ap right (namespace-keeps regarg used f f1 holds (m1.keeps f)) in
        ap (λ (g : Registers M). g b) (exec-three m1.code m2.code line f)
        ∙ (combines apart f2).0
        ∙ rw (at_a, at_b) refl

    both_keeps :
        (f : Registers M) (j : ℕ)
        → used j ≡ true
        → exec M (m1.code ++ (m2.code ++ line ∷ [])) f j ≡ f j
    both_keeps f j is =
        let f1 = exec M m1.code f in
        let f2 = exec M m2.code f1 in
        ap (λ (g : Registers M). g j) (exec-three m1.code m2.code line f)
        ∙ (combines apart f2).1 j (differs used j a m1.unused is)
            (differs u1 j b m2.unused (was_used used u1 a j m1.bits is))
        ∙ m2.keeps f1 j (was_used used u1 a j m1.bits is)
        ∙ m1.keeps f j is

    -- The code of both sides, and the line that makes one value of theirs.
    pub pair-Made :
        Made used
          (set_unused a u2)
          out
          (o2 ++ line ∷ [])
          b
          (λ f. w (left (namespace M regarg f)) (right (namespace M regarg f)))
    pair-Made = record {
      unused = still_unused used u1 a b m1.bits m2.unused;
      in_range = m2.in_range;
      bits = set_unused-plus used u1 u2 a b m1.unused m1.bits m2.bits apart;
      code = m1.code ++ (m2.code ++ line ∷ []);
      whole = both_text;
      computes = both_computes;
      keeps = both_keeps;
    }
