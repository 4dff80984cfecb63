-- ===== src/Config/Arrays.antt =====
-- Arrays in the code generator of src/cfgcomp_codegenerator.c: their arguments are pushed in turn.
use cforum_upto.Base.{
  ℕ, suc, ◌≤◌, ◌<◌, ◌≡◌, ◌≢◌, refl, sym, ap, ◌∙◌, true, false, Bool-cases, inl, inr, Option, some,
  List, [], ◌∷◌, ◌++◌, append_assoc, append-nil, ◌==◌, ==_iff, arith,
}
use cforum_upto.Config.Codegen.{
  m_arraypush, Line, regs, array, register, minus_one, parse_error, Bits, set_used, set_unused,
  next_unused_register, Gen, outside, gen, Emitter, with_unused, push_arg,
}
use cforum_upto.Config.Registers.{
  free, SameBits, plus, free-plus, free-SameBits, next_unused_register_lem,
}
use cforum_upto.Config.Machine.{Machine, Registers, put, exec_line, exec, exec-append}
use cforum_upto.Config.Emits.{Made, Good, Emits, put_at, put_elsewhere, differs, set_used-plus}

module _ {V : Type 0} (M : Machine V) where
  -- The code behind `out` pushes to register `r`, and leaves the other registers that are used and
  -- the bits.
  pub record Pushed (used after : Bits) (out text : List Line) (r : ℕ) (push : V → V) : Type 0 where
    pub bits : SameBits after used
    pub code : List Line
    pub whole : text ≡ out ++ code
    pub pushes : (f : Registers M) → exec M code f r ≡ push (f r)
    pub keeps : (f : Registers M) (j : ℕ) → used j ≡ true → j ≢ r → exec M code f j ≡ f j

  abbrev pub ArgsGood : Bits → List Line → ℕ → (V → V) → Gen → Type 0
  ArgsGood used out r push outside = ⊥
  ArgsGood used out r push (gen (register k) after text) =
      (k ≡ r) × Pushed used after out text r push
  ArgsGood used out r push (gen minus_one after text) = ⊥
  ArgsGood used out r push (gen parse_error after text) = ⊥

  abbrev pub ArgsEmit : (ℕ → Emitter) → ℕ → (V → V) → Type 0
  ArgsEmit emit needed push =
      (used : Bits) (out : List Line) (r : ℕ)
      → used r ≡ true
      → needed ≤ free used
      → ArgsGood used out r push (emit r used out)

  pub no_trees-ArgsEmit : ArgsEmit (λ reg used out. gen (register reg) used out) 0 (λ v. v)
  unfolding exec
  no_trees-ArgsEmit used out r is enough = (
    refl,
    record {
      bits = λ j. refl;
      code = [];
      whole = sym (append-nil out);
      pushes = λ f. refl;
      keeps = λ f j u ne. refl;
    },
  )

  freed-SameBits :
      (used after : Bits) (b : ℕ)
      → used b ≡ false
      → SameBits after (plus used b)
      → SameBits (set_unused b after) used
  freed-SameBits used after b unused s j = elim (Bool-cases (j == b)) [
    | inl is ↦ let same : j ≡ b = (==_iff j b).0 is in rw (is, same, unused) refl
    | inr isnt ↦
        rw (isnt, s j, isnt) (elim (Bool-cases (used j)) [ inl u ↦ rw u refl | inr v ↦ rw v refl ])
  ]

  module _ (used u1 u2 : Bits) (out o1 o2 : List Line) (b r : ℕ) (v : V) (push : V → V)
      (is : used r ≡ true) (m : Made M used u1 out o1 b (λ f. v))
      (p : Pushed (set_unused b u1) u2 (o1 ++ regs m_arraypush b r ∷ []) o2 r push) where
    freed : SameBits (set_unused b u1) used
    freed = freed-SameBits used u1 b m.unused m.bits

    first_code : Registers M → Registers M
    first_code f = exec_line M (regs m_arraypush b r) (exec M m.code f)

    exec-first :
        (f : Registers M)
        → exec M (m.code ++ regs m_arraypush b r ∷ p.code) f ≡ exec M p.code (first_code f)
    unfolding exec first_code
    exec-first f = exec-append M m.code (regs m_arraypush b r ∷ p.code) f

    pub push-Pushed : Pushed used u2 out o2 r (λ w. push (M.op m_arraypush v w))
    unfolding first_code
    push-Pushed = record {
      bits = λ j. p.bits j ∙ freed j;
      code = m.code ++ regs m_arraypush b r ∷ p.code;
      whole =
          p.whole
          ∙ append_assoc o1 (regs m_arraypush b r ∷ []) p.code
          ∙ ap (λ l. l ++ regs m_arraypush b r ∷ p.code) m.whole
          ∙ append_assoc out m.code (regs m_arraypush b r ∷ p.code);
      pushes = λ f.
          ap (λ (g : Registers M). g r) (exec-first f)
          ∙ p.pushes (first_code f)
          ∙ ap push (put_at M r _ (exec M m.code f) ∙ rw (m.computes f, m.keeps f r is) refl);
      keeps = λ f j u ne.
          ap (λ (g : Registers M). g j) (exec-first f)
          ∙ p.keeps (first_code f) j (freed j ∙ u) ne
          ∙ put_elsewhere M r j _ (exec M m.code f) ne
          ∙ m.keeps f j u;
    }

  rest-ArgsGood :
      (used u1 : Bits) (out o1 : List Line) (b r : ℕ) (v : V) (push : V → V) (o : Gen)
      → used r ≡ true
      → Made M used u1 out o1 b (λ f. v)
      → ArgsGood (set_unused b u1) (o1 ++ regs m_arraypush b r ∷ []) r push o
      → ArgsGood used out r (λ w. push (M.op m_arraypush v w)) o
  rest-ArgsGood used u1 out o1 b r v push outside is m g = absurd g
  rest-ArgsGood used u1 out o1 b r v push (gen minus_one u2 o2) is m g = absurd g
  rest-ArgsGood used u1 out o1 b r v push (gen parse_error u2 o2) is m g = absurd g
  rest-ArgsGood used u1 out o1 b r v push (gen (register k) u2 o2) is m g =
      (g.0, push-Pushed used u1 u2 out o1 o2 b r v push is m g.1)

  pub push_arg-ArgsGood :
      (used : Bits) (out : List Line) (r n : ℕ) (v : V) (push : V → V) (more : Emitter) (o : Gen)
      → used r ≡ true
      → n ≤ free used
      → ((u : Bits) (t : List Line) → u r ≡ true → n ≤ free u → ArgsGood u t r push (more u t))
      → Good M used out (λ f. v) o
      → ArgsGood used out r (λ w. push (M.op m_arraypush v w)) (push_arg r o more)
  push_arg-ArgsGood used out r n v push more outside is enough e g = absurd g
  push_arg-ArgsGood used out r n v push more (gen minus_one u1 o1) is enough e g = absurd g
  push_arg-ArgsGood used out r n v push more (gen parse_error u1 o1) is enough e g = absurd g
  push_arg-ArgsGood used out r n v push more (gen (register b) u1 o1) is enough e g =
      let freed_bits = freed-SameBits used u1 b g.unused g.bits in
      let as_free = free-SameBits (set_unused b u1) used freed_bits in
      rest-ArgsGood used u1 out o1 b r v push
        (more (set_unused b u1) (o1 ++ regs m_arraypush b r ∷ [])) is g
        (e (set_unused b u1) (o1 ++ regs m_arraypush b r ∷ []) (freed_bits r ∙ is) (omega arith))

  module _ (used : Bits) (out : List Line) (r n : ℕ) (push : V → V) (unused : used r ≡ false)
      (high : r < 8) where
    Pushed-Made :
        (after : Bits) (text : List Line)
        → Pushed (set_used r used) after (out ++ array r n ∷ []) text r push
        → Made M used after out text r (λ f. push (M.new_array n))
    unfolding exec
    Pushed-Made after text p = record {
      unused = unused;
      in_range = high;
      bits = λ j. p.bits j ∙ set_used-plus M used r j;
      code = array r n ∷ p.code;
      whole = p.whole ∙ append_assoc out (array r n ∷ []) p.code;
      computes = λ f. p.pushes (put M r (M.new_array n) f) ∙ ap push (put_at M r _ f);
      keeps = λ f j is.
          let ne = differs M used j r unused is in
          p.keeps (put M r (M.new_array n) f) j (set_used-plus M used r j ∙ rw is refl) ne
          ∙ put_elsewhere M r j _ f ne;
    }

    ArgsGood-Good :
        (o : Gen)
        → ArgsGood (set_used r used) (out ++ array r n ∷ []) r push o
        → Good M used out (λ f. push (M.new_array n)) o
    ArgsGood-Good outside g = g
    ArgsGood-Good (gen minus_one u t) g = g
    ArgsGood-Good (gen parse_error u t) g = g
    ArgsGood-Good (gen (register k) u t) g = rw (g.0) (Pushed-Made u t g.1)

  pub array-Emits :
      (n k : ℕ) (emit : ℕ → Emitter) (regarg : Option ℕ) (push : V → V)
      → ArgsEmit emit k push
      → Emits M
          (λ used out.
            with_unused
              (next_unused_register used)
              (λ reg. emit reg (set_used reg used) (out ++ array reg n ∷ [])))
          (suc k)
          regarg
          (λ ns. push (M.new_array n))
  array-Emits n k emit regarg push e used out h enough =
      found_Good (next_unused_register_lem used (omega arith))
    where
      found_Good :
          (r : ℕ) × (next_unused_register used ≡ some r) × (used r ≡ false) × (r < 8)
          → Good M used out
              (λ f. push (M.new_array n))
              (with_unused
                (next_unused_register used)
                (λ reg. emit reg (set_used reg used) (out ++ array reg n ∷ [])))
      found_Good (r, found, unused, high) =
          let left : free used ≡ suc (free (set_used r used)) =
            free-plus used r unused high
            ∙ ap suc
                (sym (free-SameBits (set_used r used) (plus used r) (set_used-plus M used r))) in
          let now_used : set_used r used r ≡ true = rw ((==_iff r r).1 refl) refl in
          rw found (
            ArgsGood-Good used out r n push unused high
              (emit r (set_used r used) (out ++ array r n ∷ []))
              (e (set_used r used) (out ++ array r n ∷ []) r now_used (omega arith)))
