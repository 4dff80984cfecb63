-- ===== src/Config/Machine.antt =====
-- What the lines of assembler that src/cfgcomp_codegenerator.c writes do to registers, over any
-- values, and the values that expressions stand for.
use cforum_upto.Base.{
  ℕ, suc, ◌≡◌, refl, Option, none, some, List, [], ◌∷◌, ◌++◌, ◌==◌, max, if◌then◌else◌,
}
use cforum_upto.Config.{tok_ident}
use cforum_upto.Config.Codegen.{
  Tree, absent, node, Trees, no_trees, trees, Mnemonic, m_arraysubs, m_arraypush, Line, regs, neg,
  cpy_num, cpy_str, load, array, Shape, two, same, assign, dot, negation, num, ident, array_value,
  bracket, str, dollar, unexpected, shape, arglen,
}

-- The operations of a machine: `op m v w` is what the mnemonic makes of the values of its first and
-- its second register, and goes to the second.
pub record Machine (V : Type 0) : Type 0 where
  pub op : Mnemonic → V → V → V
  pub negate : V → V
  pub number : ℕ → V
  pub text : List ℕ → V
  pub lookup : List ℕ → V → V
  pub global : V
  pub new_array : ℕ → V

module _ {V : Type 0} (M : Machine V) where
  abbrev pub Registers : Type 0
  Registers = ℕ → V

  abbrev pub put : ℕ → V → Registers → Registers
  put r v f j = if j == r then v else f j

  -- The value of the register, or the global namespace.
  abbrev pub namespace : Option ℕ → Registers → V
  namespace none f = M.global
  namespace (some r) f = f r

  abbrev pub exec_line : Line → Registers → Registers
  exec_line (regs m a b) f = put b (M.op m (f a) (f b)) f
  exec_line (neg r) f = put r (M.negate (f r)) f
  exec_line (cpy_num n r) f = put r (M.number n) f
  exec_line (cpy_str s r) f = put r (M.text s) f
  exec_line (load s regarg r) f = put r (M.lookup s (namespace regarg f)) f
  exec_line (array r n) f = put r (M.new_array n) f

  unfoldable pub exec : List Line → Registers → Registers
  exec [] f = f
  exec (l ∷ ls) f = exec ls (exec_line l f)

  pub exec-append : (xs ys : List Line) (f : Registers) → exec (xs ++ ys) f ≡ exec ys (exec xs f)
  unfolding exec
  exec-append [] ys f = refl
  exec-append (x ∷ xs) ys f = exec-append xs ys (exec_line x f)

  abbrev pub name_of : Tree → List ℕ
  name_of absent = []
  name_of (node tok i s l r args) = s

  -- The value of an expression of that shape. A comparison by order has the value of its right
  -- side, since its line writes to the other register.
  abbrev pub evaluate : Shape → ℕ → List ℕ → Tree → ℕ → V → V → V → (V → V) → V
  evaluate (two m) i s rt n ns l r args = M.op m l r
  evaluate (same m) i s rt n ns l r args = r
  evaluate dot i s rt n ns l r args = M.lookup (name_of rt) l
  evaluate negation i s rt n ns l r args = M.negate l
  evaluate num i s rt n ns l r args = M.number i
  evaluate ident i s rt n ns l r args = M.lookup s ns
  evaluate array_value i s rt n ns l r args = args (M.new_array n)
  evaluate bracket i s rt n ns l r args = M.op m_arraysubs l r
  evaluate str i s rt n ns l r args = M.text s
  evaluate assign i s rt n ns l r args = M.global
  evaluate dollar i s rt n ns l r args = M.global
  evaluate unexpected i s rt n ns l r args = M.global

  unfoldable mutual
    pub eval : Tree → V → V
    eval absent ns = M.global
    eval (node tok i s l r args) ns =
        evaluate (shape tok) i s r (arglen args) ns (eval l ns) (eval r ns) (push_values args)

    pub push_values : Trees → V → V
    push_values no_trees v = v
    push_values (trees t ts) v = push_values ts (M.op m_arraypush (eval t M.global) v)

abbrev pub IsName : Tree → Type 0
IsName (node tok_ident i s l r args) = Unit
IsName _ = ⊥

abbrev pub IsShape : Shape → Type 0 → Type 0 → Tree → Type 0 → Type 0
IsShape (two m) left right rt args = left × right
IsShape (same m) left right rt args = left × right
IsShape dot left right rt args = left × IsName rt
IsShape negation left right rt args = left
IsShape num left right rt args = Unit
IsShape ident left right rt args = Unit
IsShape array_value left right rt args = args
IsShape bracket left right rt args = left × right
IsShape str left right rt args = Unit
IsShape assign left right rt args = ⊥
IsShape dollar left right rt args = ⊥
IsShape unexpected left right rt args = ⊥

-- An expression with all its operands, and without an assignment in it.
unfoldable mutual
  pub IsValue : Tree → Type 0
  IsValue absent = ⊥
  IsValue (node tok i s l r args) = IsShape (shape tok) (IsValue l) (IsValue r) r (AreValues args)

  pub AreValues : Trees → Type 0
  AreValues no_trees = Unit
  AreValues (trees t ts) = IsValue t × AreValues ts

abbrev pub need_shape : Shape → ℕ → ℕ → ℕ → ℕ
need_shape (two m) l r args = max l (suc r)
need_shape (same m) l r args = max l (suc r)
need_shape bracket l r args = max l (suc r)
need_shape dot l r args = l
need_shape negation l r args = l
need_shape array_value l r args = suc args
need_shape _ l r args = 1

-- The registers that an expression needs at once.
unfoldable mutual
  pub need : Tree → ℕ
  need absent = 0
  need (node tok i s l r args) = need_shape (shape tok) (need l) (need r) (need_args args)

  pub need_args : Trees → ℕ
  need_args no_trees = 0
  need_args (trees t ts) = max (need t) (need_args ts)
