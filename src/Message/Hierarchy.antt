-- ===== src/Message/Hierarchy.antt =====
-- Operations on the trees of src/messageutils.c that the functions share.
use cforum_upto.Base.{◌≡◌, Option, none, some, List, [], ◌∷◌, ◌++◌, append-nil, append_assoc}
use cforum_upto.Message.{Node, Nodes, node, nil, cons}

module _ {M : Type 0} where
  abbrev pub msg : Node M → M
  msg (node m cs) = m

  abbrev pub childs : Node M → Nodes M
  childs (node m cs) = cs

  -- cf_array_push on `childs`.
  abbrev pub push : Nodes M → Node M → Nodes M
  push nil n = cons n nil
  push (cons c cs) n = cons c (push cs n)

  -- cf_array_element_at of the last index: `none` is the NULL of an empty array.
  abbrev pub last_child : Nodes M → Option (Node M)
  last_child nil = none
  last_child (cons c nil) = some c
  last_child (cons c (cons d ds)) = last_child (cons d ds)

  -- The array after a change through the pointer to its last element.
  abbrev pub set_last : Nodes M → Node M → Nodes M
  set_last nil n = nil
  set_last (cons c nil) n = cons n nil
  set_last (cons c (cons d ds)) n = cons c (set_last (cons d ds) n)

-- The messages from the top down, each before its answers.
unfoldable mutual
  pub preorder : {M : Type 0} → Node M → List M
  preorder (node m cs) = m ∷ preorder_all cs

  pub preorder_all : {M : Type 0} → Nodes M → List M
  preorder_all nil = []
  preorder_all (cons c cs) = preorder c ++ preorder_all cs

module _ {M : Type 0} where
  pub preorder_all-push :
      (cs : Nodes M) (n : Node M) → preorder_all (push cs n) ≡ preorder_all cs ++ preorder n
  unfolding preorder
  preorder_all-push nil n = append-nil (preorder n)
  preorder_all-push (cons c cs) n = simp (preorder_all-push cs n, append_assoc)

  pub preorder_all-push_leaf :
      (cs : Nodes M) (m : M) → preorder_all (push cs (node m nil)) ≡ preorder_all cs ++ m ∷ []
  unfolding preorder
  preorder_all-push_leaf cs m = preorder_all-push cs (node m nil)

  -- What is put behind the last child is put behind all.
  pub preorder_all-set_last :
      (cs : Nodes M) (m : M) (ds es : Nodes M) (xs : List M)
      → last_child cs ≡ some (node m ds)
      → preorder_all es ≡ preorder_all ds ++ xs
      → preorder_all (set_last cs (node m es)) ≡ preorder_all cs ++ xs
  unfolding preorder
  preorder_all-set_last nil m ds es xs e h = cc
  preorder_all-set_last (cons c nil) m ds es xs e h =
      let is : c ≡ node m ds = cc in simp (is, h, append-nil, append_assoc)
  preorder_all-set_last (cons c (cons d cs)) m ds es xs e h =
      rw (preorder_all-set_last (cons d cs) m ds es xs e h, ← append_assoc (preorder c))
