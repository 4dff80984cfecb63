-- ===== src/Message/Build.antt =====
-- cf_msg_build_hierarchical_structure of src/messageutils.c.
use mathlib.Core.Path.{subst}
use cforum_upto.Base.{
  ℕ, zero, suc, ◌*◌, ◌≤◌, ◌<◌, ◌≡◌, refl, sym, ap, ◌∙◌, ◌⊎◌, inl, inr, true, Bool-cases, Option,
  none, some, List, [], ◌∷◌, ◌++◌, append-nil, append_assoc, ltb, ◌==◌, ==_iff, if◌then◌else◌,
  length, arith,
}
use cforum_upto.Message.{Message, Node, Nodes, node, nil, cons}
use cforum_upto.Message.Thread.{IsThread, IsThread-le, IsThread-push, IsThread-set_last}
use cforum_upto.Message.Hierarchy.{
  push, last_child, set_last, preorder_all, preorder_all-push_leaf, preorder_all-set_last,
}

-- The loop `while(m)` on the children of one parent at one level: the children, and the messages
-- from the returned pointer on. `none` is a missing last child, or the end of the fuel.
abbrev pub Built : Type 0
Built = Option (Nodes Message × List Message)

-- The call for the messages below the last child, and what follows it.
abbrev pub descend :
    (Nodes Message → Built)
    → (Nodes Message → List Message → Built)
    → Nodes Message
    → Option (Node Message)
    → Built
descend below after kids none = none
descend below after kids (some (node m cs)) = elim (below cs) [
  | none ↦ none
  | some (ds, rest) ↦ after (set_last kids (node m ds)) rest
]

unfoldable pub build_loop : ℕ → ℕ → Nodes Message → List Message → Built
build_loop zero lvl kids ms = none
build_loop (suc fuel) lvl kids [] = some (kids, [])
build_loop (suc fuel) lvl kids (m ∷ ms) =
    let same = build_loop fuel lvl (push kids (node m nil)) ms in
    let deeper =
      descend (λ cs. build_loop fuel m.level cs (m ∷ ms)) (λ cs rest. build_loop fuel lvl cs rest)
        kids (last_child kids) in
    if m.level == lvl then same else if ltb lvl m.level then deeper else some (kids, m ∷ ms)

-- The function for a parent with the children `kids` and the messages from `m` on.
unfoldable pub build_hierarchical_structure : Nodes Message → Message → List Message → Built
unfolding build_loop
build_hierarchical_structure kids m ms = build_loop (2 * length (m ∷ ms)) m.level kids (m ∷ ms)

-- The messages from the returned pointer on start under the level of the children.
abbrev pub Stops : ℕ → List Message → Type 0
Stops lvl [] = Unit
Stops lvl (r ∷ rest) = r.level < lvl

-- How many messages the loop leaves at most: it takes the first if that is at its level.
abbrev left_over : ℕ → List Message → ℕ
left_over lvl [] = 0
left_over lvl (m ∷ ms) = if m.level == lvl then length ms else suc (length ms)

-- The loop ended; it put the messages `taken` behind those of the tree, in their order.
record Took (lvl : ℕ) (kids : Nodes Message) (ms : List Message) (n : ℕ) (ds : Nodes Message)
    (rest : List Message) : Type 0 where
  taken : List Message
  tree : preorder_all ds ≡ preorder_all kids ++ taken
  split : taken ++ rest ≡ ms
  stops : Stops lvl rest
  thread : IsThread lvl ds
  size : length rest ≤ n

abbrev Holds : ℕ → Nodes Message → List Message → ℕ → Built → Type 0
Holds lvl kids ms n none = ⊥
Holds lvl kids ms n (some (ds, rest)) = Took lvl kids ms n ds rest

-- There is a last child of level `lvl`, and a child of level `l` may be put behind its own.
abbrev IsOpen : ℕ → ℕ → Nodes Message → Type 0
IsOpen lvl l kids =
    (c : Message) × (cs : Nodes Message) × (last_child kids ≡ some (node c cs))
    × (c.level ≡ lvl)
    × IsThread l cs

-- The loop may go down at once only if there is a child already.
abbrev Ready : ℕ → ℕ → Nodes Message → List Message → Type 0
Ready fuel lvl kids [] = 0 < fuel
Ready fuel lvl kids (m ∷ ms) =
    ((m.level ≡ lvl) × (2 * length (m ∷ ms) ≤ fuel))
    ⊎ (IsOpen lvl m.level kids × (2 * length (m ∷ ms) < fuel))

left_over-le : (lvl : ℕ) (ms : List Message) → left_over lvl ms ≤ length ms
left_over-le lvl [] = omega arith
left_over-le lvl (m ∷ ms) = ground arith

last_child-push : (kids : Nodes Message) (n : Node Message) → last_child (push kids n) ≡ some n
last_child-push nil n = refl
last_child-push (cons c nil) n = refl
last_child-push (cons c (cons d ds)) n = last_child-push (cons d ds) n

last_child-set_last :
    (kids : Nodes Message) (c n : Node Message)
    → last_child kids ≡ some c
    → last_child (set_last kids n) ≡ some n
last_child-set_last nil c n e = cc
last_child-set_last (cons d nil) c n e = refl
last_child-set_last (cons d (cons b nil)) c n e = refl
last_child-set_last (cons d (cons b (cons a as'))) c n e =
    last_child-set_last (cons b (cons a as')) c n e

-- A round that took `xs`, and then the loop.
Holds-after :
    (lvl : ℕ) (kids kids' : Nodes Message) (xs ms ms' : List Message) (n n' : ℕ) (o : Built)
    → preorder_all kids' ≡ preorder_all kids ++ xs
    → xs ++ ms' ≡ ms
    → n' ≤ n
    → Holds lvl kids' ms' n' o
    → Holds lvl kids ms n o
Holds-after lvl kids kids' xs ms ms' n n' none t s l h = h
Holds-after lvl kids kids' xs ms ms' n n' (some (ds, rest)) t s l h = record {
  taken = xs ++ h.taken;
  tree = h.tree ∙ rw t (append_assoc (preorder_all kids) xs h.taken);
  split = append_assoc xs h.taken rest ∙ rw (h.split) s;
  stops = h.stops;
  thread = h.thread;
  size = let e = h.size in omega arith;
}

-- The next message may be put behind the children `cs`.
abbrev Room : Nodes Message → List Message → Type 0
Room cs [] = Unit
Room cs (m ∷ ms) = IsThread m.level cs

Room-Stops :
    (lvl : ℕ) (cs : Nodes Message) (ms : List Message) → IsThread lvl cs → Stops lvl ms → Room cs ms
Room-Stops lvl cs [] t s = tt
Room-Stops lvl cs (m ∷ ms) t s = IsThread-le lvl m.level cs (omega arith) t

Ready-again :
    (fuel lvl : ℕ) (kids : Nodes Message) (c : Message) (cs : Nodes Message) (ms : List Message)
    → last_child kids ≡ some (node c cs)
    → c.level ≡ lvl
    → Room cs ms
    → 2 * length ms < fuel
    → Ready fuel lvl kids ms
Ready-again fuel lvl kids c cs [] e l r h = omega arith
Ready-again fuel lvl kids c cs (m ∷ ms) e l r h = inr ((c, cs, e, l, r), h)

-- The messages below the last child are put behind it, and the loop goes on.
descend-Holds :
    (fuel lvl : ℕ) (kids cs : Nodes Message) (m0 : Message) (ms : List Message) (n : ℕ) (o : Built)
    → last_child kids ≡ some (node m0 cs)
    → m0.level ≡ lvl
    → IsThread lvl kids
    → 2 * n < fuel
    → (k : ℕ) → lvl < k
    → Holds k cs ms n o
    → ((ds : Nodes Message) (rest : List Message)
        → IsThread lvl ds
        → Ready fuel lvl ds rest
        → Holds lvl ds rest (left_over lvl rest) (build_loop fuel lvl ds rest))
    → (p : ℕ) → n ≤ p
    → Holds lvl kids ms p (elim o [
      | none ↦ none
      | some (ds, rest) ↦ build_loop fuel lvl (set_last kids (node m0 ds)) rest
    ])
descend-Holds fuel lvl kids cs m0 ms n none e same t f k deep h go p l = h
descend-Holds fuel lvl kids cs m0 ms n (some (ds, rest)) e same t f k deep h go p l =
    let below = IsThread-le k (suc m0.level) ds (omega arith) h.thread in
    Holds-after lvl kids (set_last kids (node m0 ds)) h.taken ms rest p _ _
      (preorder_all-set_last kids m0 cs ds h.taken e h.tree) h.split
      (let b = h.size in omega (arith, left_over-le lvl rest))
      (go _ rest (IsThread-set_last lvl kids m0 cs ds e below t) (
        Ready-again fuel lvl (set_last kids (node m0 ds)) m0 ds rest
          (last_child-set_last kids _ _ e) same (Room-Stops k ds rest h.thread h.stops)
          (let b = h.size in omega arith)))

build_loop-Holds :
    (fuel lvl : ℕ) (kids : Nodes Message) (ms : List Message)
    → IsThread lvl kids
    → Ready fuel lvl kids ms
    → Holds lvl kids ms (left_over lvl ms) (build_loop fuel lvl kids ms)
unfolding build_loop
build_loop-Holds zero lvl kids [] t h = absurd (omega arith)
build_loop-Holds zero lvl kids (m ∷ ms) t h = absurd (omega arith)
build_loop-Holds (suc fuel) lvl kids [] t h = record {
  taken = [];
  tree = sym (append-nil _);
  split = refl;
  stops = tt;
  thread = t;
  size = omega arith;
}
build_loop-Holds (suc fuel) lvl kids (m ∷ ms) t h = elim (Bool-cases (m.level == lvl)) [
  | inl e ↦
      let is : m.level ≡ lvl = (==_iff m.level lvl).0 e in
      let pushed : IsThread lvl (push kids (node m nil)) =
        subst (λ l. IsThread l (push kids (node m nil))) is
          (IsThread-push m kids (subst (λ l. IsThread l kids) (sym is) t)) in
      rw e (
        Holds-after lvl kids (push kids (node m nil)) (m ∷ []) (m ∷ ms) ms _ _ _
          (preorder_all-push_leaf kids m) refl (left_over-le lvl ms)
          (build_loop-Holds fuel lvl (push kids (node m nil)) ms pushed (
            Ready-again fuel lvl (push kids (node m nil)) m nil ms
              (last_child-push kids (node m nil)) is (Room-nil ms) (omega arith))))
  | inr e ↦ rw e (elim (Bool-cases (ltb lvl m.level)) [
    | inl d ↦ rw d (elim h [
      | inl (is, _) ↦ ground arith
      | inr ((m0, cs, e0, l, room), size) ↦ rw e0 (
          descend-Holds fuel lvl kids cs m0 (m ∷ ms) (length ms) _ e0 l t (ground arith) m.level
            (ground arith)
            (rw (same m) at
              (build_loop-Holds fuel m.level cs (m ∷ ms) room (inl (refl, ground arith))))
            (build_loop-Holds fuel lvl) _ (omega arith))
    ])
    | inr d ↦ rw d (record {
      taken = [];
      tree = sym (append-nil _);
      split = refl;
      stops = ground arith;
      thread = t;
      size = omega arith;
    })
  ])
]
  where
    same : (m : Message) → (m.level == m.level) ≡ true
    same m = ground arith

    Room-nil : (ms : List Message) → Room nil ms
    Room-nil [] = tt
    Room-nil (m ∷ ms) = tt

-- If the parent has no children, or a thread of the level of the first message and higher ones, then
-- the function ends, and does not miss a last child, for every list of messages and levels. The
-- tree holds the messages before the returned one behind those it had, in their order; each has a
-- level above that of its parent, and not above that of the sibling before it. The returned message
-- has a level under that of the first.
pub build_hierarchical_structure_lem :
    (kids : Nodes Message) (m : Message) (ms : List Message)
    → IsThread m.level kids
    → (ds : Nodes Message) × (rest : List Message) × (build_hierarchical_structure kids m ms
        ≡ some (ds, rest))
      × (preorder_all ds ++ rest ≡ preorder_all kids ++ m ∷ ms)
      × IsThread m.level ds
      × Stops m.level rest
unfolding build_hierarchical_structure
build_hierarchical_structure_lem kids m ms t =
    result _
      (build_loop-Holds (2 * length (m ∷ ms)) m.level kids (m ∷ ms) t (inl (refl, omega arith)))
  where
    result :
        (o : Built)
        → Holds m.level kids (m ∷ ms) (left_over m.level (m ∷ ms)) o
        → (ds : Nodes Message) × (rest : List Message) × (o ≡ some (ds, rest))
          × (preorder_all ds ++ rest ≡ preorder_all kids ++ m ∷ ms)
          × IsThread m.level ds
          × Stops m.level rest
    result none h = absurd h
    result (some (ds, rest)) h = (
      ds,
      rest,
      refl,
      rw (h.tree) (
          append_assoc (preorder_all kids) h.taken rest ∙ ap (λ l. preorder_all kids ++ l) h.split),
      h.thread,
      h.stops,
    )
