-- ===== src/Config/Parser/Cycle.antt =====
-- cf_cfg_parser_insert_node of src/cfgcomp_parser.c for a token of the precedence of the current one.
use cforum_upto.Base.{
  ℕ, zero, suc, ◌<◌, ◌≡◌, ◌≢◌, refl, sym, ap, ◌∙◌, false, Bool-cases, inl, inr, none, some, ltb,
  lt→ltb, ◌==◌, ==_iff, if◌then◌else◌, arith,
}
use cforum_upto.Config.Parser.{
  Cell, Parse, parsed, write, set_left, set_right, set_parent, points_to, replace_below, climb,
  insert_at, insert_behind, insert_node,
}
use cforum_upto.Config.Parser.Insert.{write_here, write_elsewhere}

-- Two tokens that are each other's parent keep the search between them.
climb-cycle :
    (fuel q a b : ℕ) (c : ℕ → Cell)
    → (c a).parent ≡ some b
    → (c b).parent ≡ some a
    → q < (c a).prec
    → q < (c b).prec
    → climb c q (some a) fuel ≡ none
unfolding climb
climb-cycle zero q a b c up down ha hb = refl
climb-cycle (suc fuel) q a b c up down ha hb =
    rw (up, lt→ltb q (c a).prec ha, climb-cycle fuel q b a c down up hb ha) refl

write-prec :
    (a j : ℕ) (e : Cell) (c : ℕ → Cell) → e.prec ≡ (c a).prec → (write a e c j).prec ≡ (c j).prec
write-prec a j e c same = elim (Bool-cases (j == a)) [
  | inl is ↦ rw (is, same, (==_iff j a).0 is) refl
  | inr isnt ↦ rw isnt refl
]

-- The links of the parent, of which only its children change.
abbrev child_set : ℕ → ℕ → ℕ → (ℕ → Cell) → ℕ → Cell
child_set p cur tok c =
    if points_to (c p).left cur then set_left p (some tok) c else set_right p (some tok) c

child_set-prec : (p cur tok j : ℕ) (c : ℕ → Cell) → (child_set p cur tok c j).prec ≡ (c j).prec
child_set-prec p cur tok j c = elim (Bool-cases (points_to (c p).left cur)) [
  | inl left ↦ rw left (write-prec p j (record (c p) { left = some tok }) c refl)
  | inr right ↦ rw right (write-prec p j (record (c p) { right = some tok }) c refl)
]

abbrev swapped : ℕ → ℕ → (ℕ → Cell) → ℕ → Cell
swapped cur tok c =
    set_left tok (some cur) (set_parent cur (some tok) (set_parent tok (some cur) c))

swapped-prec : (cur tok j : ℕ) (c : ℕ → Cell) → (swapped cur tok c j).prec ≡ (c j).prec
swapped-prec cur tok j c =
    let c1 = set_parent tok (some cur) c in
    let c2 = set_parent cur (some tok) c1 in
    write-prec tok j (record (c2 tok) { left = some cur }) c2 refl
    ∙ write-prec cur j (record (c1 cur) { parent = some tok }) c1 refl
    ∙ write-prec tok j (record (c tok) { parent = some cur }) c refl

swapped-parents :
    (cur tok : ℕ) (c : ℕ → Cell)
    → cur ≢ tok
    → ((swapped cur tok c tok).parent ≡ some cur) × ((swapped cur tok c cur).parent ≡ some tok)
swapped-parents cur tok c ne =
    let c1 = set_parent tok (some cur) c in
    let c2 = set_parent cur (some tok) c1 in
    let e = record (c2 tok) { left = some cur } in
    let e1 = record (c1 cur) { parent = some tok } in
    (
      ap (λ x. x.parent) (write_here tok e c2)
          ∙ ap (λ x. x.parent) (write_elsewhere cur tok e1 c1 (λ k. ne (sym k)))
          ∙ ap (λ x. x.parent) (write_here tok (record (c tok) { parent = some cur }) c),
      ap (λ x. x.parent) (write_elsewhere tok cur e c2 ne)
          ∙ ap (λ x. x.parent) (write_here cur e1 c1),
    )

insert_at-equal :
    (fuel cur tok i j p : ℕ) (s : Parse)
    → i ≡ j
    → (s.cells cur).parent ≡ some p
    → insert_at i j cur fuel tok s
      ≡ parsed (record s { cells = swapped cur tok (child_set p cur tok s.cells); cur = some tok })
unfolding insert_at
insert_at-equal fuel cur tok i j p s same up =
    let not_less : ltb i j ≡ false = ground arith in
    rw (not_less, (==_iff i j).1 same) (ap (λ o. replace_below o cur tok s) up)

-- If the current token has a parent, and the new one the precedence of the current one, then the
-- call returns with the two as each other's parent, and for no later token of a lower precedence does
-- the search for a place end, whatever the fuel.
pub insert_node-cycle :
    (fuel cur tok p q : ℕ) (s : Parse)
    → s.cur ≡ some cur
    → (s.cells cur).parent ≡ some p
    → (s.cells cur).prec ≡ (s.cells tok).prec
    → cur ≢ tok
    → q < (s.cells tok).prec
    → (c : ℕ → Cell) × (insert_node fuel tok s ≡ parsed (record s { cells = c; cur = some tok }))
      × ((c cur).parent ≡ some tok)
      × ((c tok).parent ≡ some cur)
      × ((more : ℕ) → climb c q (some tok) more ≡ none)
unfolding insert_node insert_at
insert_node-cycle fuel cur tok p q s is up same ne less =
    let c1 = child_set p cur tok s.cells in
    let c = swapped cur tok c1 in
    let kept : (j : ℕ) → (c j).prec ≡ (s.cells j).prec =
      λ j. swapped-prec cur tok j c1 ∙ child_set-prec p cur tok j s.cells in
    let links = swapped-parents cur tok c1 ne in
    (
      c,
      ap (λ o. insert_behind o fuel tok s) is
          ∙ insert_at-equal fuel cur tok (s.cells cur).prec (s.cells tok).prec p s same up,
      links.1,
      links.0,
      λ more.
          climb-cycle more q tok cur c links.0 links.1 (omega (arith, kept tok))
            (omega (arith, kept cur, same)),
    )
