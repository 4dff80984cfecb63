-- ===== src/Message/Thread.antt =====
-- The shape of the threads that cf_msg_build_hierarchical_structure of src/messageutils.c builds.
use cforum_upto.Base.{ℕ, suc, ◌≤◌, ◌≡◌, ap, some, arith}
use cforum_upto.Message.{Message, Nodes, node, nil, cons}
use cforum_upto.Message.Hierarchy.{push, last_child, set_last}

-- The level of the next child, if there is one, is not above that of `m`.
abbrev pub IsNext : Message → Nodes Message → Type 0
IsNext m nil = Unit
IsNext m (cons (node n cs) rest) = n.level ≤ m.level

-- The children have levels from `low` on, which do not grow from one to the next, and each has
-- children of higher levels than its own.
abbrev pub IsThread : ℕ → Nodes Message → Type 0
IsThread low nil = Unit
IsThread low (cons (node m cs) rest) =
    (low ≤ m.level) × IsThread (suc m.level) cs × IsNext m rest × IsThread low rest

pub IsThread-le :
    (low lower : ℕ) (cs : Nodes Message) → lower ≤ low → IsThread low cs → IsThread lower cs
IsThread-le low lower nil h t = tt
IsThread-le low lower (cons (node m cs) rest) h (le, below, next, others) =
    (omega arith, below, next, IsThread-le low lower rest h others)

pub IsThread-push :
    (m : Message) (cs : Nodes Message)
    → IsThread m.level cs
    → IsThread m.level (push cs (node m nil))
IsThread-push m nil t = (omega arith, tt, tt, tt)
IsThread-push m (cons (node d es) nil) (le, below, next, others) =
    (le, below, le, IsThread-push m nil tt)
IsThread-push m (cons (node d es) (cons (node c fs) cs)) (le, below, next, others) =
    (le, below, next, IsThread-push m (cons (node c fs) cs) others)

pub IsThread-set_last :
    (low : ℕ) (cs : Nodes Message) (m : Message) (old new : Nodes Message)
    → last_child cs ≡ some (node m old)
    → IsThread (suc m.level) new
    → IsThread low cs
    → IsThread low (set_last cs (node m new))
IsThread-set_last low nil m old new e h t = tt
IsThread-set_last low (cons (node d es) nil) m old new e h (le, below, next, others) =
    let same : d ≡ m = cc in
    let is : d.level ≡ m.level = ap (λ (n : Message). n.level) same in (omega arith, h, tt, tt)
IsThread-set_last low (cons (node d es) (cons (node b fs) nil)) m old new e h
      (le, below, next, others) =
    let same : b ≡ m = cc in
    let is : b.level ≡ m.level = ap (λ (n : Message). n.level) same in
    (le, below, omega arith, IsThread-set_last low (cons (node b fs) nil) m old new e h others)
IsThread-set_last low (cons (node d es) (cons (node b fs) (cons a as'))) m old new e h
      (le, below, next, others) =
    (le, below, next, IsThread-set_last low (cons (node b fs) (cons a as')) m old new e h others)
