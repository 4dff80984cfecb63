-- ===== src/Tree/Order.antt =====
-- `tree->compare` of src/utils.h, what a caller has to give, and sorted lists under it.
use Prim.Native.Nat.{Ordering}
use Prim.Native.Nat.Ordering.{lt, eq, gt}
use cforum_upto.Base.{◌≡◌, List, [], ◌∷◌, ◌++◌}

-- The sign of `compare(a,b)` is that of an order on the datasets; two datasets with the same key
-- compare as equal.
pub record IsOrder {ℓ} {D : Type ℓ} (compare : D → D → Ordering) : Type ℓ where
  pub gt_of_lt : (a b : D) → compare a b ≡ lt → compare b a ≡ gt
  pub lt_of_gt : (a b : D) → compare a b ≡ gt → compare b a ≡ lt
  pub eq_symm : (a b : D) → compare a b ≡ eq → compare b a ≡ eq
  pub lt_trans : (a b c : D) → compare a b ≡ lt → compare b c ≡ lt → compare a c ≡ lt
  pub congr : (a b c : D) → compare a b ≡ eq → compare a c ≡ compare b c

abbrev pub All {ℓ κ} : {A : Type ℓ} → (A → Type κ) → List A → Type κ
All P [] = Unit
All P (x ∷ xs) = P x × All P xs

pub All-imp {ℓ κ μ} :
    {A : Type ℓ} {P : A → Type κ} {Q : A → Type μ} (xs : List A)
    → ((a : A) → P a → Q a)
    → All P xs
    → All Q xs
All-imp [] f h = tt
All-imp (x ∷ xs) f h = (f x h.0, All-imp xs f h.1)

pub All-append_left {ℓ κ} :
    {A : Type ℓ} (P : A → Type κ) (xs ys : List A) → All P (xs ++ ys) → All P xs
All-append_left P [] ys h = tt
All-append_left P (x ∷ xs) ys h = (h.0, All-append_left P xs ys h.1)

pub All-append_right {ℓ κ} :
    {A : Type ℓ} (P : A → Type κ) (xs ys : List A) → All P (xs ++ ys) → All P ys
All-append_right P [] ys h = h
All-append_right P (x ∷ xs) ys h = All-append_right P xs ys h.1

module _ {ℓ} {D : Type ℓ} (compare : D → D → Ordering) where
  abbrev pub IsSorted : List D → Type ℓ
  IsSorted [] = Unit
  IsSorted (x ∷ xs) = All (λ y. compare x y ≡ lt) xs × IsSorted xs

  pub IsSorted-left : (xs ys : List D) → IsSorted (xs ++ ys) → IsSorted xs
  IsSorted-left [] ys h = tt
  IsSorted-left (x ∷ xs) ys h = (All-append_left _ xs ys h.0, IsSorted-left xs ys h.1)

  pub IsSorted-right : (xs ys : List D) → IsSorted (xs ++ ys) → IsSorted ys
  IsSorted-right [] ys h = h
  IsSorted-right (x ∷ xs) ys h = IsSorted-right xs ys h.1

  -- What stands before `x` in a sorted list is smaller.
  pub IsSorted-before :
      (xs : List D) (x : D) (ys : List D) → IsSorted (xs ++ x ∷ ys) → All (λ y. compare y x ≡ lt) xs
  IsSorted-before [] x ys h = tt
  IsSorted-before (y ∷ xs) x ys h =
      ((All-append_right _ xs (x ∷ ys) h.0).0, IsSorted-before xs x ys h.1)

module _ {ℓ} {D : Type ℓ} {compare : D → D → Ordering} (o : IsOrder compare) where
  -- A key above `x` is above all that stands before `x`, and so is a key equal to `x`.
  pub gt_before :
      (d x : D) (xs : List D)
      → compare d x ≡ gt
      → All (λ y. compare y x ≡ lt) xs
      → All (λ y. compare d y ≡ gt) xs
  gt_before d x xs h = All-imp xs λ y p. o.gt_of_lt y d (o.lt_trans y x d p (o.lt_of_gt d x h))

  pub eq_before :
      (d x : D) (xs : List D)
      → compare d x ≡ eq
      → All (λ y. compare y x ≡ lt) xs
      → All (λ y. compare d y ≡ gt) xs
  eq_before d x xs h = All-imp xs λ y p. rw (o.congr d x y h) (o.gt_of_lt y x p)
