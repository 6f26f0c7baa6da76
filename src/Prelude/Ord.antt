-- ===== src/Prelude/Ord.antt =====
-- The bounds `Eq` and `Ord` of the Rust source as instance records, with their laws, and the instances
-- of the native numbers that the examples use.
use Prim.Native.Nat.{ℕ, compare, Ordering}
use Prim.Native.Nat.Ordering.{lt, eq, gt}
use mathlib.Core.Path.{◌≡◌, refl}
use mathlib.Core.Logic.{◌⊎◌, ◌↔◌, inl, inr}
use mathlib.Core.Bool.{Bool, true, false}
use native.Mathlib.Omega.{arith}

-- The bound `Eq`, whose `==` decides equality.
pub record Eq {ℓ} (Atom : Type ℓ) : Type ℓ where
  pub beq : Atom → Atom → Bool
  pub beq_iff : (x y : Atom) → (beq x y ≡ true) ↔ (x ≡ y)

-- `==` is read as `≡`. The two flips say what `cmp` answers when its arguments change places.
pub record Ord {ℓ} (Key : Type ℓ) : Type ℓ where
  pub cmp : Key → Key → Ordering
  pub cmp_trans : (x y z : Key) → cmp x y ≡ lt → cmp y z ≡ lt → cmp x z ≡ lt
  pub flip_lt : (x y : Key) → cmp x y ≡ lt → cmp y x ≡ gt
  pub flip_gt : (x y : Key) → cmp x y ≡ gt → cmp y x ≡ lt
  pub cmp_exact : (x y : Key) → cmp x y ≡ eq → x ≡ y
  pub cmp_self : (x : Key) → cmp x x ≡ eq

pub Ordering-cases : (c : Ordering) → (c ≡ lt) ⊎ ((c ≡ gt) ⊎ (c ≡ eq))
Ordering-cases lt = inl refl
Ordering-cases gt = inr (inl refl)
Ordering-cases eq = inr (inr refl)

infix 50 ◌≺◌
abbrev pub ◌≺◌ {ℓ} : {Key : Type ℓ} ⦃o : Ord Key⦄ → Key → Key → Type 0
◌≺◌ ⦃o⦄ x y = o.cmp x y ≡ lt

unfoldable nat_beq : ℕ → ℕ → Bool
nat_beq a b = elim (compare a b) [ eq ↦ true | _ ↦ false ]

nat_beq_iff : (a b : ℕ) → (nat_beq a b ≡ true) ↔ (a ≡ b)
unfolding nat_beq
nat_beq_iff a b = ground arith

instance unfoldable pub nat_eq : Eq ℕ
unfolding nat_beq nat_beq_iff
nat_eq = record { beq = nat_beq; beq_iff = nat_beq_iff }

compare_trans : (m n p : ℕ) → compare m n ≡ lt → compare n p ≡ lt → compare m p ≡ lt
compare_trans m n p = ground arith

compare_flip_lt : (m n : ℕ) → compare m n ≡ lt → compare n m ≡ gt
compare_flip_lt m n = ground arith

compare_flip_gt : (m n : ℕ) → compare m n ≡ gt → compare n m ≡ lt
compare_flip_gt m n = ground arith

compare_exact : (m n : ℕ) → compare m n ≡ eq → m ≡ n
compare_exact m n = ground arith

compare_self : (m : ℕ) → compare m m ≡ eq
compare_self m = ground arith

instance unfoldable pub nat_ord : Ord ℕ
unfolding compare_trans compare_flip_lt compare_flip_gt compare_exact compare_self
nat_ord = record {
  cmp = compare;
  cmp_trans = compare_trans;
  flip_lt = compare_flip_lt;
  flip_gt = compare_flip_gt;
  cmp_exact = compare_exact;
  cmp_self = compare_self;
}
