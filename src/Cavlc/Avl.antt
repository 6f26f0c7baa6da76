-- ===== src/Cavlc/Avl.antt =====
-- crates/cavlc/src/avl.rs: ordered maps with path-copying AVL updates.
pub mod Entries
pub mod Shape
pub mod Laws
use Prim.Native.Nat.Ordering.{lt, eq, gt}
use lug.Prelude.{
  ℕ, zero, suc, ◌+◌, max, Bool, true, false, Option, none, some, List, [], ◌∷◌, ltb, if◌then◌else◌,
}
use lug.Prelude.Ord.{Ord}
use lug.Cavlc.Value.{Value, Tree, leaf, node}

module _ {ℓ} {K : Type ℓ} {A : Type ℓ} where
  abbrev pub height : Tree K A → ℕ
  height leaf = 0
  height (node k v l r h s) = h

  abbrev pub size : Tree K A → ℕ
  size leaf = 0
  size (node k v l r h s) = s

  -- The function `node`: it computes the cached fields.
  abbrev pub make : K → Value K A → Tree K A → Tree K A → Tree K A
  make k v l r = node k v l r (1 + max (height l) (height r)) (1 + size l + size r)

  -- The first clause is the `expect`: `balance` calls this only on a node with a right child.
  unfoldable pub rotate_left : K → Value K A → Tree K A → Tree K A → Tree K A
  rotate_left k v l leaf = make k v l leaf
  rotate_left k v l (node rk rv rl rr rh rs) = make rk rv (make k v l rl) rr

  unfoldable pub rotate_right : K → Value K A → Tree K A → Tree K A → Tree K A
  rotate_right k v leaf r = make k v leaf r
  rotate_right k v (node lk lv ll lr lh ls) r = make lk lv ll (make k v lr r)

  -- `balance` where the left side is too high. A leaf has height 0, so it never gets here.
  unfoldable pub balance_left : K → Value K A → Tree K A → Tree K A → Tree K A
  unfolding rotate_left rotate_right
  balance_left k v leaf r = make k v leaf r
  balance_left k v (node lk lv ll lr lh ls) r =
      if ltb (height ll) (height lr)
      then rotate_right k v (rotate_left lk lv ll lr) r
      else rotate_right k v (node lk lv ll lr lh ls) r

  unfoldable pub balance_right : K → Value K A → Tree K A → Tree K A → Tree K A
  unfolding rotate_left rotate_right
  balance_right k v l leaf = make k v l leaf
  balance_right k v l (node rk rv rl rr rh rs) =
      if ltb (height rr) (height rl)
      then rotate_left k v l (rotate_right rk rv rl rr)
      else rotate_left k v l (node rk rv rl rr rh rs)

  -- Its argument is always `node(entry, left, right)`, whose three arguments it takes here.
  unfoldable pub balance : K → Value K A → Tree K A → Tree K A → Tree K A
  unfolding balance_left balance_right
  balance k v l r =
      if ltb (height r + 1) (height l)
      then balance_left k v l r
      else if ltb (height l + 1) (height r)
      then balance_right k v l r
      else make k v l r

  -- Takes the fields of a node.
  unfoldable pub remove_min : K → Value K A → Tree K A → Tree K A → Tree K A
  unfolding balance
  remove_min k v leaf r = r
  remove_min k v (node lk lv ll lr lh ls) r = balance k v (remove_min lk lv ll lr) r

  -- The loop that looks for the successor: the leftmost entry of a node with these fields.
  unfoldable pub successor : K → Value K A → Tree K A → K × Value K A
  successor k v leaf = (k, v)
  successor k v (node lk lv ll lr lh ls) = successor lk lv ll

  -- The case `Ordering::Equal` of `remove`.
  unfoldable pub join : Tree K A → Tree K A → Tree K A
  unfolding balance remove_min successor
  join leaf r = r
  join (node lk lv ll lr lh ls) leaf = node lk lv ll lr lh ls
  join (node lk lv ll lr lh ls) (node rk rv rl rr rh rs) =
      let (k, v) = successor rk rv rl in
      balance k v (node lk lv ll lr lh ls) (remove_min rk rv rl rr)

module _ {ℓ} {K : Type ℓ} {A : Type ℓ} ⦃o : Ord K⦄ where
  unfoldable pub insert : Tree K A → K → Value K A → Tree K A
  unfolding balance
  insert leaf q w = make q w leaf leaf
  insert (node k v l r h s) q w = elim (o.cmp q k) [
    | lt ↦ balance k v (insert l q w) r
    | gt ↦ balance k v l (insert r q w)
    | eq ↦ make q w l r
  ]

  -- The flag says whether the key was found; if not, the tree is the same root.
  unfoldable pub remove : Tree K A → K → Tree K A × Bool
  unfolding balance join
  remove leaf q = (leaf, false)
  remove (node k v l r h s) q = elim (o.cmp q k) [
    | lt ↦
        let (left, found) = remove l q in
        if found then (balance k v left r, true) else (node k v l r h s, false)
    | gt ↦
        let (right, found) = remove r q in
        if found then (balance k v l right, true) else (node k v l r h s, false)
    | eq ↦ (join l r, true)
  ]

  unfoldable pub get : Tree K A → K → Option (Value K A)
  get leaf q = none
  get (node k v l r h s) q = elim (o.cmp q k) [ lt ↦ get l q | gt ↦ get r q | eq ↦ some v ]

module _ {ℓ} {K : Type ℓ} {A : Type ℓ} where
  -- `Iter`: a stack of nodes whose entries are still to come, the next one on top.
  unfoldable pub push_left : Tree K A → List (Tree K A) → List (Tree K A)
  push_left leaf stack = stack
  push_left (node k v l r h s) stack = push_left l (node k v l r h s ∷ stack)

  unfoldable pub next : List (Tree K A) → Option ((K × Value K A) × List (Tree K A))
  unfolding push_left
  next [] = none
  next (leaf ∷ stack) = none
  next (node k v l r h s ∷ stack) = some ((k, v), push_left r stack)

  -- The items that at most `fuel` calls of `next` give.
  unfoldable pub collect : ℕ → List (Tree K A) → List (K × Value K A)
  unfolding next
  collect zero stack = []
  collect (suc fuel) stack = elim (next stack) [
    | none ↦ []
    | some (entry, rest) ↦ entry ∷ collect fuel rest
  ]

  unfoldable pub iter : Tree K A → List (K × Value K A)
  unfolding collect push_left
  iter t = collect (suc (size t)) (push_left t [])
