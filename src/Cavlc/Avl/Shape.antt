-- ===== src/Cavlc/Avl/Shape.antt =====
-- avl.rs: the cached fields are right and the trees stay balanced.
use lug.Prelude.{
  ℕ, ◌+◌, max, ◌≤◌, ◌≡◌, refl, ◌⊎◌, Bool-cases, inl, inr, ltb, ltb→lt, ltb_false→le, le→ltb_false,
  arith,
}
use lug.Prelude.Ord.{Ord, Ordering-cases}
use lug.Cavlc.Value.{Value, Tree, leaf, node}
use lug.Cavlc.Avl.{
  height, size, make, balance_left, balance_right, balance, remove_min, successor, join, insert,
  remove,
}

module _ {ℓ} {K : Type ℓ} {A : Type ℓ} where
  -- Every node caches its height and its size, and the heights of its children differ by at most 1.
  abbrev pub IsAvl : Tree K A → Type 0
  IsAvl leaf = Unit
  IsAvl (node k v l r h s) =
      (h ≡ 1 + max (height l) (height r))
      × (s ≡ 1 + size l + size r)
      × (height l ≤ height r + 1)
      × (height r ≤ height l + 1)
      × IsAvl l
      × IsAvl r

  -- What `balance` promises of its result, for children of heights `a` and `b`.
  abbrev Balanced : ℕ → ℕ → Tree K A → Type 0
  Balanced a b t = IsAvl t × (1 + max a b ≤ height t + 1) × (height t ≤ 1 + max a b)

  make-IsAvl :
      (k : K) (v : Value K A) (l r : Tree K A)
      → IsAvl l
      → IsAvl r
      → height l ≤ height r + 1
      → height r ≤ height l + 1
      → IsAvl (make k v l r)
  make-IsAvl k v l r p q a b = (refl, refl, a, b, p, q)

  balance_left-IsAvl :
      (k : K) (v : Value K A) (l r : Tree K A)
      → IsAvl l
      → IsAvl r
      → height l ≡ height r + 2
      → Balanced (height l) (height r) (balance_left k v l r)
  unfolding balance_left
  balance_left-IsAvl k v leaf r p q e = absurd (omega arith)
  balance_left-IsAvl k v (node lk lv ll leaf lh ls) r p q e =
      rw (le→ltb_false (height ll) 0 (omega arith)) (
        make-IsAvl lk lv ll (make k v leaf r) p.4
            (make-IsAvl k v leaf r tt q (omega arith) (omega arith)) (omega arith) (omega arith),
        omega arith,
        omega arith,
      )
  balance_left-IsAvl k v (node lk lv ll (node mk mv ml mr mh ms) lh ls) r p q e =
      elim (Bool-cases (ltb (height ll) mh)) [
        | inl d ↦
            let far = ltb→lt (height ll) mh d in
            rw d (
              make-IsAvl mk mv (make lk lv ll ml) (make k v mr r)
                  (make-IsAvl lk lv ll ml p.4 p.5.4 (omega arith) (omega arith))
                  (make-IsAvl k v mr r p.5.5 q (omega arith) (omega arith)) (omega arith)
                  (omega arith),
              omega arith,
              omega arith,
            )
        | inr s ↦
            let near = ltb_false→le (height ll) mh s in
            let m = node mk mv ml mr mh ms in
            rw s (
              make-IsAvl lk lv ll (make k v m r) p.4
                  (make-IsAvl k v m r p.5 q (omega arith) (omega arith)) (omega arith)
                  (omega arith),
              omega arith,
              omega arith,
            )
      ]

  balance_right-IsAvl :
      (k : K) (v : Value K A) (l r : Tree K A)
      → IsAvl l
      → IsAvl r
      → height r ≡ height l + 2
      → Balanced (height l) (height r) (balance_right k v l r)
  unfolding balance_right
  balance_right-IsAvl k v l leaf p q e = absurd (omega arith)
  balance_right-IsAvl k v l (node rk rv leaf rr rh rs) p q e =
      rw (le→ltb_false (height rr) 0 (omega arith)) (
        make-IsAvl rk rv (make k v l leaf) rr
            (make-IsAvl k v l leaf p tt (omega arith) (omega arith)) q.5 (omega arith)
            (omega arith),
        omega arith,
        omega arith,
      )
  balance_right-IsAvl k v l (node rk rv (node mk mv ml mr mh ms) rr rh rs) p q e =
      elim (Bool-cases (ltb (height rr) mh)) [
        | inl d ↦
            let far = ltb→lt (height rr) mh d in
            rw d (
              make-IsAvl mk mv (make k v l ml) (make rk rv mr rr)
                  (make-IsAvl k v l ml p q.4.4 (omega arith) (omega arith))
                  (make-IsAvl rk rv mr rr q.4.5 q.5 (omega arith) (omega arith)) (omega arith)
                  (omega arith),
              omega arith,
              omega arith,
            )
        | inr s ↦
            let near = ltb_false→le (height rr) mh s in
            let m = node mk mv ml mr mh ms in
            rw s (
              make-IsAvl rk rv (make k v l m) rr
                  (make-IsAvl k v l m p q.4 (omega arith) (omega arith)) q.5 (omega arith)
                  (omega arith),
              omega arith,
              omega arith,
            )
      ]

  -- `Balanced`, and the height is exact where no rotation is needed.
  abbrev Rebalanced : ℕ → ℕ → Tree K A → Type 0
  Rebalanced a b t =
      IsAvl t
      × (1 + max a b ≤ height t + 1)
      × (height t ≤ 1 + max a b)
      × ((height t ≡ 1 + max a b) ⊎ (a ≡ b + 2) ⊎ (b ≡ a + 2))

  balance-IsAvl :
      (k : K) (v : Value K A) (l r : Tree K A)
      → IsAvl l
      → IsAvl r
      → height l ≤ height r + 2
      → height r ≤ height l + 2
      → Rebalanced (height l) (height r) (balance k v l r)
  unfolding balance
  balance-IsAvl k v l r p q a b = elim (Bool-cases (ltb (height r + 1) (height l))) [
    | inl lefty ↦
        let high = ltb→lt (height r + 1) (height l) lefty in
        let done = balance_left-IsAvl k v l r p q (omega arith) in
        rw lefty (done.0, done.1, done.2, inr (inl (omega arith)))
    | inr not_left ↦
        let low = ltb_false→le (height r + 1) (height l) not_left in
        elim (Bool-cases (ltb (height l + 1) (height r))) [
          | inl righty ↦
              let high = ltb→lt (height l + 1) (height r) righty in
              let done = balance_right-IsAvl k v l r p q (omega arith) in
              rw (not_left, righty) (done.0, done.1, done.2, inr (inr (omega arith)))
          | inr not_right ↦
              let low' = ltb_false→le (height l + 1) (height r) not_right in
              rw (not_left, not_right)
                (
                  make-IsAvl k v l r p q (omega arith) (omega arith),
                  omega arith,
                  omega arith,
                  inl refl,
                )
        ]
  ]

  -- What removing one entry promises: the height falls by at most 1.
  abbrev Shrunk : ℕ → Tree K A → Type 0
  Shrunk h t = IsAvl t × (h ≤ height t + 1) × (height t ≤ h)

  -- A child that has changed its height by at most 1 is rebalanced.
  Shrunk-balance_left :
      (k : K) (v : Value K A) (l l' r : Tree K A)
      → IsAvl r
      → height l ≤ height r + 1
      → height r ≤ height l + 1
      → Shrunk (height l) l'
      → Shrunk (1 + max (height l) (height r)) (balance k v l' r)
  Shrunk-balance_left k v l l' r q a b h =
      let done = balance-IsAvl k v l' r h.0 q (omega arith) (omega arith) in
      let (avl, low, high, exact) = done in (avl, omega arith, omega arith)

  Shrunk-balance_right :
      (k : K) (v : Value K A) (l r r' : Tree K A)
      → IsAvl l
      → height l ≤ height r + 1
      → height r ≤ height l + 1
      → Shrunk (height r) r'
      → Shrunk (1 + max (height l) (height r)) (balance k v l r')
  Shrunk-balance_right k v l r r' q a b h =
      let done = balance-IsAvl k v l r' q h.0 (omega arith) (omega arith) in
      let (avl, low, high, exact) = done in (avl, omega arith, omega arith)

  remove_min-IsAvl :
      (k : K) (v : Value K A) (l r : Tree K A)
      → IsAvl l
      → IsAvl r
      → height l ≤ height r + 1
      → height r ≤ height l + 1
      → Shrunk (1 + max (height l) (height r)) (remove_min k v l r)
  unfolding remove_min
  remove_min-IsAvl k v leaf r p q a b = (q, omega arith, omega arith)
  remove_min-IsAvl k v (node lk lv ll lr lh ls) r p q a b =
      Shrunk-balance_left k v (node lk lv ll lr lh ls) (remove_min lk lv ll lr) r q a b
        (rw (p.0) (remove_min-IsAvl lk lv ll lr p.4 p.5 p.2 p.3))

  join-IsAvl :
      (l r : Tree K A)
      → IsAvl l
      → IsAvl r
      → height l ≤ height r + 1
      → height r ≤ height l + 1
      → Shrunk (1 + max (height l) (height r)) (join l r)
  unfolding join
  join-IsAvl leaf r p q a b = (q, omega arith, omega arith)
  join-IsAvl (node lk lv ll lr lh ls) leaf p q a b = (p, omega arith, omega arith)
  join-IsAvl (node lk lv ll lr lh ls) (node rk rv rl rr rh rs) p q a b =
      let (k, v) = successor rk rv rl in
      Shrunk-balance_right k v (node lk lv ll lr lh ls) (node rk rv rl rr rh rs)
        (remove_min rk rv rl rr) p a b (rw (q.0) (remove_min-IsAvl rk rv rl rr q.4 q.5 q.2 q.3))

module _ {ℓ} {K : Type ℓ} {A : Type ℓ} ⦃o : Ord K⦄ where
  -- The height stays or grows by 1.
  abbrev Grown : ℕ → Tree K A → Type 0
  Grown h t = IsAvl t × (h ≤ height t) × (height t ≤ h + 1)

  insert-Grown : (t : Tree K A) (q : K) (w : Value K A) → IsAvl t → Grown (height t) (insert t q w)
  unfolding insert
  insert-Grown leaf q w p =
      (make-IsAvl q w leaf leaf tt tt (omega arith) (omega arith), omega arith, omega arith)
  insert-Grown (node k v l r h s) q w (e, f, a, b, pl, pr) = elim (Ordering-cases (o.cmp q k)) [
    | inl less ↦
        let (gl, lo, hi) = insert-Grown l q w pl in
        let (avl, low, high, exact) =
          balance-IsAvl k v (insert l q w) r gl pr (omega arith) (omega arith) in
        rw (less, insert) (avl, omega arith, omega arith)
    | inr (inl greater) ↦
        let (gr, lo, hi) = insert-Grown r q w pr in
        let (avl, low, high, exact) =
          balance-IsAvl k v l (insert r q w) pl gr (omega arith) (omega arith) in
        rw (greater, insert) (avl, omega arith, omega arith)
    | inr (inr equal) ↦ rw (equal, insert) (make-IsAvl q w l r pl pr a b, omega arith, omega arith)
  ]

  remove-Shrunk : (t : Tree K A) (q : K) → IsAvl t → Shrunk (height t) (remove t q).0
  unfolding remove
  remove-Shrunk leaf q p = (tt, omega arith, omega arith)
  remove-Shrunk (node k v l r h s) q (e, f, a, b, pl, pr) = elim (Ordering-cases (o.cmp q k)) [
    | inl less ↦
        rw (less, remove, e)
          (elim (Bool-cases (remove l q).1) [
            | inl found ↦
                rw found (Shrunk-balance_left k v l (remove l q).0 r pr a b (remove-Shrunk l q pl))
            | inr missing ↦ rw missing ((refl, f, a, b, pl, pr), omega arith, omega arith)
          ])
    | inr (inl greater) ↦
        rw (greater, remove, e)
          (elim (Bool-cases (remove r q).1) [
            | inl found ↦
                rw found (Shrunk-balance_right k v l r (remove r q).0 pl a b (remove-Shrunk r q pr))
            | inr missing ↦ rw missing ((refl, f, a, b, pl, pr), omega arith, omega arith)
          ])
    | inr (inr equal) ↦ rw (equal, remove, e) (join-IsAvl l r pl pr a b)
  ]

  -- Inserting into a tree whose cached fields are right and whose nodes are balanced gives such a
  -- tree again, and removing from it does too.
  pub insert-remove-IsAvl :
      (t : Tree K A) (q : K) (w : Value K A) → IsAvl t → IsAvl (insert t q w) × IsAvl (remove t q).0
  insert-remove-IsAvl t q w p = ((insert-Grown t q w p).0, (remove-Shrunk t q p).0)
