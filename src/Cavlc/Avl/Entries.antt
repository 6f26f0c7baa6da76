-- ===== src/Cavlc/Avl/Entries.antt =====
-- avl.rs: a tree as the list of its entries, which balancing leaves alone, and what `insert`,
-- `remove` and `get` do to that list.
use lug.Prelude.{
  ◌≡◌, refl, sym, ap, ◌∙◌, Bool, true, false, Bool-cases, inl, inr, arith, List, [], ◌∷◌, ◌++◌,
  append_assoc, append-nil, ltb, length, length-append, Option, some, none,
}
use lug.Prelude.Ord.{Ord, Ordering-cases}
use lug.Prelude.SortedMap.{
  Sorted, Sorted-split, insert_entry, remove_entry, find_entry, insert_entry-append_lt,
  insert_entry-append_gt, insert_entry-append_eq, remove_entry-append_lt, remove_entry-append_gt,
  remove_entry-append_eq, find_entry-append_lt, find_entry-append_gt, find_entry-append_eq,
  Sorted-insert_entry, Sorted-remove_entry,
}
use lug.Cavlc.Value.{Value, Tree, leaf, node}
use lug.Cavlc.Avl.{
  height, size, rotate_left, rotate_right, balance_left, balance_right, balance, remove_min,
  successor, join, insert, remove, get,
}
use lug.Cavlc.Avl.Shape.{IsAvl}

module _ {ℓ} {K : Type ℓ} {A : Type ℓ} where
  -- The entries of a tree from left to right.
  abbrev pub to_list : Tree K A → List (K × Value K A)
  to_list leaf = []
  to_list (node k v l r h s) = to_list l ++ ((k, v) ∷ to_list r)

  rotate_left-to_list :
      (k : K) (v : Value K A) (l r : Tree K A)
      → to_list (rotate_left k v l r) ≡ to_list l ++ ((k, v) ∷ to_list r)
  unfolding rotate_left
  rotate_left-to_list k v l leaf = refl
  rotate_left-to_list k v l (node rk rv rl rr rh rs) =
      append_assoc (to_list l) ((k, v) ∷ to_list rl) ((rk, rv) ∷ to_list rr)

  rotate_right-to_list :
      (k : K) (v : Value K A) (l r : Tree K A)
      → to_list (rotate_right k v l r) ≡ to_list l ++ ((k, v) ∷ to_list r)
  unfolding rotate_right
  rotate_right-to_list k v leaf r = refl
  rotate_right-to_list k v (node lk lv ll lr lh ls) r =
      sym (append_assoc (to_list ll) ((lk, lv) ∷ to_list lr) ((k, v) ∷ to_list r))

  balance_left-to_list :
      (k : K) (v : Value K A) (l r : Tree K A)
      → to_list (balance_left k v l r) ≡ to_list l ++ ((k, v) ∷ to_list r)
  unfolding balance_left
  balance_left-to_list k v leaf r = refl
  balance_left-to_list k v (node lk lv ll lr lh ls) r =
      elim (Bool-cases (ltb (height ll) (height lr))) [
        | inl far ↦ rw (far, balance_left) (rw rotate_right-to_list (rw rotate_left-to_list refl))
        | inr near ↦ rw (near, balance_left) (rw rotate_right-to_list refl)
      ]

  balance_right-to_list :
      (k : K) (v : Value K A) (l r : Tree K A)
      → to_list (balance_right k v l r) ≡ to_list l ++ ((k, v) ∷ to_list r)
  unfolding balance_right
  balance_right-to_list k v l leaf = refl
  balance_right-to_list k v l (node rk rv rl rr rh rs) =
      elim (Bool-cases (ltb (height rr) (height rl))) [
        | inl far ↦ rw (far, balance_right) (rw rotate_left-to_list (rw rotate_right-to_list refl))
        | inr near ↦ rw (near, balance_right) (rw rotate_left-to_list refl)
      ]

  pub balance-to_list :
      (k : K) (v : Value K A) (l r : Tree K A)
      → to_list (balance k v l r) ≡ to_list l ++ ((k, v) ∷ to_list r)
  unfolding balance
  balance-to_list k v l r =
      ground (arith, balance_left-to_list k v l r, balance_right-to_list k v l r)

  remove_min-to_list :
      (k : K) (v : Value K A) (l r : Tree K A)
      → successor k v l ∷ to_list (remove_min k v l r) ≡ to_list l ++ ((k, v) ∷ to_list r)
  unfolding remove_min successor
  remove_min-to_list k v leaf r = refl
  remove_min-to_list k v (node lk lv ll lr lh ls) r =
      rw (balance-to_list k v (remove_min lk lv ll lr) r)
        (ap (λ es. es ++ ((k, v) ∷ to_list r)) (remove_min-to_list lk lv ll lr))

  join-to_list : (l r : Tree K A) → to_list (join l r) ≡ to_list l ++ to_list r
  unfolding join
  join-to_list leaf r = refl
  join-to_list (node lk lv ll lr lh ls) leaf = sym (append-nil _)
  join-to_list (node lk lv ll lr lh ls) (node rk rv rl rr rh rs) =
      let l = node lk lv ll lr lh ls in
      let (k, v) = successor rk rv rl in
      balance-to_list k v l (remove_min rk rv rl rr)
      ∙ ap (λ es. to_list l ++ es) (remove_min-to_list rk rv rl rr)

  -- In a tree with right caches, the size is the number of entries.
  pub size-to_list : (t : Tree K A) → IsAvl t → size t ≡ length (to_list t)
  size-to_list leaf p = refl
  size-to_list (node k v l r h s) (e, f, a, b, pl, pr) = omega (
    arith,
    f,
    size-to_list l pl,
    size-to_list r pr,
    length-append (to_list l) ((k, v) ∷ to_list r),
  )

abbrev pub is_some {ℓ} : {B : Type ℓ} → Option B → Bool
is_some none = false
is_some (some b) = true

module _ {ℓ} {K : Type ℓ} {A : Type ℓ} ⦃o : Ord K⦄ where
  -- A search tree: its entries are in the order of their keys.
  abbrev pub IsOrdered : Tree K A → Type 0
  IsOrdered t = Sorted (to_list t)

  pub insert-to_list :
      (t : Tree K A) (q : K) (w : Value K A)
      → IsOrdered t
      → to_list (insert t q w) ≡ insert_entry (to_list t) q w
  unfolding insert
  insert-to_list leaf q w s = unfold insert_entry in refl
  insert-to_list (node k v l r h z) q w s =
      let (before, sl, after, sr) = Sorted-split (to_list l) k v (to_list r) s in
      let xs = to_list l in
      let ys = to_list r in
      elim (Ordering-cases (o.cmp q k)) [
        | inl less ↦
            rw (less, insert, insert_entry-append_lt xs k v ys q w less)
              (rw (balance-to_list, insert-to_list l q w sl))
        | inr (inl greater) ↦
            rw (greater, insert, insert_entry-append_gt xs k v ys q before w greater)
              (rw (balance-to_list, insert-to_list r q w sr))
        | inr (inr equal) ↦ rw (equal, insert, insert_entry-append_eq xs k v ys q before w equal)
      ]

  pub get-to_list : (t : Tree K A) (q : K) → IsOrdered t → get t q ≡ find_entry (to_list t) q
  unfolding get
  get-to_list leaf q s = unfold find_entry in refl
  get-to_list (node k v l r h z) q s =
      let (before, sl, after, sr) = Sorted-split (to_list l) k v (to_list r) s in
      let xs = to_list l in
      let ys = to_list r in
      elim (Ordering-cases (o.cmp q k)) [
        | inl less ↦ rw (less, get, find_entry-append_lt xs k v ys q less) (get-to_list l q sl)
        | inr (inl greater) ↦
            rw (greater, get, find_entry-append_gt xs k v ys q before greater) (get-to_list r q sr)
        | inr (inr equal) ↦ rw (equal, get, find_entry-append_eq xs k v ys q before equal)
      ]

  -- Removing a key that is not there gives the same tree.
  pub remove_missing : (t : Tree K A) (q : K) → (remove t q).1 ≡ false → (remove t q).0 ≡ t
  unfolding remove
  remove_missing leaf q h = refl
  remove_missing (node k v l r h z) q e = ground arith

  pub remove-to_list :
      (t : Tree K A) (q : K)
      → IsOrdered t
      → (to_list (remove t q).0 ≡ remove_entry (to_list t) q)
        × ((remove t q).1 ≡ is_some (find_entry (to_list t) q))
  unfolding remove
  remove-to_list leaf q s = unfold remove_entry find_entry in (refl, refl)
  remove-to_list (node k v l r h z) q s =
      let (before, sl, after, sr) = Sorted-split (to_list l) k v (to_list r) s in
      let xs = to_list l in
      let ys = to_list r in
      elim (Ordering-cases (o.cmp q k)) [
        | inl less ↦
            let (same, flag) = remove-to_list l q sl in
            let list = remove_entry-append_lt xs k v ys q less in
            let find = find_entry-append_lt xs k v ys q less in
            rw (less, remove, find, list)
              (elim (Bool-cases (remove l q).1) [
                | inl found ↦ rw found (rw (balance-to_list, same), sym found ∙ flag)
                | inr missing ↦ rw missing (
                  ap (λ es. es ++ ((k, v) ∷ ys))
                      (sym (ap to_list (remove_missing l q missing)) ∙ same),
                  sym missing ∙ flag,
                )
              ])
        | inr (inl greater) ↦
            let (same, flag) = remove-to_list r q sr in
            let list = remove_entry-append_gt xs k v ys q before greater in
            let find = find_entry-append_gt xs k v ys q before greater in
            rw (greater, remove, find, list)
              (elim (Bool-cases (remove r q).1) [
                | inl found ↦ rw found (rw (balance-to_list, same), sym found ∙ flag)
                | inr missing ↦ rw missing (
                  ap (λ es. xs ++ ((k, v) ∷ es))
                      (sym (ap to_list (remove_missing r q missing)) ∙ same),
                  sym missing ∙ flag,
                )
              ])
        | inr (inr equal) ↦
            let list = remove_entry-append_eq xs k v ys q before equal in
            let find = find_entry-append_eq xs k v ys q before equal in
            rw (equal, remove, find, list) (join-to_list l r, refl)
      ]

  pub insert-IsOrdered :
      (t : Tree K A) (q : K) (w : Value K A) → IsOrdered t → IsOrdered (insert t q w)
  insert-IsOrdered t q w s = rw (insert-to_list t q w s) (Sorted-insert_entry (to_list t) q w s)

  pub remove-IsOrdered : (t : Tree K A) (q : K) → IsOrdered t → IsOrdered (remove t q).0
  remove-IsOrdered t q s = rw ((remove-to_list t q s).0) (Sorted-remove_entry (to_list t) q s)
