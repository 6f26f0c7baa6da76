-- ===== src/Cavlc/Avl/Laws.antt =====
-- avl.rs as a finite map: `get` after `insert` and `remove`, and what `iter` gives.
use Prim.Native.Nat.Ordering.{lt, eq, gt}
use lug.Prelude.{
  ◌≡◌, refl, sym, ap, ◌∙◌, arith, List, [], ◌∷◌, ◌++◌, append-nil, append_assoc, ℕ, zero, suc, ◌<◌,
  length, some, none,
}
use lug.Prelude.Ord.{Ord}
use lug.Prelude.SortedMap.{
  find_entry, find_entry-insert_entry_self, find_entry-insert_entry_ne,
  find_entry-remove_entry_self, find_entry-remove_entry_ne,
}
use lug.Cavlc.Value.{Value, Tree, leaf, node}
use lug.Cavlc.Avl.{size, insert, remove, get, push_left, next, collect, iter}
use lug.Cavlc.Avl.Shape.{IsAvl}
use lug.Cavlc.Avl.Entries.{
  to_list, IsOrdered, is_some, insert-to_list, remove-to_list, get-to_list, size-to_list,
  insert-IsOrdered, remove-IsOrdered,
}

module _ {ℓ} {K : Type ℓ} {A : Type ℓ} ⦃o : Ord K⦄ where
  -- Inserting into a search tree gives a search tree, in which the key has the new value and every
  -- other key what it had.
  pub get-insert :
      (t : Tree K A) (q p : K) (w : Value K A)
      → IsOrdered t
      → IsOrdered (insert t q w)
        × (get (insert t q w) p ≡ elim (o.cmp p q) [ lt ↦ get t p | gt ↦ get t p | eq ↦ some w ])
  get-insert t q p w s =
      let e = insert-to_list t q w s in
      let kept = insert-IsOrdered t q w s in
      (
        kept,
        ground (
          arith,
          get-to_list (insert t q w) p kept ∙ ap (λ es. find_entry es p) e,
          get-to_list t p s,
          find_entry-insert_entry_ne (to_list t) q p w,
          find_entry-insert_entry_self (to_list t) q w,
          o.cmp_exact p q,
          o.cmp_self q,
        ),
      )

  -- Removing from a search tree gives a search tree, in which the key is absent and every other key
  -- has what it had; the flag says whether the key was there.
  pub get-remove :
      (t : Tree K A) (q p : K)
      → IsOrdered t
      → IsOrdered (remove t q).0
        × (get (remove t q).0 p ≡ elim (o.cmp p q) [ lt ↦ get t p | gt ↦ get t p | eq ↦ none ])
        × ((remove t q).1 ≡ is_some (get t q))
  get-remove t q p s =
      let (e, flag) = remove-to_list t q s in
      let kept = remove-IsOrdered t q s in
      (
        kept,
        ground (
          arith,
          get-to_list (remove t q).0 p kept ∙ ap (λ es. find_entry es p) e,
          get-to_list t p s,
          find_entry-remove_entry_ne (to_list t) q p s,
          find_entry-remove_entry_self (to_list t) q s,
          o.cmp_exact p q,
          o.cmp_self q,
        ),
        flag ∙ ap is_some (sym (get-to_list t q s)),
      )

module _ {ℓ} {K : Type ℓ} {A : Type ℓ} where
  -- The entries that a stack of nodes still has to give.
  abbrev pending : List (Tree K A) → List (K × Value K A)
  pending [] = []
  pending (leaf ∷ stack) = pending stack
  pending (node k v l r h s ∷ stack) = (k, v) ∷ (to_list r ++ pending stack)

  abbrev AllNodes : List (Tree K A) → Type 0
  AllNodes [] = Unit
  AllNodes (leaf ∷ stack) = ⊥
  AllNodes (node k v l r h s ∷ stack) = AllNodes stack

  pending-push_left :
      (t : Tree K A) (stack : List (Tree K A))
      → AllNodes stack
      → (pending (push_left t stack) ≡ to_list t ++ pending stack) × AllNodes (push_left t stack)
  unfolding push_left
  pending-push_left leaf stack n = (refl, n)
  pending-push_left (node k v l r h s) stack n =
      let (e, m) = pending-push_left l (node k v l r h s ∷ stack) n in
      (e ∙ sym (append_assoc (to_list l) ((k, v) ∷ to_list r) (pending stack)), m)

  collect-pending :
      (fuel : ℕ) (stack : List (Tree K A))
      → AllNodes stack
      → length (pending stack) < fuel
      → collect fuel stack ≡ pending stack
  unfolding collect next
  collect-pending zero stack n h = absurd (omega arith)
  collect-pending (suc fuel) [] n h = refl
  collect-pending (suc fuel) (leaf ∷ stack) n h = absurd n
  collect-pending (suc fuel) (node k v l r x s ∷ stack) n h =
      let (e, m) = pending-push_left r stack n in
      ap (λ es. (k, v) ∷ es) (collect-pending fuel (push_left r stack) m (rw e (omega arith)) ∙ e)

  -- On a tree with right caches the iterator gives every entry once, from left to right, as many as
  -- `len` says.
  pub iter-eq-to_list : (t : Tree K A) → IsAvl t → (iter t ≡ to_list t) × (size t ≡ length (iter t))
  unfolding iter
  iter-eq-to_list t p =
      let (e, m) = pending-push_left t [] tt in
      let all : pending (push_left t []) ≡ to_list t = e ∙ append-nil (to_list t) in
      let sized = size-to_list t p in
      let out : collect (suc (size t)) (push_left t []) ≡ to_list t =
        collect-pending (suc (size t)) (push_left t []) m (rw all (omega arith)) ∙ all in
      (out, rw out sized)
