-- ===== src/Prelude/SortedMap.antt =====
-- Association lists in the order of their keys: the specification of an ordered map.
use Prim.Native.Nat.Ordering.{lt, eq, gt}
use lug.Prelude.{◌≡◌, ◌≢◌, refl, ◌∙◌, arith, List, [], ◌∷◌, ◌++◌, Option, none, some, All, inl, inr}
use lug.Prelude.Ord.{Ord, ◌≺◌, Ordering-cases}

module _ {ℓ} {K : Type ℓ} {V : Type ℓ} ⦃o : Ord K⦄ where
  abbrev pub After : K → List (K × V) → Type 0
  After k es = All (λ e. k ≺ e.0) es

  abbrev pub Before : K → List (K × V) → Type 0
  Before k es = All (λ e. e.0 ≺ k) es

  -- Each key is below all that follow it.
  abbrev pub Sorted : List (K × V) → Type 0
  Sorted [] = Unit
  Sorted (e ∷ es) = After e.0 es × Sorted es

  unfoldable pub insert_entry : List (K × V) → K → V → List (K × V)
  insert_entry [] q w = (q, w) ∷ []
  insert_entry ((k, v) ∷ es) q w = elim (o.cmp q k) [
    | lt ↦ (q, w) ∷ (k, v) ∷ es
    | gt ↦ (k, v) ∷ insert_entry es q w
    | eq ↦ (q, w) ∷ es
  ]

  unfoldable pub remove_entry : List (K × V) → K → List (K × V)
  remove_entry [] q = []
  remove_entry ((k, v) ∷ es) q = elim (o.cmp q k) [
    | lt ↦ (k, v) ∷ es
    | gt ↦ (k, v) ∷ remove_entry es q
    | eq ↦ es
  ]

  unfoldable pub find_entry : List (K × V) → K → Option V
  find_entry [] q = none
  find_entry ((k, v) ∷ es) q = elim (o.cmp q k) [ lt ↦ none | gt ↦ find_entry es q | eq ↦ some v ]

  pub Before-trans : (k q : K) (es : List (K × V)) → k ≺ q → Before k es → Before q es
  Before-trans k q [] h b = tt
  Before-trans k q (e ∷ es) h b = (o.cmp_trans e.0 k q b.0 h, Before-trans k q es h b.1)

  pub After-trans : (q k : K) (es : List (K × V)) → q ≺ k → After k es → After q es
  After-trans q k [] h b = tt
  After-trans q k (e ∷ es) h b = (o.cmp_trans q k e.0 h b.0, After-trans q k es h b.1)

  -- The middle of a sorted list parts it.
  pub Sorted-split :
      (xs : List (K × V)) (k : K) (v : V) (ys : List (K × V))
      → Sorted (xs ++ ((k, v) ∷ ys))
      → Before k xs × Sorted xs × After k ys × Sorted ys
  Sorted-split [] k v ys s = (tt, tt, s.0, s.1)
  Sorted-split (x ∷ xs) k v ys s =
      let (before, sorted, after, rest) = Sorted-split xs k v ys s.1 in
      let parts = After-append x.0 xs ((k, v) ∷ ys) s.0 in
      ((parts.1.0, before), (parts.0, sorted), after, rest)
    where
      After-append : (q : K) (xs ys : List (K × V)) → After q (xs ++ ys) → After q xs × After q ys
      After-append q [] ys a = (tt, a)
      After-append q (x ∷ xs) ys a = let rest = After-append q xs ys a.1 in ((a.0, rest.0), rest.1)

  pub insert_entry-append_lt :
      (xs : List (K × V)) (k : K) (v : V) (ys : List (K × V)) (q : K) (w : V)
      → q ≺ k
      → insert_entry (xs ++ ((k, v) ∷ ys)) q w ≡ insert_entry xs q w ++ ((k, v) ∷ ys)
  unfolding insert_entry
  insert_entry-append_lt [] k v ys q w h = rw (h, insert_entry)
  insert_entry-append_lt ((j, u) ∷ xs) k v ys q w h =
      ground (arith, insert_entry-append_lt xs k v ys q w h)

  insert_entry-append :
      (xs ys : List (K × V)) (q : K) (w : V)
      → Before q xs
      → insert_entry (xs ++ ys) q w ≡ xs ++ insert_entry ys q w
  unfolding insert_entry
  insert_entry-append [] ys q w b = refl
  insert_entry-append ((j, u) ∷ xs) ys q w b =
      rw (o.flip_lt j q b.0, insert_entry) (rw (insert_entry-append xs ys q w b.1))

  pub remove_entry-append_lt :
      (xs : List (K × V)) (k : K) (v : V) (ys : List (K × V)) (q : K)
      → q ≺ k
      → remove_entry (xs ++ ((k, v) ∷ ys)) q ≡ remove_entry xs q ++ ((k, v) ∷ ys)
  unfolding remove_entry
  remove_entry-append_lt [] k v ys q h = rw (h, remove_entry)
  remove_entry-append_lt ((j, u) ∷ xs) k v ys q h =
      ground (arith, remove_entry-append_lt xs k v ys q h)

  remove_entry-append :
      (xs ys : List (K × V)) (q : K)
      → Before q xs
      → remove_entry (xs ++ ys) q ≡ xs ++ remove_entry ys q
  unfolding remove_entry
  remove_entry-append [] ys q b = refl
  remove_entry-append ((j, u) ∷ xs) ys q b =
      rw (o.flip_lt j q b.0, remove_entry) (rw (remove_entry-append xs ys q b.1))

  pub find_entry-append_lt :
      (xs : List (K × V)) (k : K) (v : V) (ys : List (K × V)) (q : K)
      → q ≺ k
      → find_entry (xs ++ ((k, v) ∷ ys)) q ≡ find_entry xs q
  unfolding find_entry
  find_entry-append_lt [] k v ys q h = rw (h, find_entry)
  find_entry-append_lt ((j, u) ∷ xs) k v ys q h = ground (arith, find_entry-append_lt xs k v ys q h)

  find_entry-append :
      (xs ys : List (K × V)) (q : K) → Before q xs → find_entry (xs ++ ys) q ≡ find_entry ys q
  unfolding find_entry
  find_entry-append [] ys q b = refl
  find_entry-append ((j, u) ∷ xs) ys q b =
      rw (o.flip_lt j q b.0, find_entry) (find_entry-append xs ys q b.1)

  module _ (xs : List (K × V)) (k : K) (v : V) (ys : List (K × V)) (q : K) (b : Before k xs) where
    above : o.cmp q k ≡ gt → Before q xs
    above h = Before-trans k q xs (o.flip_gt q k h) b

    at_key : o.cmp q k ≡ eq → Before q xs
    at_key h = rw (o.cmp_exact q k h) b

    pub insert_entry-append_gt :
        (w : V)
        → o.cmp q k ≡ gt
        → insert_entry (xs ++ ((k, v) ∷ ys)) q w ≡ xs ++ ((k, v) ∷ insert_entry ys q w)
    insert_entry-append_gt w h =
        insert_entry-append xs ((k, v) ∷ ys) q w (above h)
        ∙ (unfold insert_entry in rw (h, insert_entry))

    pub insert_entry-append_eq :
        (w : V) → o.cmp q k ≡ eq → insert_entry (xs ++ ((k, v) ∷ ys)) q w ≡ xs ++ ((q, w) ∷ ys)
    insert_entry-append_eq w h =
        insert_entry-append xs ((k, v) ∷ ys) q w (at_key h)
        ∙ (unfold insert_entry in rw (h, insert_entry))

    pub remove_entry-append_gt :
        o.cmp q k ≡ gt → remove_entry (xs ++ ((k, v) ∷ ys)) q ≡ xs ++ ((k, v) ∷ remove_entry ys q)
    remove_entry-append_gt h =
        remove_entry-append xs ((k, v) ∷ ys) q (above h)
        ∙ (unfold remove_entry in rw (h, remove_entry))

    pub remove_entry-append_eq : o.cmp q k ≡ eq → remove_entry (xs ++ ((k, v) ∷ ys)) q ≡ xs ++ ys
    remove_entry-append_eq h =
        remove_entry-append xs ((k, v) ∷ ys) q (at_key h)
        ∙ (unfold remove_entry in rw (h, remove_entry))

    pub find_entry-append_gt : o.cmp q k ≡ gt → find_entry (xs ++ ((k, v) ∷ ys)) q ≡ find_entry ys q
    find_entry-append_gt h =
        find_entry-append xs ((k, v) ∷ ys) q (above h) ∙ (unfold find_entry in rw (h, find_entry))

    pub find_entry-append_eq : o.cmp q k ≡ eq → find_entry (xs ++ ((k, v) ∷ ys)) q ≡ some v
    find_entry-append_eq h =
        find_entry-append xs ((k, v) ∷ ys) q (at_key h) ∙ (unfold find_entry in rw (h, find_entry))

  find_entry-After : (es : List (K × V)) (q : K) → After q es → find_entry es q ≡ none
  unfolding find_entry
  find_entry-After [] q a = refl
  find_entry-After ((j, u) ∷ es) q a = rw (a.0, find_entry)

  After-insert_entry :
      (k : K) (es : List (K × V)) (q : K) (w : V)
      → k ≺ q
      → After k es
      → After k (insert_entry es q w)
  unfolding insert_entry
  After-insert_entry k [] q w h a = (h, tt)
  After-insert_entry k ((j, u) ∷ es) q w h a = ground (arith, After-insert_entry k es q w h a.1)

  After-remove_entry :
      (k : K) (es : List (K × V)) (q : K) → After k es → After k (remove_entry es q)
  unfolding remove_entry
  After-remove_entry k [] q a = tt
  After-remove_entry k ((j, u) ∷ es) q a = ground (arith, After-remove_entry k es q a.1)

  pub Sorted-insert_entry :
      (es : List (K × V)) (q : K) (w : V) → Sorted es → Sorted (insert_entry es q w)
  unfolding insert_entry
  Sorted-insert_entry [] q w s = (tt, tt)
  Sorted-insert_entry ((k, v) ∷ es) q w s = elim (Ordering-cases (o.cmp q k)) [
    | inl less ↦ rw (less, insert_entry) ((less, After-trans q k es less s.0), s)
    | inr (inl greater) ↦
        rw (greater, insert_entry)
          (After-insert_entry k es q w (o.flip_gt q k greater) s.0, Sorted-insert_entry es q w s.1)
    | inr (inr equal) ↦ rw (equal, insert_entry, o.cmp_exact q k equal) s
  ]

  pub Sorted-remove_entry : (es : List (K × V)) (q : K) → Sorted es → Sorted (remove_entry es q)
  unfolding remove_entry
  Sorted-remove_entry [] q s = tt
  Sorted-remove_entry ((k, v) ∷ es) q s =
      ground (arith, After-remove_entry k es q s.0, Sorted-remove_entry es q s.1)

  pub find_entry-insert_entry_self :
      (es : List (K × V)) (q : K) (w : V) → find_entry (insert_entry es q w) q ≡ some w
  unfolding find_entry insert_entry
  find_entry-insert_entry_self [] q w = rw (o.cmp_self q, find_entry)
  find_entry-insert_entry_self ((k, v) ∷ es) q w =
      ground (arith, find_entry-insert_entry_self es q w, o.cmp_self q)

  pub find_entry-insert_entry_ne :
      (es : List (K × V)) (q p : K) (w : V)
      → p ≢ q
      → find_entry (insert_entry es q w) p ≡ find_entry es p
  unfolding find_entry insert_entry
  find_entry-insert_entry_ne [] q p w n = ground (arith, o.cmp_exact p q)
  find_entry-insert_entry_ne ((k, v) ∷ es) q p w n = ground (
    arith,
    find_entry-insert_entry_ne es q p w n,
    o.cmp_exact p q,
    o.cmp_exact q k,
    o.cmp_trans p q k,
  )

  pub find_entry-remove_entry_self :
      (es : List (K × V)) (q : K) → Sorted es → find_entry (remove_entry es q) q ≡ none
  unfolding find_entry remove_entry
  find_entry-remove_entry_self [] q s = refl
  find_entry-remove_entry_self ((k, v) ∷ es) q s = elim (Ordering-cases (o.cmp q k)) [
    | inl less ↦ rw (less, remove_entry) (rw (less, find_entry))
    | inr (inl greater) ↦
        rw (greater, remove_entry)
          (rw (greater, find_entry) (find_entry-remove_entry_self es q s.1))
    | inr (inr equal) ↦ rw (equal, remove_entry, o.cmp_exact q k equal) (find_entry-After es k s.0)
  ]

  pub find_entry-remove_entry_ne :
      (es : List (K × V)) (q p : K)
      → Sorted es
      → p ≢ q
      → find_entry (remove_entry es q) p ≡ find_entry es p
  unfolding find_entry remove_entry
  find_entry-remove_entry_ne [] q p s n = refl
  find_entry-remove_entry_ne ((k, v) ∷ es) q p s n = ground (
    arith,
    find_entry-remove_entry_ne es q p s.1 n,
    o.cmp_exact p k,
    o.cmp_exact q k,
    find_entry_below es k p s.0,
  )
    where
      find_entry_below : (es : List (K × V)) (k p : K) → After k es → p ≺ k → find_entry es p ≡ none
      find_entry_below es k p a h = find_entry-After es p (After-trans p k es h a)
