-- ===== src/Cavlc/Patch/Well.antt =====
-- patch.rs: `apply` keeps every map of a value a balanced search tree with right caches.
use lug.Prelude.{
  ◌≡◌, Bool, true, false, Bool-cases, Option-cases, inl, inr, List, [], ◌∷◌, ◌++◌, some, All,
  All-append, ok, ok_or, ok_or-eq-ok, >>=-eq-ok, ok-injective, ok-ne-err, some-injective,
}
use lug.Prelude.Ord.{Ord, Eq, Ordering-cases}
use lug.Prelude.SortedMap.{insert_entry, remove_entry}
use lug.Cavlc.Value.{Value, object, atom, Tree, leaf, node}
use lug.Cavlc.Avl
use lug.Cavlc.Avl.Shape.{IsAvl, insert-remove-IsAvl}
use lug.Cavlc.Avl.Entries.{
  to_list, IsOrdered, insert-to_list, remove-to_list, insert-IsOrdered, remove-IsOrdered,
}
use lug.Cavlc.Patch.{
  Patch, patch, Updates, end, update, Update, nested, value, Draft, apply_creates, apply_deletes,
  apply_at, apply_updates, apply_update, apply, validate, finish, set_next, replace_leaf, same_root,
  value_eq, is_object,
}

module _ {ℓ} {K : Type ℓ} {A : Type ℓ} ⦃o : Ord K⦄ where
  abbrev mutual
    pub IsWell : Value K A → Type 0
    IsWell (object t) = IsAvl t × IsOrdered t × AllWell t
    IsWell (atom a) = Unit

    pub AllWell : Tree K A → Type 0
    AllWell leaf = Unit
    AllWell (node k v l r h s) = IsWell v × AllWell l × AllWell r

  abbrev pub WellMap : Tree K A → Type 0
  WellMap t = IsAvl t × IsOrdered t × AllWell t

  abbrev WellEntries : List (K × Value K A) → Type 0
  WellEntries es = All (λ e. IsWell e.1) es

  to_list-WellEntries : (t : Tree K A) → AllWell t → WellEntries (to_list t)
  to_list-WellEntries leaf w = tt
  to_list-WellEntries (node k v l r h s) (wv, wl, wr) =
      All-append (λ e. IsWell e.1) (to_list l) ((k, v) ∷ to_list r) (to_list-WellEntries l wl)
        (wv, to_list-WellEntries r wr)

  All-parts :
      (xs ys : List (K × Value K A)) → WellEntries (xs ++ ys) → WellEntries xs × WellEntries ys
  All-parts [] ys w = (tt, w)
  All-parts (x ∷ xs) ys w = let (a, b) = All-parts xs ys w.1 in ((w.0, a), b)

  AllWell-of_to_list : (t : Tree K A) → WellEntries (to_list t) → AllWell t
  AllWell-of_to_list leaf w = tt
  AllWell-of_to_list (node k v l r h s) w =
      let (left, rest) = All-parts (to_list l) ((k, v) ∷ to_list r) w in
      (rest.0, AllWell-of_to_list l left, AllWell-of_to_list r rest.1)

  WellEntries-insert_entry :
      (es : List (K × Value K A)) (q : K) (w : Value K A)
      → WellEntries es
      → IsWell w
      → WellEntries (insert_entry es q w)
  unfolding insert_entry
  WellEntries-insert_entry [] q w a b = (b, tt)
  WellEntries-insert_entry ((k, v) ∷ es) q w a b = elim (Ordering-cases (o.cmp q k)) [
    | inl less ↦ rw (less, insert_entry) (b, a)
    | inr (inl greater) ↦ rw (greater, insert_entry) (a.0, WellEntries-insert_entry es q w a.1 b)
    | inr (inr equal) ↦ rw (equal, insert_entry) (b, a.1)
  ]

  WellEntries-remove_entry :
      (es : List (K × Value K A)) (q : K) → WellEntries es → WellEntries (remove_entry es q)
  unfolding remove_entry
  WellEntries-remove_entry [] q a = tt
  WellEntries-remove_entry ((k, v) ∷ es) q a = elim (Ordering-cases (o.cmp q k)) [
    | inl less ↦ rw (less, remove_entry) a
    | inr (inl greater) ↦ rw (greater, remove_entry) (a.0, WellEntries-remove_entry es q a.1)
    | inr (inr equal) ↦ rw (equal, remove_entry) a.1
  ]

  insert-WellMap :
      (t : Tree K A) (q : K) (w : Value K A) → WellMap t → IsWell w → WellMap (Avl.insert t q w)
  insert-WellMap t q w (avl, ordered, well) b = (
    (insert-remove-IsAvl t q w avl).0,
    insert-IsOrdered t q w ordered,
    AllWell-of_to_list (Avl.insert t q w) (
        rw (insert-to_list t q w ordered)
          (WellEntries-insert_entry (to_list t) q w (to_list-WellEntries t well) b)),
  )

  remove-WellMap : (t : Tree K A) (q : K) → WellMap t → WellMap (Avl.remove t q).0
  remove-WellMap t q (avl, ordered, well) = (
    (insert-remove-IsAvl t q (object leaf) avl).1,
    remove-IsOrdered t q ordered,
    AllWell-of_to_list (Avl.remove t q).0 (
        rw ((remove-to_list t q ordered).0)
          (WellEntries-remove_entry (to_list t) q (to_list-WellEntries t well))),
  )

  get-IsWell : (t : Tree K A) (q : K) (v : Value K A) → AllWell t → Avl.get t q ≡ some v → IsWell v
  unfolding Avl.get
  get-IsWell leaf q v w e = cc
  get-IsWell (node k u l r h s) q v (wu, wl, wr) e = elim (Ordering-cases (o.cmp q k)) [
    | inl less ↦ get-IsWell l q v wl (rw (less, Avl.get) at e)
    | inr (inl greater) ↦ get-IsWell r q v wr (rw (greater, Avl.get) at e)
    | inr (inr equal) ↦
        let same : some u ≡ some v = rw (equal, Avl.get) at e in rw (← some-injective same) wu
  ]

  abbrev mutual
    pub WellPatch : Patch K A → Type 0
    WellPatch (patch c u d) = All (λ e. IsWell e.1) c × WellUpdates u

    pub WellUpdates : Updates K A → Type 0
    WellUpdates end = Unit
    WellUpdates (update k u us) = WellUpdate u × WellUpdates us

    pub WellUpdate : Update K A → Type 0
    WellUpdate (nested p) = WellPatch p
    WellUpdate (value v) = IsWell v

  apply_creates-WellMap :
      (path : List K) (c : List (K × Value K A)) (draft d : Draft K A)
      → apply_creates path c draft ≡ ok d
      → WellMap draft.0
      → WellEntries c
      → WellMap d.0
  unfolding apply_creates
  apply_creates-WellMap path [] draft d e w wc = rw (← ok-injective e) w
  apply_creates-WellMap path ((k, child) ∷ c) draft d e w wc =
      elim (Option-cases (Avl.get draft.0 k)) [
        | inl absent ↦
            apply_creates-WellMap path c (Avl.insert draft.0 k child, false) d
              (rw (absent, apply_creates) at e) (insert-WellMap draft.0 k child w wc.0) wc.1
        | inr (x, present) ↦ absurd (ok-ne-err (rw (present, apply_creates) at e))
      ]

  apply_deletes-WellMap :
      (path : List K) (ks : List K) (draft d : Draft K A)
      → apply_deletes path ks draft ≡ ok d
      → WellMap draft.0
      → WellMap d.0
  unfolding apply_deletes
  apply_deletes-WellMap path [] draft d e w = rw (← ok-injective e) w
  apply_deletes-WellMap path (k ∷ ks) draft d e w = elim (Option-cases (Avl.get draft.0 k)) [
    | inl absent ↦ absurd (ok-ne-err (rw (absent, apply_deletes) at e))
    | inr (x, present) ↦
        apply_deletes-WellMap path ks ((Avl.remove draft.0 k).0, false) d
          (rw (present, apply_deletes) at e) (remove-WellMap draft.0 k w)
  ]

  finish-IsWell :
      (t : Tree K A) (draft : Draft K A) → WellMap t → WellMap draft.0 → IsWell (finish t draft).0
  finish-IsWell t draft w wd = elim (Bool-cases (same_root t draft)) [
    | inl same ↦ rw same w
    | inr other ↦ rw other wd
  ]

module _ {ℓ} {K : Type ℓ} {A : Type ℓ} ⦃o : Ord K⦄ ⦃e : Eq A⦄ where
  set_next-WellMap :
      (k : K) (draft : Draft K A) (next : Value K A × Bool)
      → WellMap draft.0
      → IsWell next.0
      → WellMap (set_next k draft next).0
  set_next-WellMap k draft (v, true) w wv = w
  set_next-WellMap k draft (v, false) w wv = insert-WellMap draft.0 k v w wv

  replace_leaf-IsWell :
      (child current : Value K A) (path : List K) (next : Value K A × Bool)
      → replace_leaf child current path ≡ ok next
      → IsWell child
      → IsWell current
      → IsWell next.0
  unfolding replace_leaf
  replace_leaf-IsWell child current path next h wc w = elim (Bool-cases (is_object current)) [
    | inl structural ↦ absurd (ok-ne-err (rw (structural, replace_leaf) at h))
    | inr plain ↦ elim (Bool-cases (value_eq child current)) [
      | inl equal ↦ rw (← ok-injective (rw (plain, equal, replace_leaf) at h)) w
      | inr other ↦ rw (← ok-injective (rw (plain, other, replace_leaf) at h)) wc
    ]
  ]

  mutual
    unfolding apply_at

    apply_at-IsWell :
        (p : Patch K A) (v : Value K A) (path : List K) (out : Value K A × Bool)
        → apply_at p v path ≡ ok out
        → WellPatch p
        → IsWell v
        → IsWell out.0
    apply_at-IsWell (patch c u d) (atom a) path out h wp wv = absurd (ok-ne-err h)
    apply_at-IsWell (patch c u d) (object t) path out h wp wv =
        let (created, hc, rest) = >>=-eq-ok (apply_creates path c (t, true)) _ h in
        let (updated, hu, rest') = >>=-eq-ok (apply_updates u path created) _ rest in
        let (draft, hd, done) = >>=-eq-ok (apply_deletes path d updated) _ rest' in
        let wc = apply_creates-WellMap path c (t, true) created hc wv wp.0 in
        let wu = apply_updates-WellMap u path created updated hu wp.1 wc in
        let wd = apply_deletes-WellMap path d updated draft hd wu in
        rw (← ok-injective done) (finish-IsWell t draft wv wd)

    apply_updates-WellMap :
        (us : Updates K A) (path : List K) (draft d : Draft K A)
        → apply_updates us path draft ≡ ok d
        → WellUpdates us
        → WellMap draft.0
        → WellMap d.0
    apply_updates-WellMap end path draft d h wu w = rw (← ok-injective h) w
    apply_updates-WellMap (update k u us) path draft d h wu w =
        let (current, present, body) = >>=-eq-ok (ok_or (Avl.get draft.0 k) _) _ h in
        let (next, hn, rest) = >>=-eq-ok (apply_update u current (path ++ k ∷ [])) _ body in
        let old = get-IsWell draft.0 k current w.2 (ok_or-eq-ok (Avl.get draft.0 k) _ present) in
        let wn = apply_update-IsWell u current (path ++ k ∷ []) next hn wu.0 old in
        apply_updates-WellMap us path (set_next k draft next) d rest wu.1
          (set_next-WellMap k draft next w wn)

    apply_update-IsWell :
        (u : Update K A) (current : Value K A) (path : List K) (next : Value K A × Bool)
        → apply_update u current path ≡ ok next
        → WellUpdate u
        → IsWell current
        → IsWell next.0
    apply_update-IsWell (nested p) current path next h wu w =
        apply_at-IsWell p current path next h wu w
    apply_update-IsWell (value child) current path next h wu w =
        replace_leaf-IsWell child current path next h wu w

  -- Where the values of a patch and the value it is applied to are made of balanced search trees with
  -- right caches, so is the result of a successful `apply`.
  pub apply-IsWell :
      (p : Patch K A) (v : Value K A) (out : Value K A × Bool)
      → apply p v ≡ ok out
      → WellPatch p
      → IsWell v
      → IsWell out.0
  unfolding apply
  apply-IsWell p v out h wp wv =
      let (checked, hv, rest) = >>=-eq-ok (validate p) _ h in apply_at-IsWell p v [] out rest wp wv
