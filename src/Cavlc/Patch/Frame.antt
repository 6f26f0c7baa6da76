-- ===== src/Cavlc/Patch/Frame.antt =====
-- patch.rs: what `apply` does to each key of an object.
use lug.Prelude.{
  ◌≡◌, refl, ◌∙◌, ◌⊎◌, Bool, true, false, Bool-cases, Option-cases, inl, inr, arith, List, [], ◌∷◌,
  ◌++◌, Option, none, map, ok, ok_or, >>=-eq-ok, ok-injective, ok-ne-err,
}
use lug.Prelude.Ord.{Ord, Eq}
use lug.Cavlc.Value.{Value, object, atom, Tree, leaf, node}
use lug.Cavlc.Avl
use lug.Cavlc.Avl.Entries.{IsOrdered}
use lug.Cavlc.Avl.Laws.{get-insert, get-remove}
use lug.Cavlc.Patch.{
  patch, Updates, end, update, Draft, apply_creates, apply_deletes, apply_at, apply_updates,
  apply_update, apply, validate, finish, set_next, same_root, update_keys, keys, same_key, contains,
}

module _ {ℓ} {K : Type ℓ} ⦃o : Ord K⦄ where
  contains_cons :
      (k : K) (ks : List K) (q : K)
      → contains (k ∷ ks) q ≡ false
      → (same_key q k ≡ false) × (contains ks q ≡ false)
  unfolding contains
  contains_cons k ks q h = ground arith

  contains_append :
      (ks ls : List K) (q : K)
      → contains (ks ++ ls) q ≡ false
      → (contains ks q ≡ false) × (contains ls q ≡ false)
  unfolding contains
  contains_append [] ls q h = (refl, h)
  contains_append (k ∷ ks) ls q h =
      let (other, rest) = contains_cons k (ks ++ ls) q h in
      let (a, b) = contains_append ks ls q rest in (rw other a, b)

module _ {ℓ} {K : Type ℓ} {A : Type ℓ} ⦃o : Ord K⦄ where
  -- `Value::get`.
  abbrev pub get : Value K A → K → Option (Value K A)
  get (object t) q = Avl.get t q
  get (atom a) q = none

  get-insert_other :
      (t : Tree K A) (k q : K) (w : Value K A)
      → IsOrdered t
      → same_key q k ≡ false
      → Avl.get (Avl.insert t k w) q ≡ Avl.get t q
  get-insert_other t k q w s h = ground (arith, (get-insert t k q w s).1)

  get-remove_other :
      (t : Tree K A) (k q : K)
      → IsOrdered t
      → same_key q k ≡ false
      → Avl.get (Avl.remove t k).0 q ≡ Avl.get t q
  get-remove_other t k q s h = ground (arith, (get-remove t k q s).1)

  -- A draft that is still a search tree, and has at `q` what `t` has.
  abbrev Agrees : Tree K A → K → Tree K A → Type ℓ
  Agrees t q t' = IsOrdered t' × (Avl.get t' q ≡ Avl.get t q)

  apply_creates-Agrees :
      (path : List K) (c : List (K × Value K A)) (draft d : Draft K A) (t : Tree K A) (q : K)
      → apply_creates path c draft ≡ ok d
      → contains (map (λ e. e.0) c) q ≡ false
      → Agrees t q draft.0
      → Agrees t q d.0
  unfolding apply_creates
  apply_creates-Agrees path [] draft d t q e h g = rw (← ok-injective e) g
  apply_creates-Agrees path ((k, child) ∷ c) draft d t q e h g =
      let (other, others) = contains_cons k (map (λ e. e.0) c) q h in
      elim (Option-cases (Avl.get draft.0 k)) [
        | inl absent ↦
            apply_creates-Agrees path c (Avl.insert draft.0 k child, false) d t q
              (rw (absent, apply_creates) at e) others
              (
                (get-insert draft.0 k q child g.0).0,
                get-insert_other draft.0 k q child g.0 other ∙ g.1,
              )
        | inr (x, present) ↦ absurd (ok-ne-err (rw (present, apply_creates) at e))
      ]

  apply_creates-IsOrdered :
      (path : List K) (c : List (K × Value K A)) (draft d : Draft K A)
      → apply_creates path c draft ≡ ok d
      → IsOrdered draft.0
      → IsOrdered d.0
  unfolding apply_creates
  apply_creates-IsOrdered path [] draft d e s = rw (← ok-injective e) s
  apply_creates-IsOrdered path ((k, child) ∷ c) draft d e s =
      elim (Option-cases (Avl.get draft.0 k)) [
        | inl absent ↦
            apply_creates-IsOrdered path c (Avl.insert draft.0 k child, false) d
              (rw (absent, apply_creates) at e) ((get-insert draft.0 k k child s).0)
        | inr (x, present) ↦ absurd (ok-ne-err (rw (present, apply_creates) at e))
      ]

  apply_deletes-Agrees :
      (path ks : List K) (draft d : Draft K A) (t : Tree K A) (q : K)
      → apply_deletes path ks draft ≡ ok d
      → contains ks q ≡ false
      → Agrees t q draft.0
      → Agrees t q d.0
  unfolding apply_deletes
  apply_deletes-Agrees path [] draft d t q e h g = rw (← ok-injective e) g
  apply_deletes-Agrees path (k ∷ ks) draft d t q e h g =
      let (other, others) = contains_cons k ks q h in
      elim (Option-cases (Avl.get draft.0 k)) [
        | inl absent ↦ absurd (ok-ne-err (rw (absent, apply_deletes) at e))
        | inr (x, present) ↦
            apply_deletes-Agrees path ks ((Avl.remove draft.0 k).0, false) d t q
              (rw (present, apply_deletes) at e) others
              ((get-remove draft.0 k q g.0).0, get-remove_other draft.0 k q g.0 other ∙ g.1)
      ]

  -- A deleted key is absent from then on.
  apply_deletes_absent :
      (path ks : List K) (draft d : Draft K A) (q : K)
      → apply_deletes path ks draft ≡ ok d
      → IsOrdered draft.0
      → (contains ks q ≡ true) ⊎ (Avl.get draft.0 q ≡ none)
      → Avl.get d.0 q ≡ none
  unfolding apply_deletes contains
  apply_deletes_absent path [] draft d q e s (inl h) = cc
  apply_deletes_absent path [] draft d q e s (inr h) = rw (← ok-injective e) h
  apply_deletes_absent path (k ∷ ks) draft d q e s h = elim (Option-cases (Avl.get draft.0 k)) [
    | inl absent ↦ absurd (ok-ne-err (rw (absent, apply_deletes) at e))
    | inr (x, present) ↦
        apply_deletes_absent path ks ((Avl.remove draft.0 k).0, false) d q
          (rw (present, apply_deletes) at e) ((get-remove draft.0 k q s).0)
          (ground (arith, (get-remove draft.0 k q s).1))
  ]

  apply_deletes_edited :
      (path ks : List K) (draft d : Draft K A)
      → apply_deletes path ks draft ≡ ok d
      → draft.1 ≡ false
      → d.1 ≡ false
  unfolding apply_deletes
  apply_deletes_edited path [] draft d e h = rw (← ok-injective e) h
  apply_deletes_edited path (k ∷ ks) draft d e h = elim (Option-cases (Avl.get draft.0 k)) [
    | inl absent ↦ absurd (ok-ne-err (rw (absent, apply_deletes) at e))
    | inr (x, present) ↦
        apply_deletes_edited path ks ((Avl.remove draft.0 k).0, false) d
          (rw (present, apply_deletes) at e) refl
  ]

  -- Where a key has been deleted the draft is not the root any more.
  deleted_edited :
      (path ks : List K) (draft d : Draft K A) (q : K)
      → apply_deletes path ks draft ≡ ok d
      → contains ks q ≡ true
      → d.1 ≡ false
  unfolding apply_deletes contains
  deleted_edited path [] draft d q e h = cc
  deleted_edited path (k ∷ ks) draft d q e h = elim (Option-cases (Avl.get draft.0 k)) [
    | inl absent ↦ absurd (ok-ne-err (rw (absent, apply_deletes) at e))
    | inr (x, present) ↦
        apply_deletes_edited path ks ((Avl.remove draft.0 k).0, false) d
          (rw (present, apply_deletes) at e) refl
  ]

  finish_edited :
      (t t' : Tree K A) (b : Bool) (q : K)
      → b ≡ false
      → Avl.get t' q ≡ none
      → get (finish t (t', b)).0 q ≡ none
  finish_edited leaf leaf b q h g = g
  finish_edited leaf (node k v l r x s) b q h g = g
  finish_edited (node k v l r x s) leaf b q h g = g
  finish_edited (node k v l r x s) (node k' v' l' r' x' s') b q h g = rw h g

  finish-get :
      (t : Tree K A) (draft : Draft K A) (q : K)
      → Agrees t q draft.0
      → get (finish t draft).0 q ≡ Avl.get t q
  finish-get t draft q g = elim (Bool-cases (same_root t draft)) [
    | inl same ↦ rw same refl
    | inr other ↦ rw other (g.1)
  ]

module _ {ℓ} {K : Type ℓ} {A : Type ℓ} ⦃o : Ord K⦄ ⦃e : Eq A⦄ where
  set_next-Agrees :
      (k : K) (draft : Draft K A) (next : Value K A × Bool) (t : Tree K A) (q : K)
      → same_key q k ≡ false
      → Agrees t q draft.0
      → Agrees t q (set_next k draft next).0
  set_next-Agrees k draft (v, true) t q other g = g
  set_next-Agrees k draft (v, false) t q other g =
      ((get-insert draft.0 k q v g.0).0, get-insert_other draft.0 k q v g.0 other ∙ g.1)

  apply_updates-Agrees :
      (us : Updates K A) (path : List K) (draft d : Draft K A) (t : Tree K A) (q : K)
      → apply_updates us path draft ≡ ok d
      → contains (update_keys us) q ≡ false
      → Agrees t q draft.0
      → Agrees t q d.0
  unfolding apply_at
  apply_updates-Agrees end path draft d t q h n g = rw (← ok-injective h) g
  apply_updates-Agrees (update k u us) path draft d t q h n g =
      let (other, others) = contains_cons k (update_keys us) q n in
      let (current, present, body) = >>=-eq-ok (ok_or (Avl.get draft.0 k) _) _ h in
      let (next, hn, rest) = >>=-eq-ok (apply_update u current (path ++ k ∷ [])) _ body in
      apply_updates-Agrees us path (set_next k draft next) d t q rest others
        (set_next-Agrees k draft next t q other g)

  set_next-IsOrdered :
      (k : K) (draft : Draft K A) (next : Value K A × Bool)
      → IsOrdered draft.0
      → IsOrdered (set_next k draft next).0
  set_next-IsOrdered k draft (v, true) s = s
  set_next-IsOrdered k draft (v, false) s = (get-insert draft.0 k k v s).0

  apply_updates-IsOrdered :
      (us : Updates K A) (path : List K) (draft d : Draft K A)
      → apply_updates us path draft ≡ ok d
      → IsOrdered draft.0
      → IsOrdered d.0
  unfolding apply_at
  apply_updates-IsOrdered end path draft d h s = rw (← ok-injective h) s
  apply_updates-IsOrdered (update k u us) path draft d h s =
      let (current, present, body) = >>=-eq-ok (ok_or (Avl.get draft.0 k) _) _ h in
      let (next, hn, rest) = >>=-eq-ok (apply_update u current (path ++ k ∷ [])) _ body in
      apply_updates-IsOrdered us path (set_next k draft next) d rest
        (set_next-IsOrdered k draft next s)

  -- A successful `apply` to an object leaves every key that the patch does not name as it was.
  pub apply_other_keys :
      (c : List (K × Value K A)) (u : Updates K A) (d : List K) (t : Tree K A)
      (out : Value K A × Bool) (q : K)
      → apply (patch c u d) (object t) ≡ ok out
      → IsOrdered t
      → contains (keys (patch c u d)) q ≡ false
      → get out.0 q ≡ Avl.get t q
  unfolding apply
  apply_other_keys c u d t out q h s n =
      let (checked, hv, body) = >>=-eq-ok (validate (patch c u d)) _ h in
      let (created, hc, rest) = >>=-eq-ok (apply_creates [] c (t, true)) _ body in
      let (updated, hu, rest') = >>=-eq-ok (apply_updates u [] created) _ rest in
      let (draft, hd, done) = >>=-eq-ok (apply_deletes [] d updated) _ rest' in
      let (nc, nud) = contains_append (map (λ e. e.0) c) (update_keys u ++ d) q n in
      let (nu, nd) = contains_append (update_keys u) d q nud in
      let gc = apply_creates-Agrees [] c (t, true) created t q hc nc (s, refl) in
      let gu = apply_updates-Agrees u [] created updated t q hu nu gc in
      let gd = apply_deletes-Agrees [] d updated draft t q hd nd gu in
      rw (← ok-injective done) (finish-get t draft q gd)

  -- After a successful `apply` to an object a key that the patch deletes is absent.
  pub apply_deleted_keys :
      (c : List (K × Value K A)) (u : Updates K A) (d : List K) (t : Tree K A)
      (out : Value K A × Bool) (q : K)
      → apply (patch c u d) (object t) ≡ ok out
      → IsOrdered t
      → contains d q ≡ true
      → get out.0 q ≡ none
  unfolding apply
  apply_deleted_keys c u d t out q h s n =
      let (checked, hv, body) = >>=-eq-ok (validate (patch c u d)) _ h in
      let (created, hc, rest) = >>=-eq-ok (apply_creates [] c (t, true)) _ body in
      let (updated, hu, rest') = >>=-eq-ok (apply_updates u [] created) _ rest in
      let (draft, hd, done) = >>=-eq-ok (apply_deletes [] d updated) _ rest' in
      let sc = apply_creates-IsOrdered [] c (t, true) created hc s in
      let su = apply_updates-IsOrdered u [] created updated hu sc in
      let gone = apply_deletes_absent [] d updated draft q hd su (inl n) in
      rw (← ok-injective done)
        (finish_edited t draft.0 draft.1 q (deleted_edited [] d updated draft q hd n) gone)
