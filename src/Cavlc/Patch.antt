-- ===== src/Cavlc/Patch.antt =====
-- crates/cavlc/src/patch.rs: patches, `validate` and `apply`. The maps of a patch are `BTreeMap`s, of
-- which only the iteration in key order is used here, so they are lists of entries. A result says
-- whether it is the same `Arc` as the argument, which is what `Value::ptr_eq` tests.
pub mod Well
pub mod Frame
use Prim.Native.Nat.Ordering.{lt, eq, gt}
use lug.Prelude.{
  Bool, true, false, ◌&&◌, Option, none, some, List, [], ◌∷◌, ◌++◌, map, ◌==◌, if◌then◌else◌,
  Result, ok, err, ok_or, ◌>>=◌,
}
use lug.Prelude.Ord.{Ord, Eq}
use lug.Cavlc.Error.{
  Error, invalid_patch, multiple_operations, objects_require_nested, precondition, expected_object,
  create_requires_absent, update_requires_existing, cannot_replace_object, delete_requires_existing,
}
use lug.Cavlc.Value.{Value, object, atom, Tree, leaf, node}
use lug.Cavlc.Avl

mutual
  pub data Patch {ℓ} (K : Type ℓ) (A : Type ℓ) : Type ℓ where
    patch : List (K × Value K A) → Updates K A → List K → Patch K A

  -- `BTreeMap<String, Update>`.
  pub data Updates {ℓ} (K : Type ℓ) (A : Type ℓ) : Type ℓ where
    end : Updates K A
    update : K → Update K A → Updates K A → Updates K A

  pub data Update {ℓ} (K : Type ℓ) (A : Type ℓ) : Type ℓ where
    nested : Patch K A → Update K A
    value : Value K A → Update K A

module _ {ℓ} {K : Type ℓ} {A : Type ℓ} where
  abbrev pub is_object : Value K A → Bool
  is_object (object t) = true
  is_object (atom a) = false

  abbrev pub update_keys : Updates K A → List K
  update_keys end = []
  update_keys (update k u us) = k ∷ update_keys us

  -- The keys in the order in which `validate` chains them.
  abbrev pub keys : Patch K A → List K
  keys (patch c u d) = map (λ e. e.0) c ++ (update_keys u ++ d)

-- The map under construction, and whether it is still the root that the call began with.
abbrev pub Draft {ℓ} : Type ℓ → Type ℓ → Type ℓ
Draft K A = Tree K A × Bool

module _ {ℓ} {K : Type ℓ} {A : Type ℓ} where
  -- `AvlMap::ptr_eq` of the draft and the root that it began with.
  abbrev pub same_root : Tree K A → Draft K A → Bool
  same_root leaf (leaf, same) = true
  same_root leaf (node k v l r h s, same) = false
  same_root (node k v l r h s) (leaf, same) = false
  same_root (node k v l r h s) (node k' v' l' r' h' s', same) = same

  abbrev pub finish : Tree K A → Draft K A → Value K A × Bool
  finish original draft =
      if same_root original draft then (object original, true) else (object draft.0, false)

module _ {ℓ} {K : Type ℓ} ⦃o : Ord K⦄ where
  abbrev pub same_key : K → K → Bool
  same_key a b = elim (o.cmp a b) [ lt ↦ false | gt ↦ false | eq ↦ true ]

  unfoldable pub contains : List K → K → Bool
  contains [] q = false
  contains (k ∷ ks) q = if same_key q k then true else contains ks q

  -- `keys.insert(key)` says whether the key is new; the first that is not is returned.
  unfoldable pub first_repeat : List K → List K → Option K
  unfolding contains
  first_repeat seen [] = none
  first_repeat seen (k ∷ ks) =
      let rest = first_repeat (k ∷ seen) ks in if contains seen k then some k else rest

module _ {ℓ} {K : Type ℓ} {A : Type ℓ} ⦃o : Ord K⦄ where
  unfoldable mutual
    pub validate : Patch K A → Result (Error K) (Unit {0})
    validate (patch c u d) =
        let rest = validate_updates u in
        elim (first_repeat [] (keys (patch c u d))) [
          | some k ↦ err (invalid_patch (multiple_operations k))
          | none ↦ rest
        ]

    pub validate_updates : Updates K A → Result (Error K) (Unit {0})
    validate_updates end = ok tt
    validate_updates (update k u us) =
        let rest = validate_updates us in validate_update k u >>= λ _. rest

    pub validate_update : K → Update K A → Result (Error K) (Unit {0})
    validate_update k (nested p) = validate p
    validate_update k (value v) =
        if is_object v then err (invalid_patch (objects_require_nested k)) else ok tt

module _ {ℓ} {K : Type ℓ} {A : Type ℓ} ⦃o : Ord K⦄ where
  unfoldable pub apply_creates :
      List K → List (K × Value K A) → Draft K A → Result (Error K) (Draft K A)
  apply_creates path [] draft = ok draft
  apply_creates path ((k, child) ∷ c) draft =
      let rest = apply_creates path c (Avl.insert draft.0 k child, false) in
      elim (Avl.get draft.0 k) [
        | some _ ↦ err (precondition (path ++ k ∷ []) create_requires_absent)
        | none ↦ rest
      ]

  unfoldable pub apply_deletes : List K → List K → Draft K A → Result (Error K) (Draft K A)
  apply_deletes path [] draft = ok draft
  apply_deletes path (k ∷ d) draft =
      let rest = apply_deletes path d ((Avl.remove draft.0 k).0, false) in
      elim (Avl.get draft.0 k) [
        | none ↦ err (precondition (path ++ k ∷ []) delete_requires_existing)
        | some _ ↦ rest
      ]

  -- One round of the update loop, after `next` has been computed.
  abbrev pub set_next : K → Draft K A → Value K A × Bool → Draft K A
  set_next k draft next = if next.1 then draft else (Avl.insert draft.0 k next.0, false)

module _ {ℓ} {K : Type ℓ} {A : Type ℓ} ⦃o : Ord K⦄ ⦃e : Eq A⦄ where
  -- `PartialEq for Value`. Two maps are compared by their lengths and by their iterators: the entries
  -- of the first are taken off the front of the second's.
  unfoldable mutual
    pub value_eq : Value K A → Value K A → Bool
    value_eq (object t) (object u) =
        (Avl.size t == Avl.size u) && elim (take_entries t (Avl.iter u)) [
          | some [] ↦ true
          | some (x ∷ xs) ↦ false
          | none ↦ false
        ]
    value_eq (object t) (atom b) = false
    value_eq (atom a) (object u) = false
    value_eq (atom a) (atom b) = e.beq a b

    pub take_entries : Tree K A → List (K × Value K A) → Option (List (K × Value K A))
    take_entries leaf es = some es
    take_entries (node k v l r h s) es = elim (take_entries l es) [
      | none ↦ none
      | some [] ↦ none
      | some ((j, w) ∷ rest) ↦
          let more = take_entries r rest in if same_key k j && value_eq v w then more else none
    ]

  -- The case `Update::Value` of the update loop.
  unfoldable pub replace_leaf : Value K A → Value K A → List K → Result (Error K) (Value K A × Bool)
  unfolding value_eq
  replace_leaf child current path =
      if is_object current
      then err (precondition path cannot_replace_object)
      else if value_eq child current
      then ok (current, true)
      else ok (child, false)

  unfoldable mutual
    unfolding apply_creates apply_deletes replace_leaf

    pub apply_at : Patch K A → Value K A → List K → Result (Error K) (Value K A × Bool)
    apply_at (patch c u d) (atom a) path = err (precondition path expected_object)
    apply_at (patch c u d) (object original) path =
        apply_creates path c (original, true) >>= λ created.
        apply_updates u path created >>= λ updated.
        apply_deletes path d updated >>= λ draft. ok (finish original draft)

    pub apply_updates : Updates K A → List K → Draft K A → Result (Error K) (Draft K A)
    apply_updates end path draft = ok draft
    apply_updates (update k u us) path draft =
        ok_or (Avl.get draft.0 k) (precondition (path ++ k ∷ []) update_requires_existing)
        >>= λ current. apply_update u current (path ++ k ∷ []) >>= λ next.
            apply_updates us path (set_next k draft next)

    pub apply_update : Update K A → Value K A → List K → Result (Error K) (Value K A × Bool)
    apply_update (nested p) current path = apply_at p current path
    apply_update (value child) current path = replace_leaf child current path

  unfoldable pub apply : Patch K A → Value K A → Result (Error K) (Value K A × Bool)
  unfolding validate apply_at
  apply p v = validate p >>= λ _. apply_at p v []
