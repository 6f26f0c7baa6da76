-- ===== src/Cavlc/Examples.antt =====
-- Runs of crates/cavlc on small maps, with numbers for keys and for atoms.
use lug.Prelude.{ℕ, ◌≡◌, refl, false, none, some, [], ◌∷◌, length, arith, ok, ne_nil_of_is_empty}
use lug.Prelude.Ord.{nat_ord, nat_eq}
use lug.Cavlc.Value.{object, atom, Tree, leaf, node}
use lug.Cavlc.Avl
use lug.Cavlc.Avl.Shape.{IsAvl, insert-remove-IsAvl}
use lug.Cavlc.Avl.Entries.{IsOrdered, to_list, is_some}
use lug.Cavlc.Avl.Laws.{get-insert, get-remove, iter-eq-to_list}
use lug.Cavlc.Patch.{Patch, patch, end, apply, first_repeat, contains}
use lug.Cavlc.Patch.Well.{IsWell, apply-IsWell}
use lug.Cavlc.Patch.Frame.{get, apply_other_keys, apply_deleted_keys}
use lug.Cavlc.Store.{
  Snapshot, Batch, Store, ApplyResult, snapshot, snapshot_at, apply_batch, truncate, replay,
  publish,
}
use lug.Cavlc.Store.History.{IsStore, start, link, apply_batch-IsStore}
use lug.Cavlc.Store.Replay.{replay_log}
use lug.Cavlc.Store.Versions.{snapshot_at_held, stale_batch_accepted}

abbrev one_key : Tree ℕ ℕ
one_key = node 1 (atom 10) leaf leaf 1 1

abbrev two_keys : Tree ℕ ℕ
two_keys = node 1 (atom 10) leaf (node 2 (atom 20) leaf leaf 1 1) 2 2

two_keys-IsAvl : IsAvl two_keys
two_keys-IsAvl =
    (refl, refl, omega arith, omega arith, tt, (refl, refl, omega arith, omega arith, tt, tt))

two_keys-IsOrdered : IsOrdered two_keys
unfolding nat_ord
two_keys-IsOrdered = ((refl, tt), (tt, tt))

-- A third key on the right asks for a rotation.
insert_rotates :
    Avl.insert two_keys 3 (atom 30)
    ≡ node 2 (atom 20) (node 1 (atom 10) leaf leaf 1 1) (node 3 (atom 30) leaf leaf 1 1) 2 3
unfolding Avl.insert nat_ord
insert_rotates = refl

abbrev swap_keys : Patch ℕ ℕ
swap_keys = patch ((3, atom 30) ∷ []) end (1 ∷ [])

abbrev swapped : Tree ℕ ℕ
swapped = node 2 (atom 20) leaf (node 3 (atom 30) leaf leaf 1 1) 2 2

swap_keys_run : apply swap_keys (object two_keys) ≡ ok (object swapped, false)
unfolding apply nat_ord nat_eq first_repeat Avl.get Avl.insert Avl.remove
swap_keys_run = refl

abbrev add_one : Patch ℕ ℕ
add_one = patch ((1, atom 10) ∷ []) end []

abbrev add_two : Patch ℕ ℕ
add_two = patch ((2, atom 20) ∷ []) end []

add_one_run : apply add_one (object leaf) ≡ ok (object one_key, false)
unfolding apply nat_ord nat_eq first_repeat Avl.get Avl.insert
add_one_run = refl

add_two_run : apply add_two (object one_key) ≡ ok (object two_keys, false)
unfolding apply nat_ord nat_eq first_repeat Avl.get Avl.insert
add_two_run = refl

abbrev first_snapshot : Snapshot ℕ ℕ
first_snapshot = record { version = 0; root = object leaf }

abbrev second_snapshot : Snapshot ℕ ℕ
second_snapshot = record { version = 1; root = object one_key }

abbrev shop : Store ℕ ℕ
shop = record {
  owner = 7;
  base = 0;
  first = first_snapshot;
  rest = second_snapshot ∷ [];
  log = record { version = 1; patches = add_one ∷ [] } ∷ [];
}

shop-IsStore : IsStore shop
shop-IsStore = record {
  base_version = refl;
  chain = link refl refl (ne_nil_of_is_empty _ refl) (object one_key, add_one_run, refl) start;
}

abbrev pending : Batch ℕ ℕ
pending = record {
  owner = 7;
  base = second_snapshot;
  working = object two_keys;
  patches = add_two ∷ [];
}

pending_run : apply_batch shop pending ≡ ok (publish shop pending 2)
unfolding apply_batch
pending_run = refl

insert-remove-IsAvl_example :
    IsAvl (Avl.insert two_keys 3 (atom 30)) × IsAvl (Avl.remove two_keys 3).0
insert-remove-IsAvl_example = insert-remove-IsAvl two_keys 3 (atom 30) two_keys-IsAvl

get-insert_example :
    IsOrdered (Avl.insert two_keys 3 (atom 30))
    × (Avl.get (Avl.insert two_keys 3 (atom 30)) 3 ≡ some (atom 30))
unfolding nat_ord
get-insert_example = get-insert two_keys 3 3 (atom 30) two_keys-IsOrdered

get-remove_example :
    IsOrdered (Avl.remove two_keys 1).0
    × (Avl.get (Avl.remove two_keys 1).0 2 ≡ Avl.get two_keys 2)
    × ((Avl.remove two_keys 1).1 ≡ is_some (Avl.get two_keys 1))
unfolding nat_ord
get-remove_example = get-remove two_keys 1 2 two_keys-IsOrdered

iter-eq-to_list_example :
    (Avl.iter two_keys ≡ to_list two_keys) × (Avl.size two_keys ≡ length (Avl.iter two_keys))
iter-eq-to_list_example = iter-eq-to_list two_keys two_keys-IsAvl

apply-IsWell_example : IsWell (object swapped)
apply-IsWell_example =
    apply-IsWell swap_keys (object two_keys) (object swapped, false) swap_keys_run ((tt, tt), tt)
      (two_keys-IsAvl, two_keys-IsOrdered, (tt, tt, (tt, tt, tt)))

apply_other_keys_example : get (object swapped) 2 ≡ Avl.get two_keys 2
unfolding nat_ord contains
apply_other_keys_example =
    apply_other_keys ((3, atom 30) ∷ []) end (1 ∷ []) two_keys (object swapped, false) 2
      swap_keys_run two_keys-IsOrdered refl

apply_deleted_keys_example : get (object swapped) 1 ≡ none
unfolding nat_ord contains
apply_deleted_keys_example =
    apply_deleted_keys ((3, atom 30) ∷ []) end (1 ∷ []) two_keys (object swapped, false) 1
      swap_keys_run two_keys-IsOrdered refl

apply_batch-IsStore_example : IsStore (publish shop pending 2).0
apply_batch-IsStore_example =
    apply_batch-IsStore shop (publish shop pending 2).0 pending (publish shop pending 2).1
      shop-IsStore (object two_keys, add_two_run, refl) refl pending_run

replay_log_example : replay 7 (object leaf) shop.log ≡ ok shop
replay_log_example = replay_log shop shop-IsStore refl refl (omega arith, tt)

snapshot_at_held_example : (t : Snapshot ℕ ℕ) × (snapshot_at shop 0 ≡ some t) × (t.version ≡ 0)
snapshot_at_held_example = snapshot_at_held shop 0 shop-IsStore (omega arith) (omega arith)

-- After version 1 has been discarded, another batch mints it again.
abbrev other : Batch ℕ ℕ
other = record {
  owner = 7;
  base = first_snapshot;
  working = object (node 2 (atom 20) leaf leaf 1 1);
  patches = add_two ∷ [];
}

other_run : apply_batch (truncate shop 0) other ≡ ok (publish (truncate shop 0) other 1)
unfolding apply_batch truncate
other_run = refl

stale_batch_accepted_example :
    (s'' : Store ℕ ℕ) × (r' : ApplyResult ℕ ℕ) × (apply_batch
        (publish (truncate shop 0) other 1).0
        pending
      ≡ ok (s'', r'))
    × ((snapshot s'').root ≡ object two_keys)
stale_batch_accepted_example =
    stale_batch_accepted shop (publish (truncate shop 0) other 1).0 pending other
      (publish (truncate shop 0) other 1).1 shop-IsStore (omega arith) (omega arith) refl refl refl
      refl other_run
