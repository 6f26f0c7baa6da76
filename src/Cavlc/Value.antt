-- ===== src/Cavlc/Value.antt =====
-- crates/cavlc/src/value.rs and the node type of avl.rs. `AvlMap<K, V>` is used at string keys and
-- `Value` payloads, so the trees and the values are declared together; `K` stands for `String`,
-- and `A` for the JSON values that are kept as atoms. `Arc`s are left out, except for the identity
-- of a root, which Cavlc/Patch follows.
use lug.Prelude.{ℕ}

mutual
  pub data Value {ℓ} (K : Type ℓ) (A : Type ℓ) : Type ℓ where
    object : Tree K A → Value K A
    atom : A → Value K A

  -- `Link<K, V>`: the entry, the two children, the cached height and the cached size.
  pub data Tree {ℓ} (K : Type ℓ) (A : Type ℓ) : Type ℓ where
    leaf : Tree K A
    node : K → Value K A → Tree K A → Tree K A → ℕ → ℕ → Tree K A
