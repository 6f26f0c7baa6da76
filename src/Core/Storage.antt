-- ===== src/Core/Storage.antt =====
-- crates/lug-core/src/storage.rs: records, the trait `Storage` and `Discard`.
use lug.Prelude.{ℕ, Option, none, List, [], Result, ok}

-- `B` stands for the encoded bytes of a patch.
pub record Record (B : Type 0) : Type 0 where
  pub version : ℕ
  pub patch : B

pub record Recovered (V B : Type 0) : Type 0 where
  pub header : Option V
  pub tail : List (Record B)

pub record Storage (W V B E : Type 0) : Type 0 where
  pub append : W → List (Record B) → W × Result E (Unit {0})
  pub write_header : W → V → W × Result E (Unit {0})
  pub sync : W → W × Result E (Unit {0})
  pub load : W → W × Result E (Recovered V B)
  pub read_after : W → ℕ → ℕ → Result E (List (Record B))
  pub oldest : W → ℕ

-- `Discard`: it has no state, and accepts and forgets everything.
abbrev pub discard : {V B E : Type 0} → Storage (Unit {0}) V B E
discard = record {
  append = λ w _. (w, ok tt);
  write_header = λ w _. (w, ok tt);
  sync = λ w. (w, ok tt);
  load = λ w. (w, ok (record { header = none; tail = [] }));
  read_after = λ _ _ _. ok [];
  oldest = λ _. 0;
}
