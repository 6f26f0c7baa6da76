-- ===== src/Cavlc/Error.antt =====
-- crates/cavlc/src/error.rs, with a constructor for each message text. `K` stands for `String`.
use lug.Prelude.{ℕ, List}

-- The reasons that `Error::InvalidPatch` is given.
pub data Invalid {ℓ} (K : Type ℓ) : Type ℓ where
  multiple_operations : K → Invalid K
  objects_require_nested : K → Invalid K
  empty_batch : Invalid K
  identity_patch : Invalid K

-- The reasons that `Error::Precondition` is given.
pub data Reason : Type 0 where
  expected_object : Reason
  create_requires_absent : Reason
  update_requires_existing : Reason
  cannot_replace_object : Reason
  delete_requires_existing : Reason

pub data Error {ℓ} (K : Type ℓ) : Type ℓ where
  invalid_patch : Invalid K → Error K
  precondition : List K → Reason → Error K
  conflict : ℕ → ℕ → Error K
  merge_conflict : List K → Error K
  foreign_batch : Error K
  root_must_be_object : Error K
  invalid_version : ℕ → ℕ → Error K
  version_overflow : Error K
