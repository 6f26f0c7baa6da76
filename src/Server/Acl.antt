-- ===== src/Server/Acl.antt =====
-- crates/lug-server/src/acl.rs: who may reach which log. A set is a test, a map of sets a function.
use lug.Prelude.{ℕ, ◌≡◌, ◌↔◌, Bool, true, false, Option, none, some, ◌==◌, if◌then◌else◌, arith}

pub record Acl (L : Type 0) : Type 0 where
  pub owner : ℕ
  pub allow : ℕ → Bool
  pub logs : L → Option (ℕ → Bool)

module _ {L : Type 0} where
  unfoldable pub new : ℕ → (ℕ → Bool) → Acl L
  new owner allow = record { owner = owner; allow = allow; logs = λ log. none }

  unfoldable pub accepts : Acl L → ℕ → Bool
  accepts acl uid = if uid == acl.owner then true else acl.allow uid

  unfoldable pub allows : Acl L → ℕ → L → Bool
  allows acl uid log =
      if uid == acl.owner
      then true
      else if acl.allow uid
      then (elim (acl.logs log) [ none ↦ false | some uids ↦ uids uid ])
      else false

  -- Whoever may use a log may also connect.
  pub allows-accepts :
      (acl : Acl L) (uid : ℕ) (log : L) → allows acl uid log ≡ true → accepts acl uid ≡ true
  unfolding allows accepts
  allows-accepts acl uid log h = ground (arith, h)

  -- A log that nobody has listed is closed to everyone but the owner.
  pub allows_unlisted :
      (acl : Acl L) (uid : ℕ) (log : L)
      → acl.logs log ≡ none
      → (allows acl uid log ≡ true) ↔ (uid ≡ acl.owner)
  unfolding allows
  allows_unlisted acl uid log h = ground (arith, h)
