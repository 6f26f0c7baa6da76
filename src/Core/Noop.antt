-- ===== src/Core/Noop.antt =====
-- crates/lug-core/src/reducible.rs: `Noop`, the structure that only counts, and its view.
use lug.Prelude.{
  ℕ, suc, ◌≤◌, ◌<◌, ◌≡◌, refl, sym, ap, inl, inr, Bool-cases, Option-cases, Option, none, some, leb,
  ◌==◌, le→leb, checked_suc, checked_suc-eq-some, if◌then◌else◌, arith, Result, ok, err,
  ok-injective,
}
use lug.Core.Reducible.{Reducible, Committed, failed, idle, minted, IsLawful}

pub record Noop : Type 0 where
  pub version : ℕ

pub record Tick : Type 0 where
  pub version : ℕ

pub data Overflow : Type 0 where
  overflow : Overflow

unfoldable pub commit : Noop → ℕ → Noop × Result Overflow (Option Tick)
commit noop staged = if staged == 0 then (noop, ok none) else (elim (checked_suc noop.version) [
  | none ↦ (noop, err overflow)
  | some next ↦ (record { version = next }, ok (some (record { version = next })))
])

unfoldable pub view_at : Noop → ℕ → Option Tick
view_at noop n = if leb n noop.version then some (record { version = n }) else none

unfoldable pub truncate : Noop → ℕ → Noop × Result Overflow (Unit {0})
truncate noop n = (record { version = if leb noop.version n then noop.version else n }, ok tt)

-- The patches are `serde_json::Value`, which the structure does not look at.
abbrev pub noop_reducible : (P : Type 0) → Reducible Noop P Tick ℕ Overflow
noop_reducible P = record {
  view_version = λ tick. tick.version;
  stage = λ noop. 0;
  stage_patch = λ noop staged patch. ok (suc staged);
  commit = commit;
  view = λ noop. record { version = noop.version };
  view_at = view_at;
  truncate = truncate;
  resume = λ tick. ok (record { version = tick.version });
}

view_at_below :
    (n v w : ℕ)
    → n ≤ v
    → n ≤ w
    → view_at (record { version = v }) n ≡ view_at (record { version = w }) n
unfolding view_at
view_at_below n v w a b = rw (le→leb n v a, le→leb n w b) refl

-- The next version is minted by a patch that fits.
commit-Committed :
    (P : Type 0) (noop : Noop) (staged : ℕ)
    → Committed (noop_reducible P) noop (commit noop staged).0 (commit noop staged).1
unfolding commit
commit-Committed P noop staged = elim (Bool-cases (staged == 0)) [
  | inl zero_staged ↦ rw (zero_staged, commit) idle
  | inr some_staged ↦ elim (Option-cases (checked_suc noop.version)) [
    | inl full ↦ rw (some_staged, full, commit) (failed overflow)
    | inr (next, fits) ↦
        let step = checked_suc-eq-some noop.version next fits in
        rw (some_staged, fits, commit)
          (minted (record { version = next }) (record { version = next }) refl step.0
            (λ n below. view_at_below n next noop.version (omega (arith, step.0)) below))
  ]
]

truncate-version_lem :
    (noop : Noop) (n : ℕ) (v : Tick)
    → view_at noop n ≡ some v
    → (truncate noop n).0.version ≡ v.version
unfolding view_at truncate
truncate-version_lem noop n v h = ground (arith, h)

view_at-version :
    (noop : Noop) → view_at noop noop.version ≡ some (record { version = noop.version })
unfolding view_at
view_at-version noop = rw (le→leb noop.version noop.version (omega arith)) refl

truncate_above :
    (noop : Noop) (n m : ℕ) (v : Tick)
    → view_at noop n ≡ some v
    → n < m
    → view_at (truncate noop n).0 m ≡ none
unfolding view_at truncate
truncate_above noop n m v h above = ground (arith, h, above)

truncate_below :
    (noop : Noop) (n m : ℕ) (v : Tick)
    → view_at noop n ≡ some v
    → m ≤ n
    → view_at (truncate noop n).0 m ≡ view_at noop m
unfolding view_at truncate
truncate_below noop n m v h below = ground (arith, h, below)

pub noop_reducible-IsLawful : (P : Type 0) → IsLawful (noop_reducible P) (λ noop. Unit)
noop_reducible-IsLawful P = record {
  commit-Committed = λ noop p s valid accepted. commit-Committed P noop s;
  commit-Valid = λ noop p s valid accepted. tt;
  view_at_current = λ noop valid. view_at-version noop;
  truncate-view = λ noop n v valid found.
      ap (λ x. record { version = x }) (truncate-version_lem noop n v found);
  truncate-Valid = λ noop n valid. tt;
  truncate_above = λ noop n m v valid found above. truncate_above noop n m v found above;
  truncate_below = λ noop n m v valid found below. truncate_below noop n m v found below;
  resume-view = λ v noop resumed.
      ap (λ (x : Noop). record { version = x.version }) (sym (ok-injective resumed));
  resume-Valid = λ v noop resumed. tt;
}
