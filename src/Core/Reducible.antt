-- ===== src/Core/Reducible.antt =====
-- crates/lug-core/src/reducible.rs: the traits `Versioned` and `Reducible`. A method that takes
-- `&mut self` returns the new state beside its result.
use lug.Prelude.{
  ℕ, suc, ◌≤◌, ◌<◌, ◌≡◌, ◌≢◌, refl, ◌⊎◌, inl, inr, Option, none, some, Result, ok, err,
}

pub record Reducible (D P V S E : Type 0) : Type 0 where
  -- `Versioned::version` of a view.
  pub view_version : V → ℕ
  pub stage : D → S
  -- The staged work that an error leaves is dropped by every caller.
  pub stage_patch : D → S → P → Result E S
  pub commit : D → S → D × Result E (Option V)
  pub view : D → V
  pub view_at : D → ℕ → Option V
  pub truncate : D → ℕ → D × Result E (Unit {0})
  pub resume : V → Result E D

module _ {D P V S E : Type 0} (r : Reducible D P V S E) where
  open r use {view_version, stage, stage_patch, commit, view, view_at, truncate, resume}

  -- The provided method `version`.
  abbrev pub version : D → ℕ
  version d = view_version (view d)

  -- The provided method `apply`.
  unfoldable pub apply : D → P → D × Result E (Option V)
  apply d p = elim (stage_patch d (stage d) p) [ ok s ↦ commit d s | err e ↦ (d, err e) ]

  -- What one commit may do to a structure: nothing, or publish the next version, which becomes the
  -- current view and leaves every earlier version readable.
  pub data Committed (d : D) : D → Result E (Option V) → Type 0 where
    failed : (e : E) → Committed d d (err e)
    idle : Committed d d (ok none)
    minted :
        (d' : D) (v : V)
        → view d' ≡ v
        → view_version v ≡ suc (version d)
        → ((n : ℕ) → n ≤ version d → view_at d' n ≡ view_at d n)
        → Committed d d' (ok (some v))

  -- The cases of a commit, as equations.
  pub Committed-cases :
      {d d' : D} {res : Result E (Option V)}
      → Committed d d' res
      → ((e : E) × (d' ≡ d) × (res ≡ err e))
        ⊎ (((d' ≡ d) × (res ≡ ok none))
            ⊎ ((v : V) × (res ≡ ok (some v))
                × (view d' ≡ v)
                × (view_version v ≡ suc (version d))
                × ((n : ℕ) → n ≤ version d → view_at d' n ≡ view_at d n)))
  Committed-cases (failed e) = inl (e, refl, refl)
  Committed-cases idle = inr (inl (refl, refl))
  Committed-cases (minted d' v a b f) = inr (inr (v, refl, a, b, f))

  -- What a log relies on: a commit of fresh work is all or nothing, `truncate` makes a retained
  -- version current, forgets those above it and keeps those below, and `resume` stands at its view.
  pub record IsLawful (Valid : D → Type 0) : Type 0 where
    pub commit-Committed :
        (d : D) (p : P) (s : S)
        → Valid d
        → stage_patch d (stage d) p ≡ ok s
        → Committed d (commit d s).0 (commit d s).1
    pub commit-Valid :
        (d : D) (p : P) (s : S) → Valid d → stage_patch d (stage d) p ≡ ok s → Valid (commit d s).0
    pub view_at_current : (d : D) → Valid d → view_at d (version d) ≡ some (view d)
    pub truncate-view :
        (d : D) (n : ℕ) (v : V) → Valid d → view_at d n ≡ some v → view (truncate d n).0 ≡ v
    pub truncate-Valid : (d : D) (n : ℕ) → Valid d → Valid (truncate d n).0
    pub resume-view : (v : V) (d : D) → resume v ≡ ok d → view d ≡ v
    pub resume-Valid : (v : V) (d : D) → resume v ≡ ok d → Valid d
    pub truncate_above :
        (d : D) (n m : ℕ) (v : V)
        → Valid d
        → view_at d n ≡ some v
        → n < m
        → view_at (truncate d n).0 m ≡ none
    pub truncate_below :
        (d : D) (n m : ℕ) (v : V)
        → Valid d
        → view_at d n ≡ some v
        → m ≤ n
        → view_at (truncate d n).0 m ≡ view_at d m

  -- Work that was opened on a structure, and has taken any number of patches since.
  pub data Staged (d : D) : S → Type 0 where
    opened : Staged d (stage d)
    patched : (s s' : S) (p : P) → Staged d s → stage_patch d s p ≡ ok s' → Staged d s'

  -- The promises that only a structure with a history can keep: work that was opened at another
  -- version is refused and changes nothing, and nothing is retained below a resumed view.
  pub record IsStrict (Valid : D → Type 0) : Type 0 where
    pub lawful : IsLawful Valid
    pub commit_stale :
        (d opened_on : D) (s : S)
        → Staged opened_on s
        → version d ≢ version opened_on
        → (e : E) × (commit d s ≡ (d, err e))
    pub resume_bare :
        (v : V) (d : D) (n : ℕ) → resume v ≡ ok d → n < view_version v → view_at d n ≡ none
