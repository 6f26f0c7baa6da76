-- ===== src/Core/CavlcImpl.antt =====
-- crates/lug-core/src/cavlc_impl.rs: the versioned store as a structure that a log can fold into.
use lug.Prelude.{
  ℕ, ◌+◌, ◌-◌, ◌≤◌, ◌<◌, ◌≡◌, ◌≢◌, ◌==◌, ==_iff, lt→ltb, refl, sym, ap, ◌∙◌, subst, inl, inr,
  Result-cases, Option, none, some, get_elem?-append, length, arith, Result, ok, err, ok-injective,
  last_or, last_or-append, ltb, leb, leb→le, le→ltb_false, none_ne_some, get_elem?-last_or,
  last_or-take, take_all, Bool-cases,
}
use lug.Prelude.Ord.{Ord, Eq}
use lug.Cavlc.Error.{Error, conflict, foreign_batch}
use lug.Cavlc.Patch.{Patch}
use lug.Cavlc.Store.{
  Snapshot, Batch, Store, snapshot, snapshots, snapshot_at, truncate, resume, begin_batch,
  batch_apply, apply_batch, publish,
}
use lug.Cavlc.Store.History.{
  IsStore, IsBatch, start, begin_batch-IsBatch, batch_apply-IsBatch, apply_batch-IsStore,
  apply_batch_cases, truncate-IsStore,
}
use lug.Cavlc.Store.Versions.{version-snapshot}
use lug.Cavlc.Store.Truncation.{truncate_above, truncate_below}
use lug.Core.Reducible.{
  Reducible, version, Committed, failed, idle, minted, IsLawful, IsStrict, Staged, opened, patched,
}

module _ {K A : Type 0} ⦃o : Ord K⦄ ⦃e : Eq A⦄ where
  unfoldable pub commit :
      Store K A → Batch K A → Store K A × Result (Error K) (Option (Snapshot K A))
  commit s b = elim (apply_batch s b) [
    | err e ↦ (s, err e)
    | ok (s', r) ↦ (s', ok (elim r.minted [ none ↦ none | some c ↦ some r.snapshot ]))
  ]

  -- A store that is resumed has an identity of its own, `owner`.
  abbrev pub store_reducible :
      ℕ → Reducible (Store K A) (Patch K A) (Snapshot K A) (Batch K A) (Error K)
  store_reducible owner = record {
    view_version = λ t. t.version;
    stage = begin_batch;
    stage_patch = λ s b p. batch_apply b p;
    commit = commit;
    view = snapshot;
    view_at = snapshot_at;
    truncate = λ s version. (truncate s version, ok tt);
    resume = λ t. ok (resume owner t);
  }

  -- A published version leaves the versions before it where they are.
  snapshot_at-publish :
      (s : Store K A) (b : Batch K A) (next n : ℕ)
      → IsStore s
      → n ≤ (snapshot s).version
      → snapshot_at (publish s b next).0 n ≡ snapshot_at s n
  unfolding snapshot_at
  snapshot_at-publish s b next n h below = elim (Bool-cases (ltb n s.base)) [
    | inl low ↦ rw low refl
    | inr high ↦
        rw high
          (get_elem?-append (snapshots s) _ (n - s.base) (omega (arith, version-snapshot s h)))
  ]

  commit-Committed :
      (owner : ℕ) (s : Store K A) (b : Batch K A)
      → IsStore s
      → Committed (store_reducible owner) s (commit s b).0 (commit s b).1
  unfolding commit
  commit-Committed owner s b h = elim (Result-cases (apply_batch s b)) [
    | inr (e, refused) ↦ rw (refused, commit) (failed e)
    | inl ((s', r), done) ↦ elim (apply_batch_cases s s' b r done) [
      | inl (empty, same, nothing) ↦
          rw (done, commit)
            (rw nothing
              (subst (λ t. Committed (store_reducible owner) s t (ok none)) (sym same) idle))
      | inr (version, step, busy, made, answer) ↦
          let answer' = ap (λ x. x.snapshot) answer in
          rw (done, commit)
            (rw (made, answer)
              (minted (publish s b version).0 r.snapshot
                (last_or-append s.first s.rest _ ∙ sym answer')
                (ap (λ (t : Snapshot K A). t.version) answer' ∙ step)
                (λ n below. snapshot_at-publish s b version n h below)))
    ]
  ]

  commit-IsStore :
      (s : Store K A) (b : Batch K A)
      → IsStore s
      → IsBatch b
      → b.base ≡ snapshot s
      → IsStore (commit s b).0
  unfolding commit
  commit-IsStore s b h w based = elim (Result-cases (apply_batch s b)) [
    | inr (e, refused) ↦ rw (refused, commit) h
    | inl ((s', r), done) ↦ rw (done, commit) (apply_batch-IsStore s s' b r h w based done)
  ]

  snapshot_at-current :
      (s : Store K A) → IsStore s → snapshot_at s (snapshot s).version ≡ some (snapshot s)
  unfolding snapshot_at
  snapshot_at-current s h =
      let at = version-snapshot s h in
      let index : (snapshot s).version - s.base ≡ length s.rest = omega (arith, at) in
      rw (le→ltb_false (snapshot s).version s.base (omega (arith, at)))
        (rw index (get_elem?-last_or s.first s.rest))

  truncate-snapshot :
      (s : Store K A) (n : ℕ) (t : Snapshot K A)
      → IsStore s
      → snapshot_at s n ≡ some t
      → snapshot (truncate s n) ≡ t
  unfolding snapshot_at truncate
  truncate-snapshot s n t h found = elim (Bool-cases (ltb n s.base)) [
    | inl low ↦ absurd (none_ne_some (rw low at found))
    | inr high ↦
        let get = rw high at found in
        let last = last_or-take s.first s.rest (n - s.base) get in
        elim (Bool-cases (leb (length (snapshots s)) (n - s.base + 1))) [
          | inl all ↦
              rw (high, all)
                (ap (last_or s.first)
                    (sym (take_all (n - s.base) s.rest (omega (arith, leb→le _ _ all))))
                  ∙ last)
          | inr more ↦ rw (high, more) last
        ]
  ]

  begin_batch-base : (s : Store K A) → (begin_batch s).base ≡ snapshot s
  unfolding begin_batch
  begin_batch-base s = refl

  resume-IsStore : (owner : ℕ) (t : Snapshot K A) → IsStore (resume owner t)
  unfolding resume
  resume-IsStore owner t = record { base_version = refl; chain = start }

  resume-snapshot : (owner : ℕ) (t : Snapshot K A) → snapshot (resume owner t) ≡ t
  unfolding resume
  resume-snapshot owner t = refl

  -- A batch has the base that it was opened on, whatever it takes.
  Staged-base :
      (owner : ℕ) (s : Store K A) (b : Batch K A)
      → Staged (store_reducible owner) s b
      → IsBatch b × (b.base ≡ snapshot s)
  Staged-base owner s b opened = (begin_batch-IsBatch s, begin_batch-base s)
  Staged-base owner s b (patched b0 b1 p before accepted) =
      let (valid, based) = Staged-base owner s b0 before in
      let (valid', based', owned) = batch_apply-IsBatch b0 b1 p accepted valid in
      (valid', based' ∙ based)

  commit_stale :
      (s opened_on : Store K A) (b : Batch K A)
      → b.base ≡ snapshot opened_on
      → (snapshot s).version ≢ (snapshot opened_on).version
      → (e : Error K) × (commit s b ≡ (s, err e))
  unfolding commit apply_batch
  commit_stale s opened_on b based moved = elim (Bool-cases (s.owner == b.owner)) [
    | inr foreign ↦ (foreign_batch, rw (foreign, commit, apply_batch) refl)
    | inl own ↦ elim (Bool-cases ((snapshot s).version == b.base.version)) [
      | inl same ↦ absurd (moved ((==_iff _ _).0 same ∙ ap (λ (t : Snapshot K A). t.version) based))
      | inr other ↦
          (conflict b.base.version (snapshot s).version, rw (own, other, commit, apply_batch) refl)
    ]
  ]

  resume_bare :
      (owner : ℕ) (t : Snapshot K A) (n : ℕ) → n < t.version → snapshot_at (resume owner t) n ≡ none
  unfolding resume snapshot_at
  resume_bare owner t n below = rw (lt→ltb n t.version below) refl

  pub store_reducible-IsLawful : (owner : ℕ) → IsLawful (store_reducible owner) IsStore
  store_reducible-IsLawful owner = record {
    commit-Committed = λ s p b h accepted. commit-Committed owner s b h;
    commit-Valid = λ s p b h accepted.
        let (w, based, owned) =
          batch_apply-IsBatch (begin_batch s) b p accepted (begin_batch-IsBatch s) in
        commit-IsStore s b h w (based ∙ begin_batch-base s);
    view_at_current = snapshot_at-current;
    truncate-view = λ s n t h found. truncate-snapshot s n t h found;
    truncate-Valid = λ s n h. truncate-IsStore s n h;
    truncate_above = λ s n m t h found above. truncate_above s n m t found above;
    truncate_below = λ s n m t h found below. truncate_below s n m t found below;
    resume-view =
        λ t s resumed. subst (λ x. snapshot x ≡ t) (ok-injective resumed) (resume-snapshot owner t);
    resume-Valid = λ t s resumed. subst IsStore (ok-injective resumed) (resume-IsStore owner t);
  }

  -- A store whose history is right keeps what a log relies on: a commit of one patch fails or is
  -- identity and changes nothing, or mints the next version and leaves the earlier ones readable;
  -- truncating to a retained version makes it current, forgets those above it and keeps those below; and
  -- a resumed store stands at its snapshot. Besides, a batch that was opened at another version is
  -- refused, whatever it has taken since, and changes nothing; and a resumed store retains nothing
  -- below its snapshot.
  pub store_reducible-IsStrict : (owner : ℕ) → IsStrict (store_reducible owner) IsStore
  store_reducible-IsStrict owner = record {
    lawful = store_reducible-IsLawful owner;
    commit_stale = λ s opened_on b staged moved.
        commit_stale s opened_on b (Staged-base owner opened_on b staged).1 moved;
    resume_bare = λ t s n resumed below.
        subst (λ x. snapshot_at x n ≡ none) (ok-injective resumed) (resume_bare owner t n below);
  }
