-- ===== src/Cavlc/Store/Versions.antt =====
-- mvcc.rs: which versions a store holds, and what its version check lets through.
use lug.Prelude.{
  ℕ, zero, suc, ◌+◌, ◌-◌, ◌<◌, ◌≤◌, ◌≡◌, refl, sym, ap, ◌∙◌, Bool, true, false, Bool-cases, inl,
  inr, some, List, [], ◌∷◌, length, length-take, last_or, last_or-append, get_elem?, is_empty, leb,
  ==_iff, leb→le, le→ltb_false, u64_mod, checked_suc_fits, arith, ok,
}
use lug.Prelude.Ord.{Ord, Eq}
use lug.Cavlc.Store.{
  Snapshot, Commit, Batch, Store, ApplyResult, snapshot, snapshots, snapshot_at, truncate,
  apply_batch, publish,
}
use lug.Cavlc.Store.History.{Chain, start, link, IsStore, apply_batch_cases, Chain-take}

false-ne-true : {b : Bool} → b ≡ false → b ≡ true → ⊥
false-ne-true p q = cc

module _ {ℓ} {K : Type ℓ} {A : Type ℓ} ⦃o : Ord K⦄ ⦃e : Eq A⦄ where
  version-last :
      {s : Snapshot K A} {ts : List (Snapshot K A)} {cs : List (Commit K A)}
      → Chain s ts cs
      → (last_or s ts).version ≡ s.version + length ts
  version-last start = omega arith
  version-last (link p q r x h) = omega (arith, version-last h)

  get_elem?-Chain :
      {s : Snapshot K A} {ts : List (Snapshot K A)} {cs : List (Commit K A)}
      → Chain s ts cs
      → (n : ℕ) → n ≤ length ts
      → (t : Snapshot K A) × (get_elem? (s ∷ ts) n ≡ some t) × (t.version ≡ s.version + n)
  get_elem?-Chain {s} start zero h = (s, refl, omega arith)
  get_elem?-Chain start (suc n) h = absurd (omega arith)
  get_elem?-Chain {s} (link p q r x c) zero h = (s, refl, omega arith)
  get_elem?-Chain (link p q r x c) (suc n) h =
      let (t, found, version) = get_elem?-Chain c n (omega arith) in (t, found, omega arith)

  -- The version of the current snapshot.
  pub version-snapshot : (s : Store K A) → IsStore s → (snapshot s).version ≡ s.base + length s.rest
  version-snapshot s h = omega (arith, version-last h.chain, h.base_version)

  -- Every version from the base up to the current one is held, and is found under its number.
  pub snapshot_at_held :
      (s : Store K A) (version : ℕ)
      → IsStore s
      → s.base ≤ version
      → version ≤ (snapshot s).version
      → (t : Snapshot K A) × (snapshot_at s version ≡ some t) × (t.version ≡ version)
  unfolding snapshot_at
  snapshot_at_held s version h low high =
      let (t, found, numbered) =
        get_elem?-Chain h.chain (version - s.base) (omega (arith, version-snapshot s h)) in
      (t, rw (le→ltb_false version s.base low) found, omega (arith, h.base_version))

  -- After truncating to a version that is held, that version is the current one.
  pub truncate-version :
      (s : Store K A) (version : ℕ)
      → IsStore s
      → s.base ≤ version
      → version ≤ (snapshot s).version
      → (snapshot (truncate s version)).version ≡ version
  unfolding truncate
  truncate-version s version h low high =
      rw (le→ltb_false version s.base low)
        (elim (Bool-cases (leb (length (snapshots s)) (version - s.base + 1))) [
          | inl all ↦ rw all (omega (arith, version-snapshot s h, leb→le _ _ all))
          | inr some_left ↦ rw some_left (
              omega (
                arith,
                version-last (Chain-take h.chain (version - s.base)),
                length-take (version - s.base) s.rest,
                version-snapshot s h,
                h.base_version,
              ))
        ])

  truncate-owner : (s : Store K A) (version : ℕ) → (truncate s version).owner ≡ s.owner
  unfolding truncate
  truncate-owner s version = ground arith

  -- What `apply_batch` asks of a batch that carries patches.
  apply_batch_accepts :
      (s : Store K A) (b : Batch K A)
      → s.owner ≡ b.owner
      → (snapshot s).version ≡ b.base.version
      → is_empty b.patches ≡ false
      → suc (snapshot s).version < u64_mod
      → apply_batch s b ≡ ok (publish s b (suc (snapshot s).version))
  unfolding apply_batch
  apply_batch_accepts s b own current busy small =
      rw ((==_iff _ _).1 own, (==_iff _ _).1 current, busy) (rw (checked_suc_fits _ small))

  -- The version check does not look at what a version holds: if the current version of a store is
  -- discarded and another batch publishes that version again, a batch that was based on the
  -- discarded snapshot is still accepted, and its root becomes the current one.
  pub stale_batch_accepted :
      (s s' : Store K A) (b b' : Batch K A) (r : ApplyResult K A)
      → IsStore s
      → s.base < (snapshot s).version
      → suc (snapshot s).version < u64_mod
      → b.owner ≡ s.owner
      → b.base ≡ snapshot s
      → is_empty b.patches ≡ false
      → is_empty b'.patches ≡ false
      → apply_batch (truncate s ((snapshot s).version - 1)) b' ≡ ok (s', r)
      → (s'' : Store K A) × (r' : ApplyResult K A) × (apply_batch s' b ≡ ok (s'', r'))
        × ((snapshot s'').root ≡ b.working)
  stale_batch_accepted s s' b b' r h above small own based busy busy' done =
      let v = (snapshot s).version in
      let t = truncate s (v - 1) in
      let back = truncate-version s (v - 1) h (omega arith) (omega arith) in
      elim (apply_batch_cases t s' b' r done) [
        | inl (idle, same, nothing) ↦ absurd (false-ne-true busy' idle)
        | inr (version, step, some_patch, made, answer) ↦
            let again : (snapshot s').version ≡ v =
              ap (λ (x : Store K A). (snapshot x).version) made
              ∙ ap (λ (x : Snapshot K A). x.version)
                  (last_or-append t.first t.rest
                    (record { version = version; root = b'.working } ∷ []))
              ∙ omega arith in
            let owned : s'.owner ≡ b.owner =
              ap (λ (x : Store K A). x.owner) made ∙ truncate-owner s (v - 1) ∙ sym own in
            let current : (snapshot s').version ≡ b.base.version =
              again ∙ ap (λ (x : Snapshot K A). x.version) (sym based) in
            let out = publish s' b (suc (snapshot s').version) in
            (
              out.0,
              out.1,
              apply_batch_accepts s' b owned current busy (rw again small),
              ap (λ (x : Snapshot K A). x.root)
                  (last_or-append s'.first s'.rest
                    (record { version = suc (snapshot s').version; root = b.working } ∷ [])),
            )
      ]
