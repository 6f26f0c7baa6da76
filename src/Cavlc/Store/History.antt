-- ===== src/Cavlc/Store/History.antt =====
-- mvcc.rs: the history of a store explains its snapshots, and replaying it rebuilds them.
use lug.Prelude.{
  ℕ, zero, suc, ◌+◌, ◌-◌, ◌≡◌, ◌≢◌, refl, sym, ap, ◌∙◌, true, false, Bool-cases, inl, inr, none,
  List, [], ◌∷◌, ◌++◌, length, take, last_or, ltb, leb, ◌==◌, checked_suc, subst, is_empty,
  ne_nil_of_is_empty, checked_suc-eq-some, ◌⊎◌, ok, ok_or, ok_or-eq-ok, >>=-eq-ok, ok-injective,
  ok-ne-err,
}
use lug.Prelude.Ord.{Ord, Eq}
use lug.Cavlc.Value.{Value}
use lug.Cavlc.Patch.{Patch, apply}
use lug.Cavlc.Store.{
  ApplyResult, Snapshot, Commit, Batch, Store, snapshot, snapshots, begin_batch, batch_apply,
  apply_batch, publish, truncate,
}

module _ {ℓ} {K : Type ℓ} {A : Type ℓ} ⦃o : Ord K⦄ ⦃e : Eq A⦄ where
  -- Applying the patches in turn, each of them changing something, leads from one root to the other.
  abbrev pub Leads : Value K A → List (Patch K A) → Value K A → Type ℓ
  Leads v [] w = v ≡ w
  Leads v (p ∷ ps) w = (next : Value K A) × (apply p v ≡ ok (next, false)) × Leads next ps w

  -- A batch whose patches lead from its base to its working root.
  abbrev pub IsBatch : Batch K A → Type ℓ
  IsBatch b = Leads b.base.root b.patches b.working

  -- Each commit leads, with at least one patch, from a snapshot to the next, which has the next
  -- version, and the commit has it too.
  pub data Chain : Snapshot K A → List (Snapshot K A) → List (Commit K A) → Type ℓ where
    start : {s : Snapshot K A} → Chain s [] []
    link :
        {s t : Snapshot K A} {ts : List (Snapshot K A)} {c : Commit K A} {cs : List (Commit K A)}
        → t.version ≡ suc s.version
        → c.version ≡ t.version
        → c.patches ≢ []
        → Leads s.root c.patches t.root
        → Chain t ts cs
        → Chain s (t ∷ ts) (c ∷ cs)

  pub record IsStore (s : Store K A) : Type ℓ where
    pub base_version : s.first.version ≡ s.base
    pub chain : Chain s.first s.rest s.log

  Leads-append :
      (v w x : Value K A) (ps : List (Patch K A)) (p : Patch K A)
      → Leads v ps w
      → apply p w ≡ ok (x, false)
      → Leads v (ps ++ p ∷ []) x
  Leads-append v w x [] p l h = (x, rw l h, refl)
  Leads-append v w x (q ∷ ps) p (next, hq, l) h = (next, hq, Leads-append next w x ps p l h)

  Chain-append :
      {s : Snapshot K A} {ts : List (Snapshot K A)} {cs : List (Commit K A)}
      → Chain s ts cs
      → (t : Snapshot K A) (c : Commit K A) → t.version ≡ suc (last_or s ts).version
      → c.version ≡ t.version
      → c.patches ≢ []
      → Leads (last_or s ts).root c.patches t.root
      → Chain s (ts ++ t ∷ []) (cs ++ c ∷ [])
  Chain-append start t c a b n l = link a b n l start
  Chain-append (link p q r x h) t c a b n l = link p q r x (Chain-append h t c a b n l)

  pub Chain-take :
      {s : Snapshot K A} {ts : List (Snapshot K A)} {cs : List (Commit K A)}
      → Chain s ts cs
      → (n : ℕ) → Chain s (take n ts) (take n cs)
  Chain-take start zero = start
  Chain-take start (suc n) = start
  Chain-take (link p q r x h) zero = start
  Chain-take (link p q r x h) (suc n) = link p q r x (Chain-take h n)

  -- `begin_batch` gives a batch whose patches lead to its root, and `Batch::apply` keeps it so.
  pub begin_batch-IsBatch : (s : Store K A) → IsBatch (begin_batch s)
  unfolding begin_batch
  begin_batch-IsBatch s = refl

  pub batch_apply-IsBatch :
      (b b' : Batch K A) (p : Patch K A)
      → batch_apply b p ≡ ok b'
      → IsBatch b
      → IsBatch b' × (b'.base ≡ b.base) × (b'.owner ≡ b.owner)
  unfolding batch_apply
  batch_apply-IsBatch b b' p h w =
      let (next, hp, done) = >>=-eq-ok (apply p b.working) _ h in
      elim (Bool-cases next.1) [
        | inl same ↦ rw (← ok-injective (rw same at done)) (w, refl, refl)
        | inr other ↦ rw (← ok-injective (rw other at done)) (
          Leads-append b.base.root b.working next.0 b.patches p w
              (hp ∙ ap (λ f. ok (next.0, f)) other),
          refl,
          refl,
        )
      ]

  -- What a successful `apply_batch` has done.
  pub apply_batch_cases :
      (s s' : Store K A) (b : Batch K A) (r : ApplyResult K A)
      → apply_batch s b ≡ ok (s', r)
      → ((is_empty b.patches ≡ true) × (s' ≡ s) × (r.minted ≡ none))
        ⊎ ((version : ℕ) × (version ≡ suc (snapshot s).version)
            × (is_empty b.patches ≡ false)
            × (s' ≡ (publish s b version).0)
            × (r ≡ (publish s b version).1))
  unfolding apply_batch
  apply_batch_cases s s' b r h = elim (Bool-cases (s.owner == b.owner)) [
    | inr foreign ↦ absurd (ok-ne-err (rw (foreign, apply_batch) at h))
    | inl own ↦ elim (Bool-cases ((snapshot s).version == b.base.version)) [
      | inr stale ↦ absurd (ok-ne-err (rw (own, stale, apply_batch) at h))
      | inl current ↦ elim (Bool-cases (is_empty b.patches)) [
        | inl idle ↦
            let body = rw (own, current, idle, apply_batch) at h in
            inl (
              idle,
              sym (ap (λ x. x.0) (ok-injective body)),
              ap (λ x. x.1.minted) (sym (ok-injective body)),
            )
        | inr busy ↦
            let body = rw (own, current, busy, apply_batch) at h in
            let (version, next, done) =
              >>=-eq-ok (ok_or (checked_suc (snapshot s).version) _) _ body in
            let step =
              checked_suc-eq-some (snapshot s).version version
                (ok_or-eq-ok (checked_suc (snapshot s).version) _ next) in
            (let same = sym (ok-injective done) in
              inr (version, step.0, busy, ap (λ x. x.0) same, ap (λ x. x.1) same))
      ]
    ]
  ]

  publish-IsStore :
      (s : Store K A) (b : Batch K A)
      → IsStore s
      → IsBatch b
      → b.base ≡ snapshot s
      → is_empty b.patches ≡ false
      → IsStore (publish s b (suc (snapshot s).version)).0
  publish-IsStore s b h w based busy = record {
    base_version = h.base_version;
    chain =
        Chain-append h.chain (record { version = suc (snapshot s).version; root = b.working })
          (record { version = suc (snapshot s).version; patches = b.patches }) refl refl
          (ne_nil_of_is_empty b.patches busy)
          (subst (λ (t : Snapshot K A). Leads t.root b.patches b.working) based w);
  }

  -- Publishing a batch whose patches lead from the current snapshot to its root keeps the history of
  -- the store right.
  pub apply_batch-IsStore :
      (s s' : Store K A) (b : Batch K A) (r : ApplyResult K A)
      → IsStore s
      → IsBatch b
      → b.base ≡ snapshot s
      → apply_batch s b ≡ ok (s', r)
      → IsStore s'
  apply_batch-IsStore s s' b r h w based done = elim (apply_batch_cases s s' b r done) [
    | inl (idle, same, nothing) ↦ subst IsStore (sym same) h
    | inr (version, step, busy, made, answer) ↦
        subst IsStore (sym (made ∙ ap (λ v. (publish s b v).0) step))
          (publish-IsStore s b h w based busy)
  ]

  -- Truncating keeps the history of the store right.
  pub truncate-IsStore : (s : Store K A) (version : ℕ) → IsStore s → IsStore (truncate s version)
  unfolding truncate
  truncate-IsStore s version h = elim (Bool-cases (ltb version s.base)) [
    | inl below ↦ rw below h
    | inr above ↦ elim (Bool-cases (leb (length (snapshots s)) (version - s.base + 1))) [
      | inl all ↦ rw (above, all) h
      | inr some_left ↦
          rw (above, some_left)
            (record {
              base_version = h.base_version;
              chain = Chain-take h.chain (version - s.base);
            })
    ]
  ]
