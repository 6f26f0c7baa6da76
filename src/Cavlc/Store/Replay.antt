-- ===== src/Cavlc/Store/Replay.antt =====
-- mvcc.rs: `replay` rebuilds a store from its first root and its log.
use lug.Prelude.{
  suc, ◌<◌, ◌≡◌, ◌≢◌, sym, ap, subst, ◌∙◌, true, false, List, [], ◌∷◌, ◌++◌, length, length-append,
  last_or-append, ◌==◌, ==_refl, append_assoc, append-nil, u64_mod, checked_suc_fits, All,
  is_empty_of_ne_nil, arith, ok,
}
use lug.Prelude.Ord.{Ord, Eq}
use lug.Cavlc.Value.{Value}
use lug.Cavlc.Patch.{Patch, is_object}
use lug.Cavlc.Store.{
  Snapshot, Commit, Batch, Store, snapshot, begin_batch, replay_patches, replay_commit, replay_all,
  replay,
}
use lug.Cavlc.Store.History.{Leads, Chain, start, link, IsStore}

longer {ℓ} : {B : Type ℓ} (xs : List B) (x : B) → (length (xs ++ x ∷ []) == length xs) ≡ false
longer xs x = ground (arith, length-append xs (x ∷ []))

module _ {ℓ} {K : Type ℓ} {A : Type ℓ} ⦃o : Ord K⦄ ⦃e : Eq A⦄ where
  replay_patches-Leads :
      (b : Batch K A) (ps : List (Patch K A)) (w : Value K A)
      → Leads b.working ps w
      → replay_patches b ps ≡ ok (record b { working = w; patches = b.patches ++ ps })
  unfolding replay_patches
  replay_patches-Leads b [] w l = ground (arith, append-nil b.patches)
  replay_patches-Leads b (p ∷ ps) w (next, h, l) =
      let b' = record b { working = next; patches = b.patches ++ p ∷ [] } in
      rw h (
        rw (longer b.patches p)
          (replay_patches-Leads b' ps w l ∙ ground (arith, append_assoc b.patches (p ∷ []) ps)))

  replay_commit_next :
      (s : Store K A) (ps : List (Patch K A)) (w : Value K A)
      → ps ≢ []
      → Leads (snapshot s).root ps w
      → suc (snapshot s).version < u64_mod
      → let version = suc (snapshot s).version in
        replay_commit s (record { version = version; patches = ps })
        ≡ ok (record s {
          rest = s.rest ++ record { version = version; root = w } ∷ [];
          log = s.log ++ record { version = version; patches = ps } ∷ [];
        })
  unfolding replay_commit
  replay_commit_next s ps w n l small =
      let v = (snapshot s).version in
      let filled = is_empty_of_ne_nil ps n in
      rw (checked_suc_fits v small, ==_refl (suc v), filled)
        (rw (replay_patches-Leads (begin_batch s) ps w l) (rw (==_refl s.owner, ==_refl v, filled)))

  replay_commit-link :
      (s : Store K A) (t : Snapshot K A) (c : Commit K A)
      → t.version ≡ suc (snapshot s).version
      → c.version ≡ t.version
      → c.patches ≢ []
      → Leads (snapshot s).root c.patches t.root
      → t.version < u64_mod
      → replay_commit s c ≡ ok (record s { rest = s.rest ++ t ∷ []; log = s.log ++ c ∷ [] })
  replay_commit-link s t c a b n l small =
      let c' : Commit K A = record { version = suc (snapshot s).version; patches = c.patches } in
      let t' : Snapshot K A = record { version = suc (snapshot s).version; root = t.root } in
      let ec : c' ≡ c = ap (λ v. record { version = v; patches = c.patches }) (sym (b ∙ a)) in
      let et : t' ≡ t = ap (λ v. record { version = v; root = t.root }) (sym a) in
      let next = replay_commit_next s c.patches t.root n l (omega arith) in
      ap (replay_commit s) (sym ec)
      ∙ next
      ∙ ap
          (λ (x : Snapshot K A × Commit K A).
            ok (record s { rest = s.rest ++ x.0 ∷ []; log = s.log ++ x.1 ∷ [] }))
          (λ i. (et i, ec i))

  replay_all-Chain :
      (s : Store K A) {first : Snapshot K A} {ts : List (Snapshot K A)} {cs : List (Commit K A)}
      → Chain first ts cs
      → first ≡ snapshot s
      → All (λ t. t.version < u64_mod) ts
      → replay_all s cs ≡ ok (record s { rest = s.rest ++ ts; log = s.log ++ cs })
  unfolding replay_all
  replay_all-Chain s start f small = ground (arith, append-nil s.rest, append-nil s.log)
  replay_all-Chain s (link {t} {ts} {c} {cs} a b n l h) f small =
      let s' = record s { rest = s.rest ++ t ∷ []; log = s.log ++ c ∷ [] } in
      let one =
        replay_commit-link s t c (a ∙ ap (λ (x : Snapshot K A). suc x.version) f) b n
          (subst (λ (x : Snapshot K A). Leads x.root c.patches t.root) f l) small.0 in
      let rest = replay_all-Chain s' h (sym (last_or-append s.first s.rest (t ∷ []))) small.1 in
      rw one
        (rest ∙ ground (arith, append_assoc s.rest (t ∷ []) ts, append_assoc s.log (c ∷ []) cs))

  -- Replaying the log of a store whose history is right, from the store's first root, rebuilds every
  -- snapshot and the log, if the store begins at version 0 with an object and its versions fit a
  -- `u64`.
  pub replay_log :
      (s : Store K A)
      → IsStore s
      → s.base ≡ 0
      → is_object s.first.root ≡ true
      → All (λ t. t.version < u64_mod) s.rest
      → replay s.owner s.first.root s.log ≡ ok s
  unfolding replay
  replay_log s h zero_base structural small =
      let first : Snapshot K A = record { version = 0; root = s.first.root } in
      let ef : first ≡ s.first =
        ap (λ v. record { version = v; root = s.first.root }) (sym (h.base_version ∙ zero_base)) in
      let s0 : Store K A = record {
        owner = s.owner;
        base = 0;
        first = first;
        rest = [];
        log = [];
      } in
      rw structural (
        replay_all-Chain s0 h.chain (sym ef) small ∙ (λ i. ok (record {
          owner = s.owner;
          base = sym zero_base i;
          first = ef i;
          rest = s.rest;
          log = s.log;
        })))
