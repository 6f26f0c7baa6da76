-- ===== src/Core/Log/Recovery.antt =====
-- log.rs, `open`, and what an encoding that fails does to `append`.
use native.Mathlib.Nat.{le_trans, le_of_eq, le_refl}
use lug.Prelude.{
  ℕ, ◌≤◌, ◌<◌, ◌≡◌, refl, sym, ap, ◌∙◌, inl, inr, subst, Bool-cases, Option, none, some, List, [],
  ◌∷◌, All, leb, leb→le, leb_false→lt, ◌==◌, ==_iff, arith, Result, ok, err, ok_or, >>=-eq-ok,
  ok-injective, ok-ne-err,
}
use lug.Core.Reducible.{Reducible, version, Committed, failed, idle, minted, IsLawful}
use lug.Core.Storage.{Record, Recovered, Storage}
use lug.Core.Log.{
  Codec, Log, data_error, storage_error, adopt, adopt_header, replay_record, replay_tail, open_log,
}
use lug.Core.Log.Fold.{IsSound}

module _ {D P V S E W B F : Type 0} (r : Reducible D P V S E) (w : Storage W V B F) (c : Codec P B)
    {Valid : D → Type 0} (lawful : IsLawful r Valid) where
  data_error-eq-ok :
      {X : Type 0} (m : Result E X) {x : X} → data_error {E = E} {F = F} m ≡ ok x → m ≡ ok x
  data_error-eq-ok (ok y) h = cc
  data_error-eq-ok (err e) h = cc

  storage_error-eq-ok :
      {X : Type 0} (m : Result F X) {x : X} → storage_error {E = E} {F = F} m ≡ ok x → m ≡ ok x
  storage_error-eq-ok (ok y) h = cc
  storage_error-eq-ok (err e) h = cc

  -- What replaying one record has done.
  record Replayed (d : D) (n : ℕ) (d' : D) : Type 0 where
    valid : Valid d'
    risen : version r d ≤ version r d'
    covered : n ≤ version r d'

  adopt-Replayed :
      {d d' : D} {res : Result E (Option V)}
      → Committed r d d' res
      → (n : ℕ) (out : D) → Valid d'
      → version r d < n
      → adopt r w c d' res n ≡ ok out
      → Replayed d n out
  unfolding adopt
  adopt-Replayed (failed e) n out valid above h = absurd (ok-ne-err h)
  adopt-Replayed idle n out valid above h = absurd (ground (arith, h))
  adopt-Replayed {d} (minted d' v current stepped older) n out valid above h =
      elim (Bool-cases (r.view_version v == n)) [
        | inr other ↦ absurd (ok-ne-err (rw other at h))
        | inl same ↦
            let at_n : version r d' ≡ n = ap r.view_version current ∙ (==_iff _ _).0 same in
            subst (Replayed d n) (ok-injective (rw same at h))
              (record { valid = valid; risen = omega arith; covered = omega arith })
      ]

  replay_record-Replayed :
      (d d' : D) (rec : Record B)
      → Valid d
      → replay_record r w c d rec ≡ ok d'
      → Replayed d rec.version d'
  unfolding replay_record
  replay_record-Replayed d d' rec valid h = elim (Bool-cases (leb rec.version (version r d))) [
    | inl old ↦
        subst (Replayed d rec.version) (ok-injective (rw (old, replay_record) at h))
          (record { valid = valid; risen = omega arith; covered = leb→le _ _ old })
    | inr new ↦
        let above = leb_false→lt _ _ new in
        let (patch, decoded, body) =
          >>=-eq-ok (ok_or (c.decode rec.patch) _) _ (rw (new, replay_record) at h) in
        let (staged, accepted, last) =
          >>=-eq-ok (data_error (r.stage_patch d (r.stage d) patch)) _ body in
        let staged_ok = data_error-eq-ok (r.stage_patch d (r.stage d) patch) accepted in
        adopt-Replayed (lawful.commit-Committed d patch staged valid staged_ok) rec.version d'
          (lawful.commit-Valid d patch staged valid staged_ok) above last
  ]

  replay_tail-Replayed :
      (d d' : D) (tail : List (Record B))
      → Valid d
      → replay_tail r w c d tail ≡ ok d'
      → Valid d' × (version r d ≤ version r d') × All (λ rec. rec.version ≤ version r d') tail
  unfolding replay_tail
  replay_tail-Replayed d d' [] valid h =
      let same = ok-injective h in (subst Valid same valid, le_of_eq (ap (version r) same), tt)
  replay_tail-Replayed d d' (rec ∷ tail) valid h =
      let (next, one, rest) = >>=-eq-ok (replay_record r w c d rec) _ h in
      let step = replay_record-Replayed d next rec valid one in
      let (valid', risen, covered) = replay_tail-Replayed next d' tail step.valid rest in
      (valid', le_trans step.risen risen, (le_trans step.covered risen, covered))

  -- A version that the header of a storage, if there is one, is not above.
  abbrev pub HeaderBelow : ℕ → Option V → Type 0
  HeaderBelow n none = Unit
  HeaderBelow n (some view) = r.view_version view ≤ n

  adopt_header-Valid :
      (zero_state d : D) (header : Option V) (n : ℕ)
      → Valid zero_state
      → adopt_header r w c zero_state header ≡ ok d
      → version r d ≤ n
      → Valid d × HeaderBelow n header
  unfolding adopt_header
  adopt_header-Valid zero_state d none n valid h below = (subst Valid (ok-injective h) valid, tt)
  adopt_header-Valid zero_state d (some view) n valid h below =
      let resumed = data_error-eq-ok (r.resume view) h in
      (
        lawful.resume-Valid view d resumed,
        rw (← ap r.view_version (lawful.resume-view view d resumed)) below,
      )

  -- A log that opens is sound, has everything synced, and stands at a version that neither the
  -- recovered header nor any recovered record is above.
  pub open_log-IsSound :
      (zero_state : D) (storage : W) (recovered : Recovered V B) (log : Log D W)
      → Valid zero_state
      → (w.load storage).1 ≡ ok recovered
      → open_log r w c zero_state storage ≡ ok log
      → IsSound r w c lawful log
        × (log.synced ≡ log.watermark)
        × HeaderBelow log.watermark recovered.header
        × All (λ rec. rec.version ≤ log.watermark) recovered.tail
  unfolding open_log
  open_log-IsSound zero_state storage recovered log valid loaded h =
      let (found, loaded', body) = >>=-eq-ok (storage_error (w.load storage).1) _ h in
      let same : found ≡ recovered =
        ok-injective (sym (storage_error-eq-ok (w.load storage).1 loaded') ∙ loaded) in
      let (begun, started, body') = >>=-eq-ok (adopt_header r w c zero_state found.header) _ body in
      let (ended, replayed, last) = >>=-eq-ok (replay_tail r w c begun found.tail) _ body' in
      let n = version r ended in
      let valid_begun =
        (adopt_header-Valid zero_state begun found.header (version r begun) valid started
          (le_refl _)).0 in
      let (valid_ended, risen, tail) =
        replay_tail-Replayed begun ended found.tail valid_begun replayed in
      let (_, header) = adopt_header-Valid zero_state begun found.header n valid started risen in
      rw (← ok-injective last) (
        record { valid = valid_ended; level = refl; behind = le_refl _ },
        refl,
        subst (λ (x : Recovered V B). HeaderBelow n x.header) same header,
        subst (λ (x : Recovered V B). All (λ rec. rec.version ≤ n) x.tail) same tail,
      )
