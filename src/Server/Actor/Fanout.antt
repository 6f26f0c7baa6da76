-- ===== src/Server/Actor/Fanout.antt =====
-- actor.rs: fan-out comes before acknowledgement.
use lug.Prelude.{
  ℕ, ◌+◌, ◌≤◌, ◌≡◌, ap, ◌∙◌, Bool-cases, inl, inr, Option, List, [], ◌∷◌, ◌++◌, map, length, take,
  drop, ◌==◌, arith, Result-cases,
}
use mathlib.Core.List.{map-append}
use lug.Core.Reducible.{Reducible}
use lug.Core.Storage.{Storage}
use lug.Core.Log.{Codec, Durability, is_durable}
use lug.Core.Log
use lug.Server.Ring.{Entry}
use lug.Server.Ring
use lug.Server.Json.{Json}
use lug.Server.Actor.{
  Event, pushed, raised, replied, Answer, acked, viewed, served, checkpointed, failed, Job, Actor,
  entries_of, entries, acks, minted, all_patches, strongest, publish, deliver, commit_with,
  commit_one, isolate, commit, code_for, record_batch,
}
use lug.Server.Actor.Replies.{occurrences, occurrences-append, auto_checkpoint-trace, refill-counts}

abbrev versions : {J : Type 0} → List (Entry J) → List ℕ
versions es = map (λ e. e.version) es

-- The versions that a trace has pushed.
abbrev pub fanned : {J : Type 0} → List (Event J) → List ℕ
fanned [] = []
fanned (pushed es ∷ trace) = versions es ++ fanned trace
fanned (raised n ∷ trace) = fanned trace
fanned (replied reply a ∷ trace) = fanned trace

occurrences-fanned :
    {J : Type 0} (v : ℕ) (s t : List (Event J))
    → occurrences v (fanned (s ++ t)) ≡ occurrences v (fanned s) + occurrences v (fanned t)
occurrences-fanned v [] t = omega arith
occurrences-fanned v (pushed es ∷ s) t = omega (
  arith,
  occurrences-fanned v s t,
  occurrences-append v (versions es) (fanned (s ++ t)),
  occurrences-append v (versions es) (fanned s),
)
occurrences-fanned v (raised n ∷ s) t = occurrences-fanned v s t
occurrences-fanned v (replied reply a ∷ s) t = occurrences-fanned v s t

-- Each of the versions is among those seen.
abbrev pub Among : List ℕ → List ℕ → Type 0
Among seen vs = (v : ℕ) → occurrences v vs ≤ occurrences v seen

-- What an answer acknowledges.
abbrev pub acknowledged : {J : Type 0} → Answer J → List ℕ
acknowledged (acked ack) = ack.versions
acknowledged (viewed version state) = []
acknowledged (served found) = []
acknowledged checkpointed = []
acknowledged (failed code) = []

-- Every version that a trace acknowledges has been pushed before.
abbrev pub Announced : {J : Type 0} → List ℕ → List (Event J) → Type 0
Announced seen [] = Unit
Announced seen (pushed es ∷ trace) = Announced (versions es ++ seen) trace
Announced seen (raised n ∷ trace) = Announced seen trace
Announced seen (replied reply a ∷ trace) = Among seen (acknowledged a) × Announced seen trace

Announced-more :
    {J : Type 0} (seen more : List ℕ) (trace : List (Event J))
    → Among more seen
    → Announced seen trace
    → Announced more trace
Announced-more seen more [] grown h = h
Announced-more seen more (pushed es ∷ trace) grown h =
    Announced-more (versions es ++ seen) (versions es ++ more) trace
      (λ v. omega (
        arith,
        grown v,
        occurrences-append v (versions es) seen,
        occurrences-append v (versions es) more,
      ))
      h
Announced-more seen more (raised n ∷ trace) grown h = Announced-more seen more trace grown h
Announced-more seen more (replied reply a ∷ trace) grown (now, later) =
    (λ v. omega (arith, now v, grown v), Announced-more seen more trace grown later)

Announced-append :
    {J : Type 0} (seen : List ℕ) (s t : List (Event J))
    → Announced seen s
    → Announced (fanned s ++ seen) t
    → Announced seen (s ++ t)
Announced-append seen [] t h k = k
Announced-append seen (pushed es ∷ s) t h k = Announced-append (versions es ++ seen) s t h (
    Announced-more (fanned (pushed es ∷ s) ++ seen) (fanned s ++ (versions es ++ seen)) t
      (λ v. omega (
        arith,
        occurrences-append v (versions es ++ fanned s) seen,
        occurrences-append v (versions es) (fanned s),
        occurrences-append v (fanned s) (versions es ++ seen),
        occurrences-append v (versions es) seen,
      ))
      k)
Announced-append seen (raised n ∷ s) t h k = Announced-append seen s t h k
Announced-append seen (replied reply a ∷ s) t (now, later) k =
    (now, Announced-append seen s t later k)

module _ {N P : Type 0} where
  acks-Announced :
      (jobs : List (Job (Json N) P)) (rising : List (Option ℕ)) (synced : ℕ) (seen : List ℕ)
      → Among seen (versions (entries jobs rising))
      → Announced seen (acks jobs rising synced)
  acks-Announced [] rising synced seen h = tt
  acks-Announced (j ∷ jobs) rising synced seen h =
      let own = entries_of j.raw (take (length j.patches) rising) in
      let rest = entries jobs (drop (length j.patches) rising) in
      let split : (v : ℕ)
          → occurrences v (versions (own ++ rest))
            ≡ occurrences v (versions own) + occurrences v (versions rest) =
        λ v.
          ap (occurrences v) (map-append (λ e. e.version) own rest)
          ∙ occurrences-append v (versions own) (versions rest) in
      (
        λ v. omega (arith, h v, split v),
        acks-Announced jobs (drop (length j.patches) rising) synced seen
            (λ v. omega (arith, h v, split v)),
      )

module _ {D P V S E W B F N : Type 0} (r : Reducible D P V S E) (w : Storage W V B F)
    (c : Codec P B) where
  publish-Announced :
      (a : Actor D W (Json N)) (es : List (Entry (Json N)))
      → Announced [] a.trace
      → Announced [] (publish r w c a es).trace
        × Among (fanned (publish r w c a es).trace ++ []) (versions es)
  unfolding publish
  publish-Announced a [] h = (h, λ v. omega arith)
  publish-Announced a (e ∷ es) h =
      let sent : Actor D W (Json N) = record a {
        ring = Ring.push a.ring (e ∷ es);
        watermark = a.log.watermark;
        trace = a.trace ++ pushed (e ∷ es) ∷ raised a.log.watermark ∷ [];
      } in
      rw (auto_checkpoint-trace r w c sent) (
        Announced-append [] a.trace (pushed (e ∷ es) ∷ raised a.log.watermark ∷ []) h tt,
        λ v. omega (
          arith,
          occurrences-fanned v a.trace (pushed (e ∷ es) ∷ raised a.log.watermark ∷ []),
          occurrences-append v (versions (e ∷ es)) [],
          occurrences-append v (fanned (a.trace ++ pushed (e ∷ es) ∷ raised a.log.watermark ∷ []))
              [],
        ),
      )

  deliver-Announced :
      (a : Actor D W (Json N)) (jobs : List (Job (Json N) P)) (base : ℕ) (views : List V)
      (durability : Durability)
      → Announced [] a.trace
      → Announced [] (deliver r w c a jobs base views durability).trace
  unfolding deliver
  deliver-Announced a jobs base views durability h =
      let rising = minted r.view_version base views in
      let counted : Actor D W (Json N) = record a {
        metrics = record_batch a.metrics (length (all_patches jobs)) (is_durable durability);
      } in
      let (before, among) = publish-Announced counted (entries jobs rising) h in
      Announced-append [] (publish r w c counted (entries jobs rising)).trace
        (acks jobs rising a.log.synced) before (acks-Announced jobs rising a.log.synced _ among)

  refusal-Announced :
      (trace : List (Event (Json N))) (reply : ℕ) (e : Log.LogError E F)
      → Announced [] trace
      → Announced [] (trace ++ replied reply (failed (code_for e)) ∷ [])
  refusal-Announced trace reply e h =
      Announced-append [] trace (replied reply (failed (code_for e)) ∷ []) h (λ v. omega arith, tt)

  commit_with-Announced :
      (again : Actor D W (Json N) → List (Job (Json N) P) → Actor D W (Json N))
      (a : Actor D W (Json N)) (jobs : List (Job (Json N) P))
      → ((a' : Actor D W (Json N)) → Announced [] a'.trace → Announced [] (again a' jobs).trace)
      → Announced [] a.trace
      → Announced [] (commit_with r w c again a jobs).trace
  unfolding commit_with
  commit_with-Announced again a [] more h = h
  commit_with-Announced again a (j ∷ jobs) more h =
      let patches = all_patches (j ∷ jobs) in
      let durability = strongest j.durability jobs in
      elim (Result-cases (Log.append r w c a.log patches durability).1) [
        | inl (views, fine) ↦
            rw (fine, commit_with)
              (deliver-Announced _ (j ∷ jobs) a.log.watermark views durability h)
        | inr (e, bad) ↦ elim (Bool-cases (length (j ∷ jobs) == 1)) [
          | inl one ↦ rw (bad, one, commit_with) (refusal-Announced a.trace j.reply e h)
          | inr many ↦ rw (bad, many, commit_with, refill-counts (j ∷ jobs)) (more _ h)
        ]
      ]

  isolate-Announced :
      (a : Actor D W (Json N)) (jobs : List (Job (Json N) P))
      → Announced [] a.trace
      → Announced [] (isolate r w c a jobs).trace
  unfolding isolate commit_one
  isolate-Announced a [] h = h
  isolate-Announced a (j ∷ jobs) h =
      isolate-Announced (commit_one r w c a j) jobs
        (commit_with-Announced (λ a' jobs'. a') a (j ∷ []) (λ a' h'. h') h)

  -- A group commit keeps it so that every version that a reply acknowledges has been pushed to the
  -- ring before that reply, whether the append of the group succeeds or not.
  pub commit-Announced :
      (a : Actor D W (Json N)) (jobs : List (Job (Json N) P))
      → Announced [] a.trace
      → Announced [] (commit r w c a jobs).trace
  unfolding commit
  commit-Announced a jobs h =
      commit_with-Announced (isolate r w c) a jobs (λ a' h'. isolate-Announced a' jobs h') h
