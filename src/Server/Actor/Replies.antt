-- ===== src/Server/Actor/Replies.antt =====
-- actor.rs: every request is answered, and answered once.
use lug.Prelude.{
  ℕ, ◌+◌, ◌≡◌, refl, sym, ap, ◌∙◌, true, false, Bool-cases, inl, inr, Option, List, [], ◌∷◌, ◌++◌,
  map, length, append_assoc, append-nil, ◌==◌, if◌then◌else◌, arith, Result-cases, Option-cases,
  ltb, leb, ◌-◌, ◌&&◌, take-append_length, drop-append_length,
}
use mathlib.Core.List.{map-append}
use lug.Core.Reducible.{Reducible}
use lug.Core.Storage.{Storage}
use lug.Core.Log.{Durability, Codec}
use lug.Core.Log
use lug.Server.Ring.{Entry, Ring}
use lug.Server.Ring
use lug.Server.Json.{Json}
use lug.Server.Actor.{
  Command, append, view, catch_up, checkpoint, Event, pushed, raised, replied, Job, Actor, say,
  entries, minted, strongest, failed, code_for, checkpointed, storage, rejected, reply_of, refill,
  counts, all_patches, acks, auto_checkpoint, publish, deliver, commit_with, commit_one, isolate,
  commit,
}
use lug.Server.Actor.Queue.{decode, answer, drain_loop, drain}

-- The requests that a trace has answered, in its order.
abbrev pub answered : {J : Type 0} → List (Event J) → List ℕ
answered [] = []
answered (pushed entries ∷ trace) = answered trace
answered (raised n ∷ trace) = answered trace
answered (replied reply a ∷ trace) = reply ∷ answered trace

abbrev pub occurrences : ℕ → List ℕ → ℕ
occurrences n [] = 0
occurrences n (m ∷ ms) = (if n == m then 1 else 0) + occurrences n ms

answered-append : {J : Type 0} (s t : List (Event J)) → answered (s ++ t) ≡ answered s ++ answered t
answered-append [] t = refl
answered-append (pushed entries ∷ s) t = answered-append s t
answered-append (raised n ∷ s) t = answered-append s t
answered-append (replied reply a ∷ s) t = ap (λ x. reply ∷ x) (answered-append s t)

pub occurrences-append :
    (n : ℕ) (s t : List ℕ) → occurrences n (s ++ t) ≡ occurrences n s + occurrences n t
occurrences-append n [] t = omega arith
occurrences-append n (m ∷ s) t = omega (arith, occurrences-append n s t)

module _ {N P : Type 0} where
  abbrev pub replies : List (Job (Json N) P) → List ℕ
  replies jobs = map (λ j. j.reply) jobs

  answered-acks :
      (jobs : List (Job (Json N) P)) (minted : List (Option ℕ)) (synced : ℕ)
      → answered (acks jobs minted synced) ≡ replies jobs
  answered-acks [] minted synced = refl
  answered-acks (j ∷ jobs) minted synced = ap (λ x. j.reply ∷ x) (answered-acks jobs _ synced)

  -- `isolate` gives every job exactly the patches that it had.
  pub refill-counts :
      (jobs : List (Job (Json N) P)) → refill jobs (counts jobs) (all_patches jobs) ≡ jobs
  refill-counts [] = refl
  refill-counts (j ∷ jobs) =
      rw
        (
          take-append_length j.patches (all_patches jobs),
          drop-append_length j.patches (all_patches jobs),
          refill-counts jobs,
        )
        refl

nil_of_one : {A : Type 0} (x : A) (xs : List A) → (length (x ∷ xs) == 1) ≡ true → xs ≡ []
nil_of_one x [] h = refl
nil_of_one x (y ∷ xs) h = absurd (ground (arith, h))

module _ {D P V S E W B F N : Type 0} (r : Reducible D P V S E) (w : Storage W V B F)
    (c : Codec P B) where
  pub auto_checkpoint-trace : (a : Actor D W (Json N)) → (auto_checkpoint r w c a).trace ≡ a.trace
  unfolding auto_checkpoint
  auto_checkpoint-trace a =
      elim (Bool-cases
        (ltb 0 a.checkpoint_every && leb a.checkpoint_every (a.log.watermark - a.checkpointed))) [
          | inr not_due ↦ rw not_due refl
          | inl due ↦ elim (Result-cases (Log.checkpoint r w c a.log).1) [
            | inl (x, fine) ↦ rw (due, fine, auto_checkpoint) refl
            | inr (e, bad) ↦ rw (due, bad, auto_checkpoint) refl
          ]
        ]

  publish-answered :
      (a : Actor D W (Json N)) (es : List (Entry (Json N)))
      → answered (publish r w c a es).trace ≡ answered a.trace
  unfolding publish
  publish-answered a [] = refl
  publish-answered a (e ∷ es) =
      let sent : Actor D W (Json N) = record a {
        ring = Ring.push a.ring (e ∷ es);
        watermark = a.log.watermark;
        trace = a.trace ++ pushed (e ∷ es) ∷ raised a.log.watermark ∷ [];
      } in
      ap answered (auto_checkpoint-trace sent)
      ∙ answered-append a.trace (pushed (e ∷ es) ∷ raised a.log.watermark ∷ [])
      ∙ append-nil (answered a.trace)

  say-answered :
      (a : Actor D W (Json N)) (events : List (Event (Json N)))
      → answered (say a events).trace ≡ answered a.trace ++ answered events
  say-answered a events = answered-append a.trace events

  deliver-answered :
      (a : Actor D W (Json N)) (jobs : List (Job (Json N) P)) (base : ℕ) (views : List V)
      (durability : Durability)
      → answered (deliver r w c a jobs base views durability).trace
        ≡ answered a.trace ++ replies jobs
  unfolding deliver
  deliver-answered a jobs base views durability =
      let out = publish r w c _ (entries jobs (minted r.view_version base views)) in
      say-answered out (acks jobs (minted r.view_version base views) a.log.synced)
      ∙ ap (λ x. x ++ answered (acks jobs (minted r.view_version base views) a.log.synced))
          (publish-answered _ (entries jobs (minted r.view_version base views)))
      ∙ ap (λ x. answered a.trace ++ x) (answered-acks jobs _ a.log.synced)

  commit_with-answered :
      (again : Actor D W (Json N) → List (Job (Json N) P) → Actor D W (Json N))
      (a : Actor D W (Json N)) (jobs : List (Job (Json N) P))
      → ((a' : Actor D W (Json N))
          → (length jobs == 1) ≡ false
          → answered (again a' jobs).trace ≡ answered a'.trace ++ replies jobs)
      → answered (commit_with r w c again a jobs).trace ≡ answered a.trace ++ replies jobs
  unfolding commit_with
  commit_with-answered again a [] h = sym (append-nil (answered a.trace))
  commit_with-answered again a (j ∷ jobs) h =
      elim (Result-cases
        (Log.append r w c a.log (all_patches (j ∷ jobs)) (strongest j.durability jobs)).1) [
          | inl (views, fine) ↦
              rw (fine, commit_with)
                (deliver-answered _ (j ∷ jobs) a.log.watermark views (strongest j.durability jobs))
          | inr (e, bad) ↦ elim (Bool-cases (length (j ∷ jobs) == 1)) [
            | inl one ↦
                rw (bad, one, commit_with, nil_of_one j jobs one)
                  (answered-append a.trace (replied j.reply (failed (code_for e)) ∷ []))
            | inr many ↦ rw (bad, many, commit_with, refill-counts (j ∷ jobs)) (h _ many)
          ]
        ]

  commit_one-answered :
      (a : Actor D W (Json N)) (j : Job (Json N) P)
      → answered (commit_one r w c a j).trace ≡ answered a.trace ++ j.reply ∷ []
  unfolding commit_one
  commit_one-answered a j =
      commit_with-answered (λ a' jobs. a') a (j ∷ []) (λ a' many. absurd (ground (arith, many)))

  isolate-answered :
      (a : Actor D W (Json N)) (jobs : List (Job (Json N) P))
      → answered (isolate r w c a jobs).trace ≡ answered a.trace ++ replies jobs
  unfolding isolate
  isolate-answered a [] = sym (append-nil (answered a.trace))
  isolate-answered a (j ∷ jobs) =
      isolate-answered (commit_one r w c a j) jobs
      ∙ ap (λ x. x ++ replies jobs) (commit_one-answered a j)
      ∙ append_assoc (answered a.trace) (j.reply ∷ []) (replies jobs)

  -- A group commit answers its requests one after the other, each of them once, whether the append of
  -- the group succeeds or not.
  pub commit-answered :
      (a : Actor D W (Json N)) (jobs : List (Job (Json N) P))
      → answered (commit r w c a jobs).trace ≡ answered a.trace ++ replies jobs
  unfolding commit
  commit-answered a jobs =
      commit_with-answered (isolate r w c) a jobs (λ a' many. isolate-answered a' jobs)

  -- `commit` calls itself on each job of a failed group.
  pub commit-commit_one :
      (a : Actor D W (Json N)) (j : Job (Json N) P) → commit r w c a (j ∷ []) ≡ commit_one r w c a j
  unfolding commit commit_one commit_with
  commit-commit_one a j =
      elim (Result-cases (Log.append r w c a.log (all_patches (j ∷ [])) j.durability).1) [
        | inl (views, fine) ↦ rw (fine, commit_with) refl
        | inr (e, bad) ↦ rw (bad, commit_with) refl
      ]

module _ {D P V S E W B F N : Type 0} (r : Reducible D P V S E) (w : Storage W V B F)
    (c : Codec P B) (from_value : Json N → Option P) (from_slice : B → Option (Json N))
    (size : B → ℕ) (state : V → Json N) where
  abbrev pub requests : List (Command (Json N)) → List ℕ
  requests queue = map reply_of queue

  -- After a reading command the batch is empty, and it and the command have been answered.
  step_count :
      (n reply : ℕ) (a a' : Actor D W (Json N)) (batch : List (Job (Json N) P)) (left total : ℕ)
      → answered a'.trace ≡ answered (commit r w c a batch).trace ++ reply ∷ []
      → total ≡ occurrences n (answered a'.trace) + 0 + left
      → total
        ≡ occurrences n (answered a.trace)
          + occurrences n (replies batch)
          + ((if n == reply then 1 else 0) + left)
  step_count n reply a a' batch left total e h =
      let whole =
        ap (occurrences n) (e ∙ ap (λ x. x ++ reply ∷ []) (commit-answered r w c a batch)) in
      omega (
        arith,
        whole,
        h,
        occurrences-append n (answered a.trace ++ replies batch) (reply ∷ []),
        occurrences-append n (answered a.trace) (replies batch),
      )

  checkpoint-answered :
      (a : Actor D W (Json N)) (reply : ℕ)
      → answered (answer r w c from_value from_slice size state a (checkpoint reply)).trace
        ≡ answered a.trace ++ reply ∷ []
  unfolding answer
  checkpoint-answered a reply = elim (Result-cases (Log.checkpoint r w c a.log).1) [
    | inl (x, fine) ↦ rw (fine, answer) (answered-append a.trace (replied reply checkpointed ∷ []))
    | inr (e, bad) ↦
        rw (bad, answer) (answered-append a.trace (replied reply (failed storage) ∷ []))
  ]

  drain_loop-answered :
      (n : ℕ) (a : Actor D W (Json N)) (batch : List (Job (Json N) P))
      (queue : List (Command (Json N)))
      → occurrences n
          (answered (drain_loop r w c from_value from_slice size state a batch queue).trace)
        ≡ occurrences n (answered a.trace)
          + occurrences n (replies batch)
          + occurrences n (requests queue)
  unfolding drain_loop
  drain_loop-answered n a batch [] =
      let whole = ap (occurrences n) (commit-answered r w c a batch) in
      omega (arith, whole, occurrences-append n (answered a.trace) (replies batch))
  drain_loop-answered n a batch (append patches durability reply ∷ queue) =
      elim (Option-cases (decode from_value patches)) [
        | inl bad ↦
            let said : Actor D W (Json N) = say a (replied reply (failed rejected) ∷ []) in
            let whole =
              ap (occurrences n) (answered-append a.trace (replied reply (failed rejected) ∷ [])) in
            rw (bad, drain_loop)
              (omega (
                arith,
                drain_loop-answered n said batch queue,
                whole,
                occurrences-append n (answered a.trace) (reply ∷ []),
              ))
        | inr (decoded, fine) ↦
            let job : Job (Json N) P = record {
              raw = patches;
              patches = decoded;
              durability = durability;
              reply = reply;
            } in
            let more = ap (occurrences n) (map-append (λ j. j.reply) batch (job ∷ [])) in
            rw (fine, drain_loop)
              (omega (
                arith,
                drain_loop-answered n a (batch ++ job ∷ []) queue,
                more,
                occurrences-append n (replies batch) (reply ∷ []),
              ))
      ]
  drain_loop-answered n a batch (view at reply ∷ queue) =
      let done = commit r w c a batch in
      let next = answer r w c from_value from_slice size state done (view at reply) in
      step_count n reply a next batch (occurrences n (requests queue)) _
        (answered-append done.trace _) (drain_loop-answered n next [] queue)
  drain_loop-answered n a batch (catch_up after limit reply ∷ queue) =
      let done = commit r w c a batch in
      let next = answer r w c from_value from_slice size state done (catch_up after limit reply) in
      step_count n reply a next batch (occurrences n (requests queue)) _
        (answered-append done.trace _) (drain_loop-answered n next [] queue)
  drain_loop-answered n a batch (checkpoint reply ∷ queue) =
      let done = commit r w c a batch in
      let next = answer r w c from_value from_slice size state done (checkpoint reply) in
      step_count n reply a next batch (occurrences n (requests queue)) _
        (checkpoint-answered done reply) (drain_loop-answered n next [] queue)

  -- Draining a queue answers each request as often as it stands in the queue, and nothing else:
  -- whether its patches decode or not, and whether its group is committed, is taken apart or fails.
  pub drain-answered :
      (n : ℕ) (a : Actor D W (Json N)) (queue : List (Command (Json N)))
      → occurrences n (answered (drain r w c from_value from_slice size state a queue).trace)
        ≡ occurrences n (answered a.trace) + occurrences n (requests queue)
  unfolding drain
  drain-answered n a queue = omega (arith, drain_loop-answered n a [] queue)
