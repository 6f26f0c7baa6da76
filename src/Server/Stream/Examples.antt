-- ===== src/Server/Stream/Examples.antt =====
-- The theorems on streams at a stream of two records and a gap.
use lug.Prelude.{
  subst, Bool-cases, inl, inr, ok-ne-err, leb_false→lt, ℕ, ◌≤◌, ◌<◌, ◌≡◌, refl, true, List, [], ◌∷◌,
  arith, Result, ok, err, leb, if◌then◌else◌,
}
use lug.Proto.{Mode, Response, Code, internal}
use lug.Server.Actor.{CatchUp, caught}
use lug.Server.Ring.{Entry, Ring}
use lug.Server.Ring
use lug.Server.Ring.Reads.{Run}
use lug.Server.Stream.{Stream, Round, run}
use lug.Server.Stream.Credit.{IsLimited, carried_all, run_credit}
use lug.Server.Stream.Order.{IsHonest, Chain, run-Chain}

abbrev entry : ℕ → Entry ℕ
entry v = record { version = v; patch = v; bytes = 10 }

abbrev small_ring : Ring ℕ
small_ring = record { capacity = 4; entries = entry 5 ∷ entry 6 ∷ [] }

-- What is below the ring is gone.
abbrev answer : ℕ → ℕ → Result Code (CatchUp ℕ)
answer after limit = if leb 4 after then err internal else ok (CatchUp.gap 4)

abbrev round_of : ℕ → Round ℕ
round_of granted = record {
  granted = granted;
  watermark = 6;
  ring = small_ring;
  catch_up = answer;
  open_ = true;
}

abbrev tail : Stream
tail = record {
  id = 3;
  from = 2;
  mode = Mode.records;
  limits = record { push = 1; push_bytes = 100 };
}

abbrev some_rounds : List (Round ℕ)
some_rounds = round_of 2 ∷ round_of 2 ∷ round_of 2 ∷ round_of 2 ∷ []

run_tail :
    run {N = ℕ} tail (err internal) true some_rounds
    ≡ Response.gap 3 2 4
      ∷ Response.records 3 (record { version = 5; patch = 5 } ∷ [])
      ∷ Response.records 3 (record { version = 6; patch = 6 } ∷ [])
      ∷ Response.end 3
      ∷ []
unfolding run Ring.read_after
run_tail = refl

answer_no_records :
    (after limit : ℕ) (out : List (Entry ℕ)) → answer after limit ≡ ok (caught out) → ⊥
answer_no_records after limit out h = elim (Bool-cases (leb 4 after)) [
  | inl e ↦ absurd (ok-ne-err (rw e at h))
  | inr e ↦ gap_ne_caught (rw e at h)
]
  where
    gap_ne_caught : ◌≡◌ {A = Result Code (CatchUp ℕ)} (ok (CatchUp.gap 4)) (ok (caught out)) → ⊥
    gap_ne_caught h' = cc

answer_gap : (after limit to : ℕ) → answer after limit ≡ ok (CatchUp.gap to) → after < to
answer_gap after limit to h = elim (Bool-cases (leb 4 after)) [
  | inl e ↦ absurd (ok-ne-err (rw e at h))
  | inr e ↦ let four : 4 ≡ to = gap-injective (rw e at h) in omega (arith, leb_false→lt _ _ e)
]
  where
    gap-injective :
        ◌≡◌ {A = Result Code (CatchUp ℕ)} (ok (CatchUp.gap 4)) (ok (CatchUp.gap to)) → 4 ≡ to
    gap-injective h' = cc

round-IsLimited : IsLimited 2 (round_of 2)
round-IsLimited = record {
  granted_le = omega arith;
  served_le = λ after limit out e. absurd (answer_no_records after limit out e);
}

abbrev RunOf : List (Entry ℕ) → Type 0
RunOf [] = Unit
RunOf (front ∷ es) = Run front.version (front ∷ es)

round-IsHonest : IsHonest (round_of 2)
round-IsHonest = record {
  marked = omega arith;
  ring_run = λ front es e. subst RunOf e (refl, (refl, tt));
  served_run = λ after limit out e. absurd (answer_no_records after limit out e);
  gap_ahead = answer_gap;
}

run_credit_example : carried_all {N = ℕ} (run tail (err internal) true some_rounds) ≤ 2
run_credit_example =
    run_credit ℕ tail 2 (err internal) true some_rounds
      (round-IsLimited, (round-IsLimited, (round-IsLimited, (round-IsLimited, tt))))

run-Chain_example : Chain {N = ℕ} 2 (run tail (err internal) true some_rounds)
run-Chain_example =
    run-Chain ℕ tail (err internal) true some_rounds
      (round-IsHonest, (round-IsHonest, (round-IsHonest, (round-IsHonest, tt))))
