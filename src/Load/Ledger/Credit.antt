-- ===== src/Load/Ledger/Credit.antt =====
-- check.rs, `records`: a stream pays for what it receives.
use lug.Prelude.{
  ℕ, suc, ◌+◌, ◌-◌, ◌≡◌, refl, ap, ◌∙◌, subst, Bool-cases, inl, inr, some, Option-cases, List, [],
  ◌∷◌, ◌++◌, length, length-append, get_elem?, ◌==◌, ==_iff, arith, ok, Result-cases, ok-injective,
  ok-ne-err,
}
use lug.Prelude.Ord.{nat_ord}
use lug.Prelude.SortedMap.{find_entry, find_entry-insert_entry_self}
use lug.Core.Storage.{Record}
use lug.Server.Json.{Json}
use lug.Load.Ledger.{
  Stream, Ledger, contradicts, observe, bind, advance, sequence_of, receive, receive_all, records,
}

observe-streams :
    (l : Ledger) (log version sequence : ℕ) → (observe l log version sequence).0.streams ≡ l.streams
unfolding observe
observe-streams l log version sequence = elim (Option-cases (get_elem? l.issued sequence)) [
  | inl missing ↦ rw (missing, observe) refl
  | inr (i, found) ↦ elim (Bool-cases (i.log == log)) [
    | inr other ↦ rw (found, other, observe) refl
    | inl same ↦ elim (Bool-cases (contradicts i.observed version)) [
      | inl twice ↦ rw (found, same, twice, observe) refl
      | inr once ↦ rw (found, same, once, observe) refl
    ]
  ]
]

bind-streams :
    (l : Ledger) (log version sequence : ℕ) → (bind l log version sequence).0.streams ≡ l.streams
unfolding bind
bind-streams l log version sequence = elim (Bool-cases (version == 0)) [
  | inl none_minted ↦ rw none_minted refl
  | inr fine ↦ elim (Option-cases (get_elem? l.canonical log)) [
    | inl missing ↦ rw (fine, missing, bind) refl
    | inr (versions, found) ↦
        elim (Bool-cases (contradicts (find_entry versions version) sequence)) [
          | inl twice ↦ rw (fine, found, twice, bind) refl
          | inr once ↦ rw (fine, found, once, bind) (observe-streams _ log version sequence)
        ]
  ]
]

-- A stream after `n` more records.
record Paid (l : Ledger) (id : ℕ) (s : Stream) (n : ℕ) : Type 0 where
  stream : Stream
  found : find_entry l.streams id ≡ some stream
  moved : stream.next ≡ s.next + n
  paid : stream.credit + n ≡ s.credit

advance-Paid :
    (l : Ledger) (id version log : ℕ) (s : Stream)
    → find_entry l.streams id ≡ some s
    → (advance l id version).1 ≡ ok log
    → (version ≡ s.next) × Paid (advance l id version).0 id s 1
unfolding advance
advance-Paid l id version log s found h = elim (Bool-cases (version == s.next)) [
  | inr other ↦ absurd (ok-ne-err (rw (found, other, advance) at h))
  | inl same ↦ elim (Bool-cases (s.credit == 0)) [
    | inl broke ↦ absurd (ok-ne-err (rw (found, same, broke, advance) at h))
    | inr rich ↦
        rw (found, same, rich, advance)
          (
            (==_iff _ _).0 same,
            record {
              stream = record s { credit = s.credit - 1; next = s.next + 1 };
              found = find_entry-insert_entry_self l.streams id _;
              moved = refl;
              paid = ground (arith, rich);
            },
          )
  ]
]

receive-Paid :
    {N : Type 0} (l : Ledger) (id : ℕ) (rec : Record (Json N)) (at : ℕ) (s : Stream)
    → find_entry l.streams id ≡ some s
    → (receive l id rec).1 ≡ ok at
    → (rec.version ≡ s.next) × Paid (receive l id rec).0 id s 1
unfolding receive
receive-Paid l id rec at s found h = elim (Result-cases (advance l id rec.version).1) [
  | inr (e, bad) ↦ absurd (ok-ne-err (rw (bad, receive) at h))
  | inl (log, good) ↦
      let l₁ = (advance l id rec.version).0 in
      let (next, step) = advance-Paid l id rec.version log s found good in
      elim (Result-cases (sequence_of l₁.patch_size rec.patch)) [
        | inr (e, bad) ↦ absurd (ok-ne-err (rw (good, bad, receive) at h))
        | inl (sequence, read) ↦ elim (Result-cases (bind l₁ log rec.version sequence).1) [
          | inr (e, bad) ↦ absurd (ok-ne-err (rw (good, read, bad, receive) at h))
          | inl (x, bound) ↦
              elim (Option-cases (get_elem? (bind l₁ log rec.version sequence).0.issued sequence)) [
                | inl missing ↦ absurd (ok-ne-err (rw (good, read, bound, missing, receive) at h))
                | inr (i, held) ↦
                    rw (good, read, bound, held, receive)
                      (
                        next,
                        record {
                          stream = step.stream;
                          found =
                              ap (λ m. find_entry m id) (bind-streams l₁ log rec.version sequence)
                              ∙ step.found;
                          moved = step.moved;
                          paid = step.paid;
                        },
                      )
              ]
        ]
      ]
]

-- The versions are `n`, `n + 1` and so on.
abbrev pub Contiguous : {N : Type 0} → ℕ → List (Record (Json N)) → Type 0
Contiguous n [] = Unit
Contiguous n (rec ∷ recs) = (rec.version ≡ n) × Contiguous (suc n) recs

receive_all-Paid :
    {N : Type 0} (l : Ledger) (id : ℕ) (intended out : List ℕ) (recs : List (Record (Json N)))
    (s : Stream)
    → find_entry l.streams id ≡ some s
    → (receive_all l id intended recs).1 ≡ ok out
    → Contiguous s.next recs
      × Paid (receive_all l id intended recs).0 id s (length recs)
      × (length out ≡ length intended + length recs)
unfolding receive_all
receive_all-Paid l id intended out [] s found h = (
  tt,
  record { stream = s; found = found; moved = omega arith; paid = omega arith },
  omega (arith, ap length (ok-injective h)),
)
receive_all-Paid l id intended out (rec ∷ recs) s found h =
    elim (Result-cases (receive l id rec).1) [
      | inr (e, bad) ↦ absurd (ok-ne-err (rw (bad, receive_all) at h))
      | inl (at, good) ↦
          let (next, step) = receive-Paid l id rec at s found good in
          let (run, rest, count) =
            receive_all-Paid (receive l id rec).0 id (intended ++ at ∷ []) out recs step.stream
              step.found (rw (good, receive_all) at h) in
          let after : step.stream.next ≡ suc s.next = omega (arith, step.moved) in
          rw (good, receive_all)
            (
              (next, subst (λ n. Contiguous n recs) after run),
              record {
                stream = rest.stream;
                found = rest.found;
                moved = omega (arith, rest.moved, step.moved);
                paid = omega (arith, rest.paid, step.paid);
              },
              omega (arith, count, length-append intended (at ∷ [])),
            )
    ]

-- Records that a known stream takes without complaint go on one by one from where the stream stood,
-- and it had the credit for all of them: its next version has risen, and its credit fallen, by their
-- number, and there is one intended time for each.
pub records-Contiguous :
    {N : Type 0} (l : Ledger) (id : ℕ) (out : List ℕ) (recs : List (Record (Json N))) (s : Stream)
    → find_entry l.streams id ≡ some s
    → (records l id recs).1 ≡ ok out
    → Contiguous s.next recs
      × ((s' : Stream) × (find_entry (records l id recs).0.streams id ≡ some s')
          × (s'.next ≡ s.next + length recs)
          × (s'.credit + length recs ≡ s.credit))
      × (length out ≡ length recs)
unfolding records
records-Contiguous l id out recs s found h =
    let (run, step, count) = receive_all-Paid l id [] out recs s found h in
    (run, (step.stream, step.found, step.moved, step.paid), omega (arith, count))
