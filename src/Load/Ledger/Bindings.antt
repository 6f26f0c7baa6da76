-- ===== src/Load/Ledger/Bindings.antt =====
-- check.rs, `bind`: a payload is bound to one version of one log.
use lug.Prelude.{
  ℕ, zero, suc, ◌≡◌, ◌≢◌, refl, sym, ap, ◌∙◌, subst, false, not, Bool-cases, ◌⊎◌, inl, inr, Option,
  none, some, Option-cases, List, [], ◌∷◌, get_elem?, ◌==◌, ==_iff, arith, ok, ok-ne-err,
  some-injective, none_ne_some,
}
use lug.Prelude.Ord.{nat_ord}
use lug.Prelude.SortedMap.{
  insert_entry, find_entry, find_entry-insert_entry_self, find_entry-insert_entry_ne,
}
use lug.Load.Ledger.{Issued, Ledger, set, contradicts, observe, bind}

true_ne_false : not false ≡ false → ⊥
true_ne_false h = cc

nat-cases : (m n : ℕ) → (m ≡ n) ⊎ (m ≢ n)
nat-cases m n = elim (Bool-cases (m == n)) [
  | inl same ↦ inl ((==_iff m n).0 same)
  | inr other ↦ inr (λ e. ground (arith, e, other))
]

get_elem?-set_self {ℓ} :
    {A : Type ℓ} (xs : List A) (n : ℕ) (x : A) {y : A}
    → get_elem? xs n ≡ some y
    → get_elem? (set xs n x) n ≡ some x
get_elem?-set_self [] n x h = absurd (none_ne_some h)
get_elem?-set_self (z ∷ xs) zero x h = refl
get_elem?-set_self (z ∷ xs) (suc n) x h = get_elem?-set_self xs n x h

get_elem?-set_ne {ℓ} :
    {A : Type ℓ} (xs : List A) (n m : ℕ) (x : A) → m ≢ n → get_elem? (set xs n x) m ≡ get_elem? xs m
get_elem?-set_ne [] n m x ne = refl
get_elem?-set_ne (z ∷ xs) zero zero x ne = absurd (ne refl)
get_elem?-set_ne (z ∷ xs) zero (suc m) x ne = refl
get_elem?-set_ne (z ∷ xs) (suc n) zero x ne = refl
get_elem?-set_ne (z ∷ xs) (suc n) (suc m) x ne = get_elem?-set_ne xs n m x (λ e. ne (ap suc e))

-- The payload that a log is known to have at a version.
abbrev pub payload_in : Option (List (ℕ × ℕ)) → ℕ → Option ℕ
payload_in none version = none
payload_in (some versions) version = find_entry versions version

abbrev pub payload_at : Ledger → ℕ → ℕ → Option ℕ
payload_at l log version = payload_in (get_elem? l.canonical log) version

-- Where a payload is said to be.
abbrev pub Observed : Ledger → ℕ → ℕ → ℕ → Type 0
Observed l log version sequence =
    (i : Issued) × (get_elem? l.issued sequence ≡ some i)
    × (i.log ≡ log)
    × (i.observed ≡ some version)

-- Every payload in the canonical maps is an issued one, and is observed there.
abbrev pub IsBound : Ledger → Type 0
IsBound l =
    (log version sequence : ℕ)
    → payload_at l log version ≡ some sequence
    → Observed l log version sequence

-- What a successful `bind` has done.
record Bound (l l' : Ledger) (log version sequence : ℕ) : Type 0 where
  versions : List (ℕ × ℕ)
  issue : Issued
  held : get_elem? l.canonical log ≡ some versions
  agrees : contradicts (find_entry versions version) sequence ≡ false
  issued_before : get_elem? l.issued sequence ≡ some issue
  same_log : issue.log ≡ log
  once : contradicts issue.observed version ≡ false
  result : l' ≡ record l {
    canonical = set l.canonical log (insert_entry versions version sequence);
    issued = set l.issued sequence (record issue { observed = some version });
  }

bind-Bound :
    (l : Ledger) (log version sequence : ℕ)
    → (bind l log version sequence).1 ≡ ok tt
    → Bound l (bind l log version sequence).0 log version sequence
unfolding bind observe
bind-Bound l log version sequence h = elim (Bool-cases (version == 0)) [
  | inl minted_none ↦ absurd (ok-ne-err (rw (minted_none, bind) at h))
  | inr fine ↦ elim (Option-cases (get_elem? l.canonical log)) [
    | inl missing ↦ absurd (ok-ne-err (rw (fine, missing, bind) at h))
    | inr (versions, held) ↦
        elim (Bool-cases (contradicts (find_entry versions version) sequence)) [
          | inl twice ↦ absurd (ok-ne-err (rw (fine, held, twice, bind) at h))
          | inr agrees ↦ elim (Option-cases (get_elem? l.issued sequence)) [
            | inl missing ↦
                absurd (ok-ne-err (rw (fine, held, agrees, missing, bind, observe) at h))
            | inr (i, found) ↦ elim (Bool-cases (i.log == log)) [
              | inr other ↦
                  absurd (ok-ne-err (rw (fine, held, agrees, found, other, bind, observe) at h))
              | inl same ↦ elim (Bool-cases (contradicts i.observed version)) [
                | inl again ↦
                    absurd
                      (ok-ne-err (rw (fine, held, agrees, found, same, again, bind, observe) at h))
                | inr once ↦ record {
                  versions = versions;
                  issue = i;
                  held = held;
                  agrees = agrees;
                  issued_before = found;
                  same_log = (==_iff i.log log).0 same;
                  once = once;
                  result = rw (fine, held, agrees, found, same, once, bind, observe) refl;
                }
              ]
            ]
          ]
        ]
  ]
]

contradicts_same : (o : Option ℕ) (m n : ℕ) → o ≡ some m → contradicts o n ≡ false → m ≡ n
contradicts_same o m n e h = elim (Bool-cases (m == n)) [
  | inl same ↦ (==_iff m n).0 same
  | inr other ↦ absurd (true_ne_false (rw other at (rw e at h)))
]

module _ (l l' : Ledger) (log version sequence : ℕ) (b : Bound l l' log version sequence) where
  after : Ledger
  after = record l {
    canonical = set l.canonical log (insert_entry b.versions version sequence);
    issued = set l.issued sequence (record b.issue { observed = some version });
  }

  payload_at_self : payload_at after log version ≡ some sequence
  unfolding after
  payload_at_self =
      ap (λ m. payload_in m version) (get_elem?-set_self l.canonical log _ b.held)
      ∙ find_entry-insert_entry_self b.versions version sequence

  -- Another binding was there before.
  payload_at_before :
      (log₂ version₂ : ℕ)
      → (log₂ ≢ log) ⊎ (version₂ ≢ version)
      → payload_at after log₂ version₂ ≡ payload_at l log₂ version₂
  unfolding after
  payload_at_before log₂ version₂ (inl other) =
      ap (λ m. payload_in m version₂) (get_elem?-set_ne l.canonical log log₂ _ other)
  payload_at_before log₂ version₂ (inr other) = elim (nat-cases log₂ log) [
    | inr different ↦
        ap (λ m. payload_in m version₂) (get_elem?-set_ne l.canonical log log₂ _ different)
    | inl same ↦
        let new =
          ap (get_elem? after.canonical) same ∙ get_elem?-set_self l.canonical log _ b.held in
        let old = ap (get_elem? l.canonical) same ∙ b.held in
        ap (λ m. payload_in m version₂) new
        ∙ find_entry-insert_entry_ne b.versions version version₂ sequence other
        ∙ ap (λ m. payload_in m version₂) (sym old)
  ]

  -- A payload that was observed elsewhere is not the one that is bound.
  Observed-other :
      (log₂ version₂ sequence₂ : ℕ)
      → (log₂ ≢ log) ⊎ (version₂ ≢ version)
      → Observed l log₂ version₂ sequence₂
      → Observed after log₂ version₂ sequence₂
  unfolding after
  Observed-other log₂ version₂ sequence₂ apart (i, found, logged, observed) =
      elim (nat-cases sequence₂ sequence) [
        | inr other ↦
            (i, get_elem?-set_ne l.issued sequence sequence₂ _ other ∙ found, logged, observed)
        | inl same ↦
            let issue_eq : i ≡ b.issue =
              some-injective (sym found ∙ ap (get_elem? l.issued) same ∙ b.issued_before) in
            elim apart [
              | inl log_ne ↦
                  absurd (log_ne (sym logged ∙ ap (λ (x : Issued). x.log) issue_eq ∙ b.same_log))
              | inr version_ne ↦ absurd (
                  version_ne (
                    contradicts_same b.issue.observed version₂ version
                      (ap (λ (x : Issued). x.observed) (sym issue_eq) ∙ observed) b.once))
            ]
      ]

  Observed-self : Observed after log version sequence
  unfolding after
  Observed-self = (
    record b.issue { observed = some version },
    get_elem?-set_self l.issued sequence _ b.issued_before,
    b.same_log,
    refl,
  )

  after-IsBound : IsBound l → IsBound after
  after-IsBound good log₂ version₂ sequence₂ h = elim (nat-cases log₂ log) [
    | inr other ↦
        Observed-other log₂ version₂ sequence₂ (inl other)
          (good log₂ version₂ sequence₂ (sym (payload_at_before log₂ version₂ (inl other)) ∙ h))
    | inl same_log₂ ↦ elim (nat-cases version₂ version) [
      | inr other ↦
          Observed-other log₂ version₂ sequence₂ (inr other)
            (good log₂ version₂ sequence₂ (sym (payload_at_before log₂ version₂ (inr other)) ∙ h))
      | inl same ↦
          let h' : payload_at after log version ≡ some sequence₂ = rw (same_log₂, same) at h in
          let s₂ : sequence ≡ sequence₂ = some-injective (sym payload_at_self ∙ h') in
          rw (same_log₂, same) (subst (Observed after log version) s₂ Observed-self)
    ]
  ]

-- A `bind` that does not complain has put the payload at the version, and where every payload of the
-- canonical maps was an issued one, observed at its version, it still is. So a payload has one place.
pub bind-IsBound :
    (l : Ledger) (log version sequence : ℕ)
    → IsBound l
    → (bind l log version sequence).1 ≡ ok tt
    → IsBound (bind l log version sequence).0
      × (payload_at (bind l log version sequence).0 log version ≡ some sequence)
unfolding after
bind-IsBound l log version sequence good h =
    let b = bind-Bound l log version sequence h in
    let l' = (bind l log version sequence).0 in
    rw b.result
      (after-IsBound l l' log version sequence b good, payload_at_self l l' log version sequence b)

-- Where the canonical maps are right, a payload stands at one version of one log.
pub one_place :
    (l : Ledger) (log version log₂ version₂ sequence : ℕ)
    → IsBound l
    → payload_at l log version ≡ some sequence
    → payload_at l log₂ version₂ ≡ some sequence
    → (log ≡ log₂) × (version ≡ version₂)
one_place l log version log₂ version₂ sequence good h h₂ =
    let (i, found, logged, observed) = good log version sequence h in
    let (j, found₂, logged₂, observed₂) = good log₂ version₂ sequence h₂ in
    let same : i ≡ j = some-injective (sym found ∙ found₂) in
    (
      sym logged ∙ ap (λ (x : Issued). x.log) same ∙ logged₂,
      some-injective (sym observed ∙ ap (λ (x : Issued). x.observed) same ∙ observed₂),
    )
