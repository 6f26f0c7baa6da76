-- ===== src/Server/Ring/Reads.antt =====
-- ring.rs, `read_after`: what a reader takes from a ring of consecutive versions.
use lug.Prelude.{
  sym, ◌∙◌, ltb→lt, ltb_false→le, ℕ, zero, suc, ◌+◌, ◌-◌, ◌%◌, ◌≤◌, ◌<◌, ◌≡◌, refl, subst, ◌↔◌,
  List, [], ◌∷◌, length, drop, take, length-take, length-drop, arith, Bool-cases, inl, inr, ltb,
  leb, u64_mod, false,
}
use lug.Server.Ring.{Entry, Ring, records, too_old, read_after, cut}

module _ {ℓ} {J : Type ℓ} where
  records-injective : {xs ys : List (Entry J)} → records xs ≡ records ys → xs ≡ ys
  records-injective h = cc

  too_old_ne_records : {xs : List (Entry J)} → too_old ≡ records xs → ⊥
  too_old_ne_records h = cc

  -- The versions are `v`, `v + 1` and so on.
  abbrev pub Run : ℕ → List (Entry J) → Type 0
  Run v [] = Unit
  Run v (e ∷ es) = (e.version ≡ v) × Run (suc v) es

  pub Run-drop : (n v : ℕ) (es : List (Entry J)) → Run v es → Run (v + n) (drop n es)
  Run-drop zero v es h = let e : v + 0 ≡ v = omega arith in rw e h
  Run-drop (suc n) v [] h = tt
  Run-drop (suc n) v (x ∷ es) h =
      let e : v + suc n ≡ suc v + n = omega arith in rw e (Run-drop n (suc v) es h.1)

  pub Run-take : (n v : ℕ) (es : List (Entry J)) → Run v es → Run v (take n es)
  Run-take zero v es h = tt
  Run-take (suc n) v [] h = tt
  Run-take (suc n) v (x ∷ es) h = (h.0, Run-take n (suc v) es h.1)

  -- The bytes of a list of entries, the last one left out.
  abbrev pub weight : List (Entry J) → ℕ
  weight [] = 0
  weight (e ∷ []) = 0
  weight (e ∷ f ∷ es) = e.bytes + weight (f ∷ es)

  cut-Run : (m b v : ℕ) (es : List (Entry J)) → Run v es → Run v (cut m b es)
  unfolding cut
  cut-Run m b v [] h = tt
  cut-Run m b v (e ∷ es) h = elim (Bool-cases (leb m (b + e.bytes))) [
    | inl stop ↦ rw stop (h.0, tt)
    | inr more ↦ rw more (h.0, cut-Run m (b + e.bytes) (suc v) es h.1)
  ]

  length-cut : (m b : ℕ) (es : List (Entry J)) → length (cut m b es) ≤ length es
  unfolding cut
  length-cut m b [] = omega arith
  length-cut m b (e ∷ es) = elim (Bool-cases (leb m (b + e.bytes))) [
    | inl stop ↦ rw stop (omega arith)
    | inr more ↦ rw more (omega (arith, length-cut m (b + e.bytes) es))
  ]

  cut-pos : (m b : ℕ) (es : List (Entry J)) → 1 ≤ length es → 1 ≤ length (cut m b es)
  unfolding cut
  cut-pos m b [] h = h
  cut-pos m b (e ∷ es) h = elim (Bool-cases (leb m (b + e.bytes))) [
    | inl stop ↦ rw stop (omega arith)
    | inr more ↦ rw more (omega arith)
  ]

  weight_cons :
      (m b : ℕ) (e : Entry J) (es : List (Entry J))
      → leb m (b + e.bytes) ≡ false
      → b + e.bytes + weight es < m
      → b + weight (e ∷ es) < m
  weight_cons m b e [] q h = ground arith
  weight_cons m b e (f ∷ es) q h = omega arith

  weight-cut : (m b : ℕ) (es : List (Entry J)) → b < m → b + weight (cut m b es) < m
  unfolding cut
  weight-cut m b [] h = omega arith
  weight-cut m b (e ∷ es) h = elim (Bool-cases (leb m (b + e.bytes))) [
    | inl stop ↦ rw stop (omega arith)
    | inr more ↦ rw more (
        weight_cons m b e (cut m (b + e.bytes) es) more
          (weight-cut m (b + e.bytes) es (below m (b + e.bytes) more)))
  ]
    where
      below : (m n : ℕ) → leb m n ≡ false → n < m
      below m n h = ground arith

  module _ (r : Ring J) (front : Entry J) (es : List (Entry J)) (after limit max_bytes : ℕ) where
    -- The entries that `read_after` has to choose from.
    abbrev pub window : List (Entry J)
    window = take limit (drop (after + 1 - front.version) (front ∷ es))

    read_after_lem :
        r.entries ≡ front ∷ es
        → after + 1 < u64_mod
        → front.version ≤ after + 1
        → read_after r after limit max_bytes ≡ records (cut max_bytes 0 window)
    unfolding read_after
    read_after_lem held small near =
        let wrap : (after + 1) % u64_mod ≡ after + 1 = omega arith in
        rw (held, read_after, wrap) (rw (not_below (after + 1) front.version near) refl)
      where
        not_below : (n v : ℕ) → v ≤ n → ltb n v ≡ false
        not_below n v h = ground arith

    -- On a ring of consecutive versions, a cursor whose next version the ring still holds or has
    -- not reached gets records: they start at the version after the cursor and go on one by one, and
    -- they are at most `limit`.
    pub read_after-Run :
        r.entries ≡ front ∷ es
        → Run front.version (front ∷ es)
        → after + 1 < u64_mod
        → front.version ≤ after + 1
        → (out : List (Entry J)) × (read_after r after limit max_bytes ≡ records out)
          × Run (suc after) out
          × (length out ≤ limit)
    read_after-Run held run small near =
        let skip = after + 1 - front.version in
        let start : front.version + skip ≡ suc after = omega arith in
        let rest : Run (suc after) (drop skip (front ∷ es)) =
          rw start at (Run-drop skip front.version (front ∷ es) run) in
        (
          cut max_bytes 0 window,
          read_after_lem held small near,
          cut-Run max_bytes 0 (suc after) window (Run-take limit (suc after) _ rest),
          omega (arith, length-cut max_bytes 0 window, length-take limit (drop skip (front ∷ es))),
        )

    -- If moreover the ring holds the version after the cursor, and the limits are positive, there
    -- is at least one record, and all but the last together weigh less than `max_bytes`.
    pub read_after_progress :
        r.entries ≡ front ∷ es
        → after + 1 < u64_mod
        → front.version ≤ after + 1
        → after + 1 < front.version + length (front ∷ es)
        → 0 < limit
        → 0 < max_bytes
        → (out : List (Entry J)) × (read_after r after limit max_bytes ≡ records out)
          × (1 ≤ length out)
          × (weight out < max_bytes)
    read_after_progress held small near inside some_limit some_bytes =
        let skip = after + 1 - front.version in
        (
          cut max_bytes 0 window,
          read_after_lem held small near,
          cut-pos max_bytes 0 window (
              omega
                (arith, length-take limit (drop skip (front ∷ es)), length-drop skip (front ∷ es))),
          omega (arith, weight-cut max_bytes 0 window some_bytes),
        )

    -- A read is refused as too old exactly when the version after the cursor has left the ring.
    pub read_after-too_old :
        r.entries ≡ front ∷ es
        → after + 1 < u64_mod
        → (read_after r after limit max_bytes ≡ too_old) ↔ (after + 1 < front.version)
    unfolding read_after
    read_after-too_old held small =
        let wrap : (after + 1) % u64_mod ≡ after + 1 = omega arith in
        rw (held, read_after, wrap) (ground arith)

  -- What a read gives starts behind the cursor and goes on one by one.
  pub read_after_consecutive :
      (r : Ring J) (after limit max_bytes : ℕ) (out : List (Entry J))
      → ((front : Entry J) (es : List (Entry J))
          → r.entries ≡ front ∷ es
          → Run front.version (front ∷ es))
      → after + 1 < u64_mod
      → read_after r after limit max_bytes ≡ records out
      → Run (suc after) out
  unfolding read_after
  read_after_consecutive r after limit max_bytes out run small h = consecutive r.entries refl
    where
      consecutive : (entries : List (Entry J)) → r.entries ≡ entries → Run (suc after) out
      consecutive [] e =
          subst (λ xs. Run (suc after) xs) (records-injective (rw (e, read_after) at h)) tt
      consecutive (front ∷ es) e = elim (Bool-cases (ltb (after + 1) front.version)) [
        | inl old ↦ absurd (
            too_old_ne_records (
              sym ((read_after-too_old r front es after limit max_bytes e small).1 (ltb→lt _ _ old))
              ∙ h))
        | inr near ↦
            let found =
              read_after-Run r front es after limit max_bytes e (run front es e) small
                (ltb_false→le _ _ near) in
            subst (λ xs. Run (suc after) xs) (records-injective (sym found.1 ∙ h)) found.2
      ]

  -- A read gives no more than `limit` entries.
  pub read_after_limit :
      (r : Ring J) (after limit max_bytes : ℕ) (out : List (Entry J))
      → read_after r after limit max_bytes ≡ records out
      → length out ≤ limit
  unfolding read_after
  read_after_limit r after limit max_bytes out h = limited r.entries refl
    where
      limited : (entries : List (Entry J)) → r.entries ≡ entries → length out ≤ limit
      limited [] e =
          subst (λ xs. length xs ≤ limit) (records-injective (rw (e, read_after) at h))
            (omega arith)
      limited (front ∷ es) e =
          let next = (after + 1) % u64_mod in
          let window = take limit (drop (next - front.version) (front ∷ es)) in
          elim (Bool-cases (ltb next front.version)) [
            | inl old ↦ absurd (too_old_ne_records (rw (e, old, read_after) at h))
            | inr fine ↦
                let same : cut max_bytes 0 window ≡ out =
                  records-injective (rw (e, fine, read_after) at h) in
                subst (λ xs. length xs ≤ limit) same
                  (omega (
                    arith,
                    length-cut max_bytes 0 window,
                    length-take limit (drop (next - front.version) (front ∷ es)),
                  ))
          ]
