-- ===== src/Server/Ring/Window.antt =====
-- ring.rs, `push`: the ring holds the newest records.
use lug.Prelude.{
  ℕ, zero, suc, ◌+◌, ◌-◌, ◌≤◌, ◌≡◌, refl, sym, ◌∙◌, ap, List, [], ◌∷◌, ◌++◌, append-nil,
  append_assoc, length, drop, length-append, length-drop, drop-append_le, drop-drop, arith, tests,
  Bool-cases, inl, inr, ◌==◌, ==_iff, max,
}
use lug.Server.Ring.{Entry, Ring, new, push, push_one, push_all}

module _ {ℓ} {J : Type ℓ} where
  -- The newest `capacity` items of a sequence.
  abbrev pub newest : ℕ → List (Entry J) → List (Entry J)
  newest capacity es = drop (length es - capacity) es

  push_one_fits :
      (c : ℕ) (es : List (Entry J)) (e : Entry J)
      → 1 ≤ c
      → length es ≤ c
      → push_one c es e ≡ newest c (es ++ e ∷ [])
  unfolding push_one
  push_one_fits c es e p h = elim (Bool-cases (length es == c)) [
    | inl full ↦
        let q : length es ≡ c = (==_iff _ _).0 full in
        let n : length (es ++ e ∷ []) - c ≡ 1 = omega (arith, length-append es (e ∷ [])) in
        rw (full, n) (sym (drop-append_le 1 es (e ∷ []) (omega arith)))
    | inr room ↦
        let n : length (es ++ e ∷ []) - c ≡ 0 =
          omega (arith, length-append es (e ∷ []), lt_of_room c (length es) h room) in
        rw (room, n) refl
  ]
    where
      lt_of_room : (c n : ℕ) → n ≤ c → (n == c) ≡ lug.Prelude.false → suc n ≤ c
      lt_of_room c n h r = ground arith

  newest-append :
      (c : ℕ) (es fs : List (Entry J)) → newest c (newest c es ++ fs) ≡ newest c (es ++ fs)
  newest-append c es fs =
      let a = length es - c in
      let joined : drop a es ++ fs ≡ drop a (es ++ fs) =
        sym (drop-append_le a es fs (omega arith)) in
      let n : a + (length (drop a (es ++ fs)) - c) ≡ length (es ++ fs) - c =
        omega (arith, length-drop a (es ++ fs), length-append es fs) in
      rw joined
        (drop-drop (length (drop a (es ++ fs)) - c) a (es ++ fs) ∙ ap (λ k. drop k (es ++ fs)) n)

  newest_fits : (c : ℕ) (es : List (Entry J)) → length es ≤ c → newest c es ≡ es
  newest_fits c es h = let n : length es - c ≡ 0 = omega arith in rw n refl

  length-newest : (c : ℕ) (es : List (Entry J)) → length (newest c es) ≤ c
  length-newest c es = omega (arith, length-drop (length es - c) es)

  push_all-eq-newest :
      (c : ℕ) (es batch : List (Entry J))
      → 1 ≤ c
      → length es ≤ c
      → push_all c es batch ≡ newest c (es ++ batch)
  unfolding push_all
  push_all-eq-newest c es [] p h = rw append-nil (sym (newest_fits c es h))
  push_all-eq-newest c es (e ∷ batch) p h =
      let one = push_one_fits c es e p h in
      let small : length (push_one c es e) ≤ c = rw one (length-newest c (es ++ e ∷ [])) in
      push_all-eq-newest c (push_one c es e) batch p small
      ∙ rw one (newest-append c (es ++ e ∷ []) batch)
      ∙ ap (newest c) (append_assoc es (e ∷ []) batch)

  -- What `new` and `push` keep: a positive capacity that is never exceeded.
  pub record IsBounded (r : Ring J) : Type 0 where
    pub room : 1 ≤ r.capacity
    pub fits : length r.entries ≤ r.capacity

  pub new-IsBounded : (capacity : ℕ) → IsBounded (new capacity)
  unfolding new
  new-IsBounded capacity = record { room = omega arith; fits = omega arith }

  -- A push on a bounded ring leaves it bounded, with the same capacity, and holding the newest
  -- `capacity` entries of all that it held and was given, in their order.
  pub push-eq-newest :
      (r : Ring J) (batch : List (Entry J))
      → IsBounded r
      → IsBounded (push r batch)
        × ((push r batch).capacity ≡ r.capacity)
        × ((push r batch).entries ≡ newest r.capacity (r.entries ++ batch))
  unfolding push
  push-eq-newest r batch h =
      let e = push_all-eq-newest r.capacity r.entries batch h.room h.fits in
      (
        record { room = h.room; fits = rw e (length-newest r.capacity (r.entries ++ batch)) },
        refl,
        e,
      )
