-- ===== src/Cavlc/Store/Truncation.antt =====
-- mvcc.rs, `truncate`: which versions it leaves.
use lug.Prelude.{
  ℕ, suc, ◌+◌, ◌-◌, ◌<◌, ◌≤◌, ◌≡◌, refl, Bool-cases, inl, inr, none, some, none_ne_some, length,
  length-take, take, get_elem?_beyond, get_elem?-take, ltb, leb, leb→le, ltb_false→le, le→ltb_false,
  arith,
}
use lug.Cavlc.Store.{Snapshot, Store, snapshots, snapshot_at, truncate}

module _ {ℓ} {K : Type ℓ} {A : Type ℓ} where
  held_from_base :
      (s : Store K A) (n : ℕ) (t : Snapshot K A) → snapshot_at s n ≡ some t → s.base ≤ n
  unfolding snapshot_at
  held_from_base s n t found = elim (Bool-cases (ltb n s.base)) [
    | inl low ↦ absurd (none_ne_some (rw low at found))
    | inr high ↦ ltb_false→le _ _ high
  ]

  -- Every version above the one that is made current is forgotten.
  pub truncate_above :
      (s : Store K A) (n m : ℕ) (t : Snapshot K A)
      → snapshot_at s n ≡ some t
      → n < m
      → snapshot_at (truncate s n) m ≡ none
  unfolding snapshot_at truncate
  truncate_above s n m t found above =
      let low = held_from_base s n t found in
      let skip = le→ltb_false n s.base low in
      let skip' = le→ltb_false m s.base (omega (arith, low, above)) in
      elim (Bool-cases (leb (length (snapshots s)) (n - s.base + 1))) [
        | inl all ↦
            rw (skip, all, skip')
              (get_elem?_beyond (snapshots s) (m - s.base) (omega (arith, leb→le _ _ all, low)))
        | inr more ↦
            rw (skip, more, skip')
              (get_elem?_beyond (take (suc (n - s.base)) (snapshots s)) (m - s.base)
                (omega (arith, length-take (suc (n - s.base)) (snapshots s), low)))
      ]

  -- The versions up to it are kept.
  pub truncate_below :
      (s : Store K A) (n m : ℕ) (t : Snapshot K A)
      → snapshot_at s n ≡ some t
      → m ≤ n
      → snapshot_at (truncate s n) m ≡ snapshot_at s m
  unfolding snapshot_at truncate
  truncate_below s n m t found below =
      let low = held_from_base s n t found in
      let skip = le→ltb_false n s.base low in
      elim (Bool-cases (leb (length (snapshots s)) (n - s.base + 1))) [
        | inl all ↦ rw (skip, all) refl
        | inr more ↦ elim (Bool-cases (ltb m s.base)) [
          | inl under ↦ rw (skip, more, under) refl
          | inr over ↦
              rw (skip, more, over)
                (get_elem?-take (snapshots s) (suc (n - s.base)) (m - s.base)
                  (omega (arith, ltb_false→le _ _ over)))
        ]
      ]
