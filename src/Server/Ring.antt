-- ===== src/Server/Ring.antt =====
-- crates/lug-server/src/ring.rs: the fan-out buffer of one log. The lock is left out: the actor is
-- the only writer, and each method is one critical section.
pub mod Window
pub mod Reads
use lug.Prelude.{
  ℕ, ◌+◌, ◌-◌, ◌%◌, Option, none, some, List, [], ◌∷◌, ◌++◌, length, drop, take, ltb, leb, ◌==◌,
  if◌then◌else◌, max, u64_mod,
}

-- A record as subscribers see it.
pub record Entry {ℓ} (J : Type ℓ) : Type ℓ where
  pub version : ℕ
  pub patch : J
  pub bytes : ℕ

pub record Ring {ℓ} (J : Type ℓ) : Type ℓ where
  pub capacity : ℕ
  pub entries : List (Entry J)

pub data Read {ℓ} (J : Type ℓ) : Type ℓ where
  records : List (Entry J) → Read J
  too_old : Read J

module _ {ℓ} {J : Type ℓ} where
  unfoldable pub new : ℕ → Ring J
  new capacity = record { capacity = max capacity 1; entries = [] }

  -- One round of the loop of `push`: `pop_front` on a full ring, then `push_back`.
  unfoldable pub push_one : ℕ → List (Entry J) → Entry J → List (Entry J)
  push_one capacity entries e =
      (if length entries == capacity then drop 1 entries else entries) ++ e ∷ []

  unfoldable pub push_all : ℕ → List (Entry J) → List (Entry J) → List (Entry J)
  unfolding push_one
  push_all capacity entries [] = entries
  push_all capacity entries (e ∷ batch) = push_all capacity (push_one capacity entries e) batch

  unfoldable pub push : Ring J → List (Entry J) → Ring J
  unfolding push_all
  push r batch = record r { entries = push_all r.capacity r.entries batch }

  unfoldable pub oldest : Ring J → Option ℕ
  oldest r = elim r.entries [ [] ↦ none | e ∷ _ ↦ some e.version ]

  -- The loop of `read_after` over what `skip` and `take` leave: it ends once `max_bytes` is reached.
  unfoldable pub cut : ℕ → ℕ → List (Entry J) → List (Entry J)
  cut max_bytes bytes [] = []
  cut max_bytes bytes (e ∷ es) =
      let rest = cut max_bytes (bytes + e.bytes) es in
      if leb max_bytes (bytes + e.bytes) then e ∷ [] else e ∷ rest

  -- `after + 1` is a sum of `u64`s.
  unfoldable pub read_after : Ring J → ℕ → ℕ → ℕ → Read J
  unfolding cut
  read_after r after limit max_bytes = elim r.entries [
    | [] ↦ records []
    | front ∷ es ↦
        let next = (after + 1) % u64_mod in
        if ltb next front.version
        then too_old
        else records (cut max_bytes 0 (take limit (drop (next - front.version) (front ∷ es))))
  ]
