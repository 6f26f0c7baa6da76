-- ===== src/Server/Session/Table.antt =====
-- session.rs: the stream table.
use lug.Prelude.{
  ℕ, ◌<◌, ◌≡◌, ◌≢◌, refl, false, not, ◌&&◌, Option, none, some, [], ◌∷◌, ◌==◌, Bool-cases, inl, inr,
  if◌then◌else◌, arith, u32_mod, u64_mod, Result, ok, err,
}
use lug.Proto.{Mode, Request, Code, request_id}
use lug.Server.Session.{
  Handle, World, Streams, contains_key, remove, extend, handle, is_reducible, on_subscribe, grant,
  cancel, dispatch,
}

abbrev pub lookup : ℕ → Streams → Option ℕ
lookup id [] = none
lookup id ((k, granted) ∷ streams) = if k == id then some granted else lookup id streams

-- The ids differ, and the credits are `u64`s.
abbrev pub IsTable : Streams → Type 0
IsTable [] = Unit
IsTable ((k, granted) ∷ streams) =
    (contains_key k streams ≡ false) × (granted < u64_mod) × IsTable streams

-- The credit that a request brings is a `u32`.
abbrev pub Fits : {N J : Type 0} → Request N J → Type 0
Fits (Request.subscribe id log from mode more) = more < u32_mod
Fits (Request.credit id more) = more < u32_mod
Fits _ = Unit

contains_key-remove :
    (k id : ℕ) (streams : Streams)
    → contains_key k streams ≡ false
    → contains_key k (remove id streams) ≡ false
contains_key-remove k id [] h = refl
contains_key-remove k id ((j, granted) ∷ streams) h =
    ground (arith, contains_key-remove k id streams)

contains_key-extend :
    (k id more : ℕ) (streams : Streams)
    → contains_key k (extend id more streams) ≡ contains_key k streams
contains_key-extend k id more [] = refl
contains_key-extend k id more ((j, granted) ∷ streams) =
    ground (arith, contains_key-extend k id more streams)

remove-IsTable : (id : ℕ) (streams : Streams) → IsTable streams → IsTable (remove id streams)
remove-IsTable id [] h = tt
remove-IsTable id ((j, granted) ∷ streams) h = elim (Bool-cases (j == id)) [
  | inl e ↦ rw e (remove-IsTable id streams h.2)
  | inr e ↦ rw e (contains_key-remove j id streams h.0, h.1, remove-IsTable id streams h.2)
]

extend-IsTable :
    (id more : ℕ) (streams : Streams) → IsTable streams → IsTable (extend id more streams)
extend-IsTable id more [] h = tt
extend-IsTable id more ((j, granted) ∷ streams) h = elim (Bool-cases (j == id)) [
  | inl e ↦
      rw (e, contains_key-extend j id more streams)
        (h.0, omega arith, extend-IsTable id more streams h.2)
  | inr e ↦
      rw (e, contains_key-extend j id more streams) (h.0, h.1, extend-IsTable id more streams h.2)
]

lookup-remove :
    (k id : ℕ) (streams : Streams) → k ≢ id → lookup k (remove id streams) ≡ lookup k streams
lookup-remove k id [] h = refl
lookup-remove k id ((j, granted) ∷ streams) h = ground (arith, lookup-remove k id streams h, h)

lookup-extend :
    (k id more : ℕ) (streams : Streams)
    → k ≢ id
    → lookup k (extend id more streams) ≡ lookup k streams
lookup-extend k id more [] h = refl
lookup-extend k id more ((j, granted) ∷ streams) h =
    ground (arith, lookup-extend k id more streams h, h)

-- What a request does to a table.
abbrev pub Keeps : ℕ → Streams → Streams → Type 0
Keeps id before after = IsTable after × ((k : ℕ) → k ≢ id → lookup k after ≡ lookup k before)

module _ (J : Type 0) {N : Type 0} (w : World N) where
  subscribe-Keeps :
      (streams : Streams) (id from : ℕ) (mode : Mode) (more : ℕ) (r : Result Code (Handle N))
      → IsTable streams
      → more < u32_mod
      → Keeps id streams (on_subscribe {J = J} w streams id from mode more r).0
  subscribe-Keeps streams id from mode more (err code) h small = (h, λ k ne. refl)
  subscribe-Keeps streams id from mode more (ok log) h small =
      elim (Bool-cases (is_reducible mode && not log.info.reducible)) [
        | inl bad ↦ rw bad (h, λ k ne. refl)
        | inr fine ↦ elim (Bool-cases (contains_key id streams)) [
          | inl open_ ↦ rw (fine, open_) (h, λ k ne. refl)
          | inr new ↦ rw (fine, new) ((new, omega arith, h), λ k ne. ground (arith, ne))
        ]
      ]

module _ {N J : Type 0} (w : World N) where
  -- Every request keeps the table one: an id names one stream, and no credit passes what a `u64`
  -- holds; and it leaves the streams with other ids as they are. The credit of a request is a `u32`.
  pub dispatch-IsTable :
      (streams : Streams) (req : Request N J)
      → IsTable streams
      → Fits req
      → IsTable (dispatch w streams req).0
        × ((k : ℕ) → k ≢ request_id req → lookup k (dispatch w streams req).0 ≡ lookup k streams)
  unfolding dispatch grant cancel
  dispatch-IsTable streams (Request.hello id version) h fits = (h, λ k ne. refl)
  dispatch-IsTable streams (Request.ping id) h fits = (h, λ k ne. refl)
  dispatch-IsTable streams (Request.list id) h fits = (h, λ k ne. refl)
  dispatch-IsTable streams (Request.create id log kept) h fits = (h, λ k ne. refl)
  dispatch-IsTable streams (Request.append id log patches durability) h fits = (h, λ k ne. refl)
  dispatch-IsTable streams (Request.read id log at) h fits = (h, λ k ne. refl)
  dispatch-IsTable streams (Request.subscribe id log from mode more) h fits =
      subscribe-Keeps J w streams id from mode more (handle w log) h fits
  dispatch-IsTable streams (Request.credit id more) h fits =
      elim (Bool-cases (contains_key id streams)) [
        | inl open_ ↦
            rw (open_)
              (extend-IsTable id more streams h, λ k ne. lookup-extend k id more streams ne)
        | inr unknown ↦ rw (unknown) (h, λ k ne. refl)
      ]
  dispatch-IsTable streams (Request.cancel id) h fits =
      elim (Bool-cases (contains_key id streams)) [
        | inl open_ ↦
            rw (open_) (remove-IsTable id streams h, λ k ne. lookup-remove k id streams ne)
        | inr unknown ↦ rw (unknown) (h, λ k ne. refl)
      ]
