-- ===== src/Client/Follower/Covered.antt =====
-- follower.rs: what the consumer is sent has no silent jump.
use lug.Prelude.{
  ℕ, ◌+◌, ◌-◌, ◌≤◌, ◌≡◌, refl, sym, subst, Bool, true, false, inl, inr, Option, none, some, List,
  [], ◌∷◌, ◌++◌, ltb, leb, ◌==◌, ==_iff, leb_false→lt, ltb_false→le, Bool-cases, min, arith, Result,
  ok, err,
}
use lug.Proto.{Mode, Event, record_event, gap_event, Record, Response, Code}
use lug.Client.Error.{ClientError, server}
use lug.Client.Follower.{
  Mirror, Status, Task, Answers, publish, emit_gap, try_event, emit_after, emit_record, adopt,
  recover_by, recover, fold_patch, folded, fold, is_some, went, on_view, on_refusal, is_reducible,
  on_frame,
}

-- Events that take a reader from version `v` to version `u`: a record is the next version, and a gap
-- begins where the reader stands or before, and does not lead back.
abbrev pub Covers : {J : Type 0} → ℕ → List (Event J) → ℕ → Type 0
Covers v [] u = v ≡ u
Covers v (record_event rec ∷ events) u = (rec.version ≡ v + 1) × Covers rec.version events u
Covers v (gap_event from to ∷ events) u = (from ≤ v) × (v ≤ to) × Covers to events u

Covers-append :
    {J : Type 0}
    → (v u w : ℕ) (xs ys : List (Event J)) → Covers v xs u
    → Covers u ys w
    → Covers v (xs ++ ys) w
Covers-append v u w [] ys h k = subst (λ x. Covers x ys w) (sym h) k
Covers-append v u w (record_event rec ∷ xs) ys h k =
    (h.0, Covers-append rec.version u w xs ys h.1 k)
Covers-append v u w (gap_event from to ∷ xs) ys h k = (h.0, h.1, Covers-append to u w xs ys h.2 k)

-- A reader who began at `v` has been taken to `c`, but for what is noted as dropped.
abbrev pub Stands : {J : Type 0} → ℕ → Option (ℕ × ℕ) → List (Event J) → ℕ → Type 0
Stands v none delivered c = Covers v delivered c
Stands v (some (from, to)) delivered c = Covers v delivered from × (from ≤ c) × (to ≡ c)

module _ {St Sn J V : Type 0} (m : Mirror St Sn J (ClientError V)) (w : Answers Sn (ClientError V))
    (v : ℕ) where
  abbrev pub IsCovered : Task St Sn J (ClientError V) → Type 0
  IsCovered t = Stands v t.dropped t.delivered t.cursor

  publish-IsCovered :
      (t : Task St Sn J (ClientError V)) (s : Status (ClientError V))
      → IsCovered t
      → IsCovered (publish m w t s)
  unfolding publish
  publish-IsCovered t s h = h

  -- A gap that begins where the task stands, or before.
  emit_gap-Stands :
      (t : Task St Sn J (ClientError V)) (c from to : ℕ)
      → w.sent t.tries ≡ true
      → Stands v t.dropped t.delivered c
      → from ≤ c
      → c ≤ to
      → Stands v (emit_gap m w t from to).dropped (emit_gap m w t from to).delivered to
  unfolding emit_gap
  emit_gap-Stands t c from to sent h le up = rw sent (by_dropped t.dropped h)
    where
      by_dropped :
          (d : Option (ℕ × ℕ))
          → Stands v d t.delivered c
          → Covers v
              (t.delivered
                ++ gap_event
                    (elim d as (λ o. ℕ) [ none ↦ from | some (lost, upto) ↦ min lost from ])
                    to
                  ∷ [])
              to
      by_dropped none k = Covers-append v c to t.delivered (gap_event from to ∷ []) k (le, up, refl)
      by_dropped (some (lost, upto)) k =
          Covers-append v lost to t.delivered (gap_event (min lost from) to ∷ []) k.0
            (omega arith, omega arith, refl)

  try_event-Stands :
      (t : Task St Sn J (ClientError V)) (c : ℕ) (rec : Record J)
      → t.dropped ≡ none
      → Covers v t.delivered c
      → rec.version ≡ c + 1
      → Stands v (try_event m w t rec).dropped (try_event m w t rec).delivered rec.version
  unfolding try_event
  try_event-Stands t c rec none_ h next = elim (Bool-cases (w.room t.tries)) [
    | inl e ↦
        rw (e, none_)
          (Covers-append v c rec.version t.delivered (record_event rec ∷ []) h (next, refl))
    | inr e ↦
        let at : rec.version - 1 ≡ c = omega arith in
        rw e (subst (Covers v t.delivered) (sym at) h, omega arith, refl)
  ]

  emit_after-Stands :
      (d : Option (ℕ × ℕ)) (t : Task St Sn J (ClientError V)) (c : ℕ) (rec : Record J)
      → t.dropped ≡ d
      → Stands v d t.delivered c
      → rec.version ≡ c + 1
      → Stands v (emit_after m w d t rec).dropped (emit_after m w d t rec).delivered rec.version
  unfolding emit_after
  emit_after-Stands none t c rec e h next = try_event-Stands t c rec e h next
  emit_after-Stands (some (from, to)) t c rec e h next = elim (Bool-cases (w.room t.tries)) [
    | inl room ↦ rw room (
        try_event-Stands
          (record t {
            dropped = none;
            delivered = t.delivered ++ gap_event from to ∷ [];
            tries = t.tries + 1;
          })
          to rec refl
          (Covers-append v from to t.delivered (gap_event from to ∷ []) h.0
            (omega arith, omega (arith, h.1, h.2), refl))
          (omega (arith, h.2)))
    | inr full ↦ rw full (h.0, omega (arith, h.1), refl)
  ]

  emit_after_cursor :
      (d : Option (ℕ × ℕ)) (t : Task St Sn J (ClientError V)) (rec : Record J)
      → (emit_after m w d t rec).cursor ≡ t.cursor
  unfolding emit_after try_event
  emit_after_cursor none t rec = elim (Bool-cases (w.room t.tries)) [
    | inl e ↦ rw e refl
    | inr e ↦ rw e refl
  ]
  emit_after_cursor (some (from, to)) t rec = elim (Bool-cases (w.room t.tries)) [
    | inr e ↦ rw e refl
    | inl e ↦ elim (Bool-cases (w.room (t.tries + 1))) [
      | inl e' ↦ rw (e, e') refl
      | inr e' ↦ rw (e, e') refl
    ]
  ]

  module _ (sent : (n : ℕ) → w.sent n ≡ true) where
    recover_by-IsCovered :
        (r : Result (ClientError V) Sn) (t : Task St Sn J (ClientError V)) (from to : ℕ)
        → IsCovered t
        → from ≤ t.cursor
        → t.cursor ≤ to
        → IsCovered (recover_by m w r t from to).0
    unfolding recover_by adopt publish
    recover_by-IsCovered (err e) t from to h le up = h
    recover_by-IsCovered (ok sn) t from to h le up = elim (Bool-cases (ltb (m.version sn) to)) [
      | inl behind ↦ rw behind h
      | inr ahead ↦ rw ahead (
          emit_gap-Stands t t.cursor from (m.version sn) (sent t.tries) h le
            (omega (arith, ltb_false→le _ _ ahead)))
    ]

    recover-IsCovered :
        (t : Task St Sn J (ClientError V)) (from to : ℕ)
        → IsCovered t
        → from ≤ t.cursor
        → t.cursor ≤ to
        → IsCovered (recover m w t from to).0
    unfolding recover publish
    recover-IsCovered t from to h le up = by_mode t.mode
      where
        by_mode : (mode : Mode) → IsCovered (recover m w (record t { mode = mode }) from to).0
        by_mode Mode.records =
            emit_gap-Stands (record t { mode = Mode.records; cursor = to }) t.cursor from to
              (sent t.tries) h le up
        by_mode Mode.reducible =
            recover_by-IsCovered (w.refetch t.tries)
              (record t { mode = Mode.reducible; tries = t.tries + 1 }) from to h le up

    folded-IsCovered :
        (records : List (Record J))
        → ((t' : Task St Sn J (ClientError V)) → IsCovered t' → IsCovered (fold m w t' records).0)
        → (t : Task St Sn J (ClientError V)) (rec : Record J) → rec.version ≡ t.cursor + 1
        → IsCovered t
        → (outcome : Option St × Result (ClientError V) (Unit {0}))
        → IsCovered (folded m w (λ t'. fold m w t' records) t rec outcome).0
    unfolding folded emit_record
    folded-IsCovered records again t rec next h (store, err e) = h
    folded-IsCovered records again t rec next h (store, ok x) =
        let moved : Task St Sn J (ClientError V) = record t {
          store = store;
          cursor = rec.version;
        } in
        again (emit_record m w moved rec) (
          subst (Stands v (emit_record m w moved rec).dropped (emit_record m w moved rec).delivered)
            (sym (emit_after_cursor t.dropped moved rec))
            (emit_after-Stands t.dropped moved t.cursor rec refl h next))

    fold-IsCovered :
        (records : List (Record J)) (t : Task St Sn J (ClientError V))
        → IsCovered t
        → IsCovered (fold m w t records).0
    unfolding fold publish emit_record
    fold-IsCovered [] t h = h
    fold-IsCovered (rec ∷ records) t h = elim (Bool-cases (leb rec.version t.cursor)) [
      | inl old ↦ rw old (fold-IsCovered records t h)
      | inr new ↦ elim (Bool-cases (rec.version == t.cursor + 1)) [
        | inr jump ↦
            rw (new, jump)
              (recover-IsCovered t t.cursor (rec.version - 1) h (omega arith)
                (omega (arith, leb_false→lt _ _ new)))
        | inl next ↦
            rw (new, next)
              (folded-IsCovered records (λ t' h'. fold-IsCovered records t' h') t rec
                ((==_iff _ _).0 next) h (fold_patch m w t.store rec))
      ]
    ]

    went-IsCovered :
        (r : Task St Sn J (ClientError V) × Result (ClientError V) Bool)
        → IsCovered r.0
        → IsCovered (went m w r).0
    went-IsCovered (t, ok true) h = h
    went-IsCovered (t, ok false) h = h
    went-IsCovered (t, err e) h = h

    not_reducible-IsCovered :
        (t : Task St Sn J (ClientError V))
        → IsCovered t
        → IsCovered (on_refusal m w t Code.not_reducible).0
    unfolding on_refusal
    not_reducible-IsCovered t h = elim (Bool-cases (is_reducible t.mode)) [
      | inl e ↦ rw e h
      | inr e ↦ rw e h
    ]

    on_view-IsCovered :
        (t : Task St Sn J (ClientError V)) (r : Result (ClientError V) Sn)
        → IsCovered t
        → ((sn : Sn) → r ≡ ok sn → (is_some t.store ≡ true) × (t.cursor ≤ m.version sn))
        → IsCovered (on_view m w t r).0
    unfolding on_view adopt publish
    on_view-IsCovered t (err e) h suits = h
    on_view-IsCovered t (ok sn) h suits =
        let (held, up) = suits sn refl in
        elim (Bool-cases (ltb t.cursor (m.version sn))) [
          | inl ahead ↦
              rw (held, ahead)
                (emit_gap-Stands t t.cursor t.cursor (m.version sn) (sent t.tries) h (omega arith)
                  up)
          | inr same ↦
              let here : t.cursor ≡ m.version sn = omega (arith, ltb_false→le _ _ same) in
              rw (held, same) (subst (Stands v t.dropped t.delivered) here h)
        ]

    -- What a frame may be: a gap from where the task stands or before, to where it stands or beyond; a
    -- view, not behind the task, that replaces one; and no refusal that starts the log over.
    abbrev pub Suits :
        {N : Type 0}
        → (ℕ → J → Result (ClientError V) Sn)
        → Task St Sn J (ClientError V)
        → Result (ClientError V) (Response N J)
        → Type 0
    Suits snapshot_from t (err (server Code.out_of_range)) = ⊥
    Suits snapshot_from t (err e) = Unit
    Suits snapshot_from t (ok (Response.gap id from to)) = (from ≤ t.cursor) × (t.cursor ≤ to)
    Suits snapshot_from t (ok (Response.view id version value)) =
        (sn : Sn)
        → snapshot_from version value ≡ ok sn
        → (is_some t.store ≡ true) × (t.cursor ≤ m.version sn)
    Suits snapshot_from t (ok frame) = Unit

    -- Whatever room the consumer leaves and whatever the server answers to a refetch, a frame keeps it so
    -- that what the consumer has been sent takes it from `v` to the task's cursor with no silent jump: each
    -- record is the next version, and all else is announced by a gap, or is noted to be announced. It
    -- holds for every batch of records, and for gaps and views as `Suits` says, while a gap that waits
    -- for room gets it.
    pub on_frame-IsCovered :
        {N : Type 0}
        → (snapshot_from : ℕ → J → Result (ClientError V) Sn) (t : Task St Sn J (ClientError V))
          (frame : Result (ClientError V) (Response N J))
        → IsCovered t
        → Suits snapshot_from t frame
        → IsCovered (on_frame m w snapshot_from t frame).0
    unfolding on_frame
    on_frame-IsCovered snapshot_from t (err (server Code.rejected)) h suits = h
    on_frame-IsCovered snapshot_from t (err (server Code.no_such_log)) h suits = h
    on_frame-IsCovered snapshot_from t (err (server Code.log_exists)) h suits = h
    on_frame-IsCovered snapshot_from t (err (server Code.bad_id)) h suits = h
    on_frame-IsCovered snapshot_from t (err (server Code.unauthorized)) h suits = h
    on_frame-IsCovered snapshot_from t (err (server Code.malformed)) h suits = h
    on_frame-IsCovered snapshot_from t (err (server Code.storage)) h suits = h
    on_frame-IsCovered snapshot_from t (err (server Code.backpressure)) h suits = h
    on_frame-IsCovered snapshot_from t (err (server Code.internal)) h suits = h
    on_frame-IsCovered snapshot_from t (err (server Code.out_of_range)) h suits = absurd suits
    on_frame-IsCovered snapshot_from t (err (server Code.not_reducible)) h suits =
        not_reducible-IsCovered t h
    on_frame-IsCovered snapshot_from t (err ClientError.disconnected) h suits = h
    on_frame-IsCovered snapshot_from t (err ClientError.connect) h suits = h
    on_frame-IsCovered snapshot_from t (err ClientError.timeout) h suits = h
    on_frame-IsCovered snapshot_from t (err ClientError.protocol) h suits = h
    on_frame-IsCovered snapshot_from t (err ClientError.overrun) h suits = h
    on_frame-IsCovered snapshot_from t (err ClientError.codec) h suits = h
    on_frame-IsCovered snapshot_from t (err ClientError.io) h suits = h
    on_frame-IsCovered snapshot_from t (err ClientError.http) h suits = h
    on_frame-IsCovered snapshot_from t (err ClientError.closed) h suits = h
    on_frame-IsCovered snapshot_from t (err (ClientError.view e)) h suits = h
    on_frame-IsCovered snapshot_from t (ok (Response.view id version value)) h suits =
        on_view-IsCovered t (snapshot_from version value) h suits
    on_frame-IsCovered snapshot_from t (ok (Response.records id batch)) h suits =
        went-IsCovered (fold m w t batch) (fold-IsCovered batch t h)
    on_frame-IsCovered snapshot_from t (ok (Response.gap id from to)) h suits =
        went-IsCovered (recover m w t from to) (recover-IsCovered t from to h suits.0 suits.1)
    on_frame-IsCovered snapshot_from t (ok (Response.welcome id version max_frame session)) h
          suits =
        h
    on_frame-IsCovered snapshot_from t (ok (Response.ack id versions synced)) h suits = h
    on_frame-IsCovered snapshot_from t (ok (Response.logs id infos)) h suits = h
    on_frame-IsCovered snapshot_from t (ok (Response.accepted id)) h suits = h
    on_frame-IsCovered snapshot_from t (ok (Response.end id)) h suits = h
    on_frame-IsCovered snapshot_from t (ok (Response.pong id)) h suits = h
    on_frame-IsCovered snapshot_from t (ok (Response.error id code)) h suits = h
