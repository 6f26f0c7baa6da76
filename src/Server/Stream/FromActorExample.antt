-- ===== src/Server/Stream/FromActorExample.antt =====
-- The theorem on catch-up at a storage that is a list of records from version 1 on.
use lug.Prelude.{
  ℕ, ◌≡◌, ◌≤◌, refl, subst, none, some, List, [], ◌∷◌, length, take, drop, arith, ok, ok-injective,
}
use lug.Core.Noop.{Noop, Tick, noop_reducible}
use lug.Core.Storage.{Record, Storage}
use lug.Core.Log.{Codec}
use lug.Core.Log
use lug.Server.Json.{Json, number, null}
use lug.Server.Actor.{Actor}
use lug.Server.Actor.Queue.{serve_catch_up}
use lug.Server.Stream.FromActor.{Above, Served, serve_catch_up-Served}

abbrev kept : List (Record (Json ℕ))
kept = record { version = 1; patch = number 1 } ∷ record { version = 2; patch = number 2 } ∷ []

abbrev listed : Storage (List (Record (Json ℕ))) Tick (Json ℕ) (Unit {0})
listed = record {
  append = λ w records. (w, ok tt);
  write_header = λ w view. (w, ok tt);
  sync = λ w. (w, ok tt);
  load = λ w. (w, ok (record { header = none; tail = w }));
  read_after = λ w after limit. ok (take limit (drop after w));
  oldest = λ w. 1;
}

abbrev codec : Codec (Json ℕ) (Json ℕ)
codec = record { encode = λ p. some p; decode = λ p. some p }

abbrev behind : Actor Noop (List (Record (Json ℕ))) (Json ℕ)
behind = record {
  log = record { contents = record { version = 2 }; storage = kept; watermark = 2; synced = 2 };
  ring = record { capacity = 3; entries = [] };
  watermark = 2;
  oldest = 1;
  metrics = record { patches = 0; batches = 0; syncs = 0 };
  batch = 8;
  checkpoint_every = 0;
  checkpointed = 0;
  trace = [];
}

kept-Above :
    (records : List (Record (Json ℕ)))
    → Log.read_after (noop_reducible (Json ℕ)) listed codec behind.log 0 5 ≡ ok records
    → Above 0 records × (length records ≤ 5) × (records ≡ [] → 2 ≤ 0)
unfolding Log.read_after
kept-Above records h =
    subst (λ rs. Above 0 rs × (length rs ≤ 5) × (rs ≡ [] → 2 ≤ 0)) (ok-injective h)
      ((omega arith, (refl, (refl, tt))), omega arith, λ e. absurd (cons_ne_nil e))
  where
    cons_ne_nil : kept ≡ [] → ⊥
    cons_ne_nil e = cc

serve_catch_up-Served_example :
    Served
      (noop_reducible (Json ℕ))
      listed
      codec
      (λ p. some p)
      (λ b. some b)
      (λ b. 1)
      (λ t. null)
      0
      5
      (serve_catch_up
        (noop_reducible (Json ℕ))
        listed
        codec
        (λ p. some p)
        (λ b. some b)
        (λ b. 1)
        (λ t. null)
        behind
        0
        5)
serve_catch_up-Served_example =
    serve_catch_up-Served (noop_reducible (Json ℕ)) listed codec (λ p. some p) (λ b. some b)
      (λ b. 1) (λ t. null) behind 0 5 (omega arith) kept-Above
