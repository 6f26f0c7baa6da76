-- ===== src/Client/Follower/Examples.antt =====
-- The theorem on the follower at a batch whose second record finds the consumer's channel full. The
-- mirror is a count of patches.
use lug.Prelude.{ℕ, ◌+◌, ◌≡◌, refl, true, none, some, [], ◌∷◌, ◌==◌, not, Result, ok, err}
use lug.Proto.{Mode, record_event, gap_event, Record, Response}
use lug.Client.Error.{ClientError, protocol}
use lug.Client.Follower.{Mirror, Task, Answers, fold, on_frame}
use lug.Client.Follower.Covered.{IsCovered, on_frame-IsCovered}

abbrev count : Mirror ℕ ℕ ℕ (ClientError ℕ)
count = record {
  resume = λ sn. sn;
  snapshot = λ s. s;
  version = λ sn. sn;
  apply = λ s patch. (s + 1, ok (s + 1));
}

abbrev answers : Answers ℕ (ClientError ℕ)
answers = record { room = λ n. not (n == 1); sent = λ n. true; refetch = λ n. ok 9 }

abbrev following : Task ℕ ℕ ℕ (ClientError ℕ)
following = record {
  dropped = none;
  cursor = 4;
  store = some 4;
  mode = Mode.reducible;
  delivered = [];
  shown = [];
  tries = 0;
}

abbrev rec : ℕ → Record ℕ
rec v = record { version = v; patch = 0 }

abbrev no_view : ℕ → ℕ → Result (ClientError ℕ) ℕ
no_view version value = err protocol

-- The record that is dropped is announced before the next one.
fold-delivered :
    (fold count answers following (rec 5 ∷ rec 6 ∷ rec 7 ∷ [])).0.delivered
    ≡ record_event (rec 5) ∷ gap_event 5 6 ∷ record_event (rec 7) ∷ []
unfolding fold
fold-delivered = refl

-- A batch that jumps is not folded: the view is fetched, and the jump announced.
recover-delivered : (fold count answers following (rec 8 ∷ [])).0.delivered ≡ gap_event 4 9 ∷ []
unfolding fold
recover-delivered = refl

on_frame-IsCovered_example :
    IsCovered count answers 4
      (on_frame count answers {N = ℕ} no_view following
        (ok (Response.records 1 (rec 5 ∷ rec 6 ∷ rec 8 ∷ [])))).0
on_frame-IsCovered_example =
    on_frame-IsCovered count answers 4 (λ n. refl) no_view following
      (ok (Response.records 1 (rec 5 ∷ rec 6 ∷ rec 8 ∷ []))) refl tt
