-- ===== src/Tests/Streams.antt =====
-- Runs of a subscription: commits, reads, a lag.
use fluent.Prelude.{ℕ, ◌≡◌, ◌⊎◌, refl, true, false, List, [], ◌∷◌, some, none}
use fluent.Result.{Result, ok}
use fluent.Types.{put, delete}
use fluent.Batch.{EncEntry}
use fluent.Bytes.{cmp_bytes}
use fluent.Stream.Run.{Streamed, Event, commit, receive, happen_all, IsGapless}
use fluent.Stream.Gapless.{happen_all-IsGapless}

-- Values are inline behind a tag.
abbrev after_tag : List ℕ → List ℕ → Result (List ℕ)
after_tag key repr = elim repr [ [] ↦ ok [] | b ∷ bs ↦ ok bs ]

abbrev begun : Streamed after_tag
begun = record {
  sub = record {
    db = record { snapshots = record { counts = (4, 1) ∷ [] }; visible_seqno = 4 };
    degraded = false;
    shared = record {
      lo = b'b' ∷ [];
      hi = some (b'd' ∷ []);
      max_bytes = 100;
      queue = record { entries = []; bytes = 0 };
      signals = 0;
      dropped = false;
    };
    start = 4;
    pinned = 4;
  };
  delivered = [];
  committed = [];
}

abbrev entry : ℕ → EncEntry
entry k = record { kind = put; key = k ∷ []; repr = 0 ∷ 9 ∷ [] }

abbrev gone : ℕ → EncEntry
gone k = record { kind = delete; key = k ∷ []; repr = [] }

-- The first key of the first commit lies outside the range.
abbrev events : List (Event after_tag)
events = commit (entry b'a' ∷ entry b'b' ∷ gone b'c' ∷ []) ∷ receive ∷ commit (entry b'c' ∷ []) ∷ []

delivered_run :
    (happen_all after_tag events begun).delivered
    ≡ record { key = b'b' ∷ []; seqno = 6; commit_seqno = 7; kind = put; value = some (9 ∷ []) }
      ∷ record { key = b'c' ∷ []; seqno = 7; commit_seqno = 7; kind = delete; value = none }
      ∷ []
unfolding happen_all cmp_bytes
delivered_run = refl

pinned_run : (happen_all after_tag events begun).sub.pinned ≡ 7
unfolding happen_all cmp_bytes
pinned_run = refl

-- Three entries outgrow the buffer, and the stream is cut.
lagged_run :
    (happen_all after_tag
      (commit (entry b'b' ∷ entry b'b' ∷ entry b'c' ∷ []) ∷ [])
      begun).sub.shared.dropped
    ≡ true
unfolding happen_all cmp_bytes
lagged_run = refl

happen_all-IsGapless_example :
    ((happen_all after_tag events begun).sub.shared.dropped ≡ true)
    ⊎ IsGapless after_tag (happen_all after_tag events begun)
happen_all-IsGapless_example =
    happen_all-IsGapless after_tag events begun
      (record { empty = refl; nothing_committed = refl; nothing_delivered = refl; pinned = refl })
