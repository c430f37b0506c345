-- ===== src/Stream/Run.antt =====
-- crates/fluent31/src/db.rs: a subscription through commits and reads in any order, and its promise.
use fluent.Prelude.{
  ℕ, ◌+◌, ◌-◌, ◌<◌, ◌≤◌, true, List, [], ◌∷◌, ◌++◌, length, All, Option, some, ◌≡◌, ◌⊎◌,
}
use fluent.Result.{Result, ok}
use fluent.Batch.{EncEntry}
use fluent.Stream.Delivered.{AreDelivered}
use fluent.Stream.{RawEntry, publish_to, StreamEntry, StreamEvent, batch, Subscription, recv_round}
use fluent.Stream.Taps.{tap}

module _ (resolve_repr : List ℕ → List ℕ → Result (List ℕ)) where
  -- A subscription, what its consumer got so far, and what was committed in its range since it began.
  pub record Streamed : Type 0 where
    pub sub : Subscription
    pub delivered : List StreamEntry
    pub committed : List RawEntry

  pub data Event : Type 0 where
    commit : List EncEntry → Event
    receive degrade : Event

  -- What a round gave the consumer.
  abbrev pub got : Result (Option StreamEvent) → List StreamEntry
  got (ok (some (batch out))) = out
  got _ = []

  unfoldable pub happen : Event → Streamed → Streamed
  unfolding publish_to recv_round tap
  happen (commit es) t =
      let base = t.sub.db.visible_seqno + 1 in
      let shared = t.sub.shared in
      record t {
        sub = record t.sub {
          db = record t.sub.db { visible_seqno = t.sub.db.visible_seqno + length es };
          shared = publish_to shared base es;
        };
        committed = t.committed ++ tap shared.lo shared.hi (base + (length es - 1)) base es;
      }
  happen receive t =
      let (result, sub) = recv_round resolve_repr t.sub in
      record t { sub = sub; delivered = t.delivered ++ got result }
  happen degrade t = record t { sub = record t.sub { degraded = true } }

  unfoldable pub happen_all : List Event → Streamed → Streamed
  unfolding happen
  happen_all [] t = t
  happen_all (e ∷ es) t = happen_all es (happen e t)

  -- What the consumer got is the front of what was committed, one for one, each put with the value that
  -- its representation resolves to and each delete without one, and the queue has the rest, whose
  -- sequence numbers lie above the pin.
  pub record IsGapless (t : Streamed) : Type 0 where
    pub front : List RawEntry
    pub split : t.committed ≡ front ++ t.sub.shared.queue.entries
    pub resolved : AreDelivered resolve_repr front t.delivered
    pub pinned_below :
        All
          (λ (r : RawEntry). (t.sub.pinned < r.seqno) × (r.seqno ≤ t.sub.db.visible_seqno))
          t.sub.shared.queue.entries
    pub pin_visible : t.sub.pinned ≤ t.sub.db.visible_seqno

  abbrev pub Holds : Streamed → Type 0
  Holds t = (t.sub.shared.dropped ≡ true) ⊎ IsGapless t

  -- A subscription begins with nothing queued, at what is visible, which it pins.
  pub record IsFresh (t : Streamed) : Type 0 where
    pub empty : t.sub.shared.queue.entries ≡ []
    pub nothing_committed : t.committed ≡ []
    pub nothing_delivered : t.delivered ≡ []
    pub pinned : t.sub.pinned ≡ t.sub.db.visible_seqno
