-- ===== src/Stream.antt =====
-- crates/fluent31/src/db.rs: range subscriptions. A commit offers its entries to a subscription; its
-- consumer takes what is queued, with the values resolved. What resolves a value is a parameter.
mod Taps
pub mod Delivered
pub mod Run
pub mod Gapless
use fluent.Prelude.{
  ℕ, zero, suc, ◌+◌, ◌-◌, ltb, if◌then◌else◌, Bool, true, false, ◌&&◌, List, [], ◌∷◌, ◌++◌, length,
  Option, none, some,
}
use fluent.Result.{Result, ok, err, Error, background}
use fluent.Bytes.{bytes_lt, bytes_le}
use fluent.Types.{ValueKind, put, delete}
use fluent.Batch.{EncEntry}
use fluent.Snapshots.{Retention, advance_pin}

pub record RawEntry : Type 0 where
  pub key : List ℕ
  pub seqno : ℕ
  pub commit_seqno : ℕ
  pub kind : ValueKind
  pub repr : List ℕ

pub record SubQueue : Type 0 where
  pub entries : List RawEntry
  pub bytes : ℕ

-- `signals` counts the notifications.
pub record SubShared : Type 0 where
  pub lo : List ℕ
  pub hi : Option (List ℕ)
  pub max_bytes : ℕ
  pub queue : SubQueue
  pub signals : ℕ
  pub dropped : Bool

unfoldable pub in_range : List ℕ → Option (List ℕ) → List ℕ → Bool
in_range lo none key = bytes_le lo key
in_range lo (some h) key = bytes_le lo key && bytes_lt key h

-- The loop of `offer`, from a sequence number on, and whether it pushed an entry.
unfoldable pub push_entries :
    List ℕ → Option (List ℕ) → ℕ → ℕ → List EncEntry → SubQueue → SubQueue × Bool
unfolding in_range
push_entries lo hi commit_seqno seq [] q = (q, false)
push_entries lo hi commit_seqno seq (e ∷ es) q =
    let pushed : SubQueue × Bool =
      let raw : RawEntry = record {
        key = e.key;
        seqno = seq;
        commit_seqno = commit_seqno;
        kind = e.kind;
        repr = e.repr;
      } in
      let (q', _) = push_entries lo hi commit_seqno (seq + 1) es (record {
        entries = q.entries ++ raw ∷ [];
        bytes = q.bytes + (length e.key + length e.repr + 32);
      }) in
      (q', true) in
    let skipped = push_entries lo hi commit_seqno (seq + 1) es q in
    if in_range lo hi e.key then pushed else skipped

unfoldable pub offer : SubShared → ℕ → List EncEntry → SubShared
unfolding push_entries
offer s base es =
    let (q, pushed) = push_entries s.lo s.hi (base + (length es - 1)) base es s.queue in
    let notified = if pushed then s.signals + 1 else s.signals in
    if ltb s.max_bytes q.bytes
    then record s { queue = record { entries = []; bytes = 0 }; dropped = true; signals = notified }
    else record s { queue = q; signals = notified }

-- `publish_stream`, for one subscription: one that is cut is not offered anything.
unfoldable pub publish_to : SubShared → ℕ → List EncEntry → SubShared
unfolding offer
publish_to s base es = if s.dropped then s else offer s base es

pub record StreamEntry : Type 0 where
  pub key : List ℕ
  pub seqno : ℕ
  pub commit_seqno : ℕ
  pub kind : ValueKind
  pub value : Option (List ℕ)

pub data StreamEvent : Type 0 where
  batch : List StreamEntry → StreamEvent
  lagged : StreamEvent

-- With what it touches of the store: the snapshots and what is visible, and whether it is degraded.
pub record Subscription : Type 0 where
  pub db : Retention
  pub degraded : Bool
  pub shared : SubShared
  pub start : ℕ
  pub pinned : ℕ

module _ (resolve_repr : List ℕ → List ℕ → Result (List ℕ)) where
  unfoldable pub resolve_value : RawEntry → ValueKind → Result (Option (List ℕ))
  resolve_value r put = elim (resolve_repr r.key r.repr) [ ok v ↦ ok (some v) | err e ↦ err e ]
  resolve_value r delete = ok none

  unfoldable pub resolve_all : List RawEntry → Result (List StreamEntry)
  unfolding resolve_value
  resolve_all [] = ok []
  resolve_all (r ∷ rs) =
      let later = resolve_all rs in
      elim (resolve_value r r.kind) [
        | err e ↦ err e
        | ok v ↦ elim later [
          | err e ↦ err e
          | ok out ↦ ok (
              record {
                key = r.key;
                seqno = r.seqno;
                commit_seqno = r.commit_seqno;
                kind = r.kind;
                value = v;
              }
              ∷ out)
        ]
      ]

  abbrev pub last_seqno : RawEntry → List RawEntry → ℕ
  last_seqno r [] = r.seqno
  last_seqno r (r' ∷ rs) = last_seqno r' rs

  -- `resolve`, on a batch that is not empty: its first entry and the others.
  unfoldable pub resolve :
      Subscription → RawEntry → List RawEntry → Result (List StreamEntry) × Subscription
  unfolding resolve_all advance_pin
  resolve s r rs = elim (resolve_all (r ∷ rs)) [
    | err e ↦ (err e, record s { shared = record s.shared { dropped = true } })
    | ok out ↦ (
      ok out,
      record s { db = advance_pin s.db s.pinned (last_seqno r rs); pinned = last_seqno r rs },
    )
  ]

  -- One round of `recv_timeout`: `none` is where it waits for a signal or its time is over.
  unfoldable pub recv_drained :
      Subscription → List RawEntry → Result (Option StreamEvent) × Subscription
  unfolding resolve
  recv_drained s [] = (ok none, s)
  recv_drained s (r ∷ rs) =
      let (result, s') = resolve s r rs in
      elim result [ err e ↦ (err e, s') | ok out ↦ (ok (some (batch out)), s') ]

  unfoldable pub recv_round : Subscription → Result (Option StreamEvent) × Subscription
  unfolding recv_drained
  recv_round s =
      if s.shared.dropped
      then (ok (some lagged), s)
      else if s.degraded
      then (err background, s)
      else recv_drained
          (record s { shared = record s.shared { queue = record { entries = []; bytes = 0 } } })
          s.shared.queue.entries
