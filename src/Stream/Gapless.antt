-- ===== src/Stream/Gapless.antt =====
-- crates/fluent31/src/db.rs: a subscription misses nothing, or is cut.
use mathlib.Core.List.{append_assoc, append-nil}
use fluent.Prelude.{
  ℕ, ◌+◌, ◌-◌, ltb, if◌then◌else◌, Bool, true, false, List, [], ◌∷◌, ◌++◌, length, Option, some,
  ◌≡◌, refl, ap, sym, subst, ◌∙◌, ◌⊎◌, inl, inr, Bool-cases, arith,
}
use fluent.Result.{Result, Result-cases, ok, err, Error, background}
use fluent.Batch.{EncEntry}
use fluent.Snapshots.{advance_pin}
use fluent.Stream.{
  RawEntry, SubQueue, SubShared, push_entries, offer, publish_to, StreamEntry, StreamEvent, batch,
  lagged, Subscription, resolve_all, last_seqno, recv_drained, recv_round,
}
use fluent.Stream.Delivered.{AreDelivered, AreDelivered-append, resolve_all-AreDelivered}
use fluent.Stream.Taps.{tap, Within, push_entries-tap, tap-Within, Within-append, Within-last}
use fluent.Stream.Run.{
  Streamed, Event, commit, receive, degrade, got, happen, happen_all, IsGapless, Holds, IsFresh,
}

if-true {ℓ} : {A : Type ℓ} {b : Bool} (x y : A) → b ≡ true → (if b then x else y) ≡ x
if-true x y h = rw h refl

if-false {ℓ} : {A : Type ℓ} {b : Bool} (x y : A) → b ≡ false → (if b then x else y) ≡ y
if-false x y h = rw h refl

module _ (resolve_repr : List ℕ → List ℕ → Result (List ℕ)) where
  module _ (es : List EncEntry) (t : Streamed resolve_repr) (g : IsGapless resolve_repr t) where
    abbrev shared : SubShared
    shared = t.sub.shared

    abbrev base : ℕ
    base = t.sub.db.visible_seqno + 1

    abbrev tapped : List RawEntry
    tapped = tap shared.lo shared.hi (base + (length es - 1)) base es

    abbrev pushed : SubQueue × Bool
    pushed = push_entries shared.lo shared.hi (base + (length es - 1)) base es shared.queue

    abbrev signals : ℕ
    signals = if pushed.1 then shared.signals + 1 else shared.signals

    abbrev after : SubShared → Streamed resolve_repr
    after s = record t {
      sub = record t.sub {
        db = record t.sub.db { visible_seqno = t.sub.db.visible_seqno + length es };
        shared = s;
      };
      committed = t.committed ++ tapped;
    }

    offer-cut :
        ltb shared.max_bytes pushed.0.bytes ≡ true
        → offer shared base es ≡ record shared {
          queue = record { entries = []; bytes = 0 };
          dropped = true;
          signals = signals;
        }
    unfolding offer
    offer-cut h = rw h refl

    offer-queued :
        ltb shared.max_bytes pushed.0.bytes ≡ false
        → offer shared base es ≡ record shared { queue = pushed.0; signals = signals }
    unfolding offer
    offer-queued h = rw h refl

    queued-Within :
        Within t.sub.pinned (t.sub.db.visible_seqno + length es) (shared.queue.entries ++ tapped)
    queued-Within =
        Within-append t.sub.pinned t.sub.db.visible_seqno (t.sub.db.visible_seqno + length es)
          shared.queue.entries tapped (omega arith) g.pinned_below
          (subst (λ n. Within t.sub.pinned n tapped) (omega arith)
            (tap-Within shared.lo shared.hi (base + (length es - 1)) base t.sub.pinned es
              (omega (arith, g.pin_visible))))

    queued-IsGapless :
        IsGapless resolve_repr (after (record shared { queue = pushed.0; signals = signals }))
    queued-IsGapless =
        let queue =
          push_entries-tap shared.lo shared.hi (base + (length es - 1)) base es shared.queue in
        record {
          front = g.front;
          split =
              ap (λ (l : List RawEntry). l ++ tapped) g.split
              ∙ append_assoc g.front shared.queue.entries tapped
              ∙ ap (λ (l : List RawEntry). g.front ++ l) (sym queue);
          resolved = g.resolved;
          pinned_below =
              subst (Within t.sub.pinned (t.sub.db.visible_seqno + length es)) (sym queue)
                queued-Within;
          pin_visible = omega (arith, g.pin_visible);
        }

    offer-Holds : Holds resolve_repr (after (offer shared base es))
    offer-Holds = elim (Bool-cases (ltb shared.max_bytes pushed.0.bytes)) [
      | inl lag ↦ subst (λ s. Holds resolve_repr (after s)) (sym (offer-cut lag)) (inl refl)
      | inr kept ↦
          subst (λ s. Holds resolve_repr (after s)) (sym (offer-queued kept)) (inr queued-IsGapless)
    ]

    commit-Holds :
        t.sub.shared.dropped ≡ false → Holds resolve_repr (happen resolve_repr (commit es) t)
    unfolding happen publish_to tap
    commit-Holds uncut =
        subst (λ s. Holds resolve_repr (after s))
          (ap (λ b. if b then shared else offer shared base es) (sym uncut)) offer-Holds

  module _ (t : Streamed resolve_repr) (g : IsGapless resolve_repr t) where
    -- The subscription with its queue emptied, and the state after the rest of the round.
    abbrev emptied : Subscription
    emptied = record t.sub {
      shared = record t.sub.shared { queue = record { entries = []; bytes = 0 } };
    }

    abbrev received : Result (Option StreamEvent) × Subscription → Streamed resolve_repr
    received (result, sub) = record t {
      sub = sub;
      delivered = t.delivered ++ got resolve_repr result;
    }

    recv_drained-ok :
        (r : RawEntry) (rs : List RawEntry) (out : List StreamEntry)
        → resolve_all resolve_repr (r ∷ rs) ≡ ok out
        → recv_drained resolve_repr emptied (r ∷ rs) ≡ (
          ok (some (batch out)),
          record emptied {
            db = advance_pin t.sub.db t.sub.pinned (last_seqno resolve_repr r rs);
            pinned = last_seqno resolve_repr r rs;
          },
        )
    unfolding recv_drained
    recv_drained-ok r rs out e = ground (arith, e)

    recv_drained-err :
        (r : RawEntry) (rs : List RawEntry) (e : Error)
        → resolve_all resolve_repr (r ∷ rs) ≡ err e
        → recv_drained resolve_repr emptied (r ∷ rs)
          ≡ (err e, record emptied { shared = record emptied.shared { dropped = true } })
    unfolding recv_drained
    recv_drained-err r rs e p = ground (arith, p)

    all_resolved :
        (rs : List RawEntry) (out : List StreamEntry)
        → resolve_all resolve_repr rs ≡ ok out
        → AreDelivered resolve_repr (g.front ++ rs) (t.delivered ++ out)
    all_resolved rs out e =
        AreDelivered-append resolve_repr g.front rs t.delivered out g.resolved
          (resolve_all-AreDelivered resolve_repr rs out e)

    ok-IsGapless :
        (r : RawEntry) (rs : List RawEntry) (out : List StreamEntry)
        → t.sub.shared.queue.entries ≡ r ∷ rs
        → resolve_all resolve_repr (r ∷ rs) ≡ ok out
        → IsGapless resolve_repr (
            received (
              ok (some (batch out)),
              record emptied {
                db = advance_pin t.sub.db t.sub.pinned (last_seqno resolve_repr r rs);
                pinned = last_seqno resolve_repr r rs;
              },
            ))
    unfolding advance_pin
    ok-IsGapless r rs out q e = record {
      front = g.front ++ r ∷ rs;
      split =
          g.split
          ∙ ap (λ (l : List RawEntry). g.front ++ l) q
          ∙ sym (append-nil (g.front ++ r ∷ rs));
      resolved = all_resolved (r ∷ rs) out e;
      pinned_below = tt;
      pin_visible =
          Within-last resolve_repr t.sub.pinned t.sub.db.visible_seqno r rs
            (subst (Within t.sub.pinned t.sub.db.visible_seqno) q g.pinned_below);
    }

    empty-IsGapless :
        t.sub.shared.queue.entries ≡ []
        → IsGapless resolve_repr (received (recv_drained resolve_repr emptied []))
    unfolding recv_drained
    empty-IsGapless q = record {
      front = g.front;
      split = g.split ∙ ap (λ (l : List RawEntry). g.front ++ l) q;
      resolved =
          subst (AreDelivered resolve_repr g.front) (sym (append-nil t.delivered)) g.resolved;
      pinned_below = tt;
      pin_visible = g.pin_visible;
    }

    drained-Holds :
        (rs : List RawEntry)
        → t.sub.shared.queue.entries ≡ rs
        → Holds resolve_repr (received (recv_drained resolve_repr emptied rs))
    drained-Holds [] q = inr (empty-IsGapless q)
    drained-Holds (r ∷ rs) q = elim (Result-cases (resolve_all resolve_repr (r ∷ rs))) [
      | inl (out, e) ↦
          subst (λ x. Holds resolve_repr (received x)) (sym (recv_drained-ok r rs out e))
            (inr (ok-IsGapless r rs out q e))
      | inr (y, e) ↦
          subst (λ x. Holds resolve_repr (received x)) (sym (recv_drained-err r rs y e)) (inl refl)
    ]

    nothing-IsGapless : IsGapless resolve_repr (record t { delivered = t.delivered ++ [] })
    nothing-IsGapless =
        subst (λ l. IsGapless resolve_repr (record t { delivered = l }))
          (sym (append-nil t.delivered)) g

    recv_round-degraded :
        t.sub.shared.dropped ≡ false
        → t.sub.degraded ≡ true
        → recv_round resolve_repr t.sub ≡ (err background, t.sub)
    unfolding recv_round
    recv_round-degraded uncut degraded =
        if-false (ok (some lagged), t.sub)
          (if t.sub.degraded
            then (err background, t.sub)
            else recv_drained resolve_repr emptied t.sub.shared.queue.entries)
          uncut
        ∙ if-true (err background, t.sub)
            (recv_drained resolve_repr emptied t.sub.shared.queue.entries) degraded

    recv_round-drained :
        t.sub.shared.dropped ≡ false
        → t.sub.degraded ≡ false
        → recv_round resolve_repr t.sub
          ≡ recv_drained resolve_repr emptied t.sub.shared.queue.entries
    unfolding recv_round
    recv_round-drained uncut healthy =
        if-false (ok (some lagged), t.sub)
          (if t.sub.degraded
            then (err background, t.sub)
            else recv_drained resolve_repr emptied t.sub.shared.queue.entries)
          uncut
        ∙ if-false (err background, t.sub)
            (recv_drained resolve_repr emptied t.sub.shared.queue.entries) healthy

    receive-Holds :
        t.sub.shared.dropped ≡ false → Holds resolve_repr (happen resolve_repr receive t)
    unfolding happen
    receive-Holds uncut = elim (Bool-cases t.sub.degraded) [
      | inl degraded ↦
          subst (λ x. Holds resolve_repr (received x)) (sym (recv_round-degraded uncut degraded))
            (inr nothing-IsGapless)
      | inr healthy ↦
          subst (λ x. Holds resolve_repr (received x)) (sym (recv_round-drained uncut healthy))
            (drained-Holds t.sub.shared.queue.entries refl)
    ]

  happen-Holds :
      (e : Event resolve_repr) (t : Streamed resolve_repr)
      → Holds resolve_repr t
      → Holds resolve_repr (happen resolve_repr e t)
  unfolding happen publish_to recv_round
  happen-Holds (commit es) t (inl cut) = inl (rw cut refl)
  happen-Holds receive t (inl cut) = inl (rw cut refl)
  happen-Holds degrade t (inl cut) = inl cut
  happen-Holds degrade t (inr g) = inr (record {
    front = g.front;
    split = g.split;
    resolved = g.resolved;
    pinned_below = g.pinned_below;
    pin_visible = g.pin_visible;
  })
  happen-Holds (commit es) t (inr g) = elim (Bool-cases t.sub.shared.dropped) [
    | inl cut ↦ inl (rw cut refl)
    | inr uncut ↦ commit-Holds es t g uncut
  ]
  happen-Holds receive t (inr g) = elim (Bool-cases t.sub.shared.dropped) [
    | inl cut ↦ inl (rw cut refl)
    | inr uncut ↦ receive-Holds t g uncut
  ]

  happen_all-Holds :
      (events : List (Event resolve_repr)) (t : Streamed resolve_repr)
      → Holds resolve_repr t
      → Holds resolve_repr (happen_all resolve_repr events t)
  unfolding happen_all
  happen_all-Holds [] t h = h
  happen_all-Holds (e ∷ es) t h = happen_all-Holds es (happen resolve_repr e t) (happen-Holds e t h)

  fresh-IsGapless : (t : Streamed resolve_repr) → IsFresh resolve_repr t → IsGapless resolve_repr t
  fresh-IsGapless t f = record {
    front = [];
    split = f.nothing_committed ∙ sym f.empty;
    resolved = subst (AreDelivered resolve_repr []) (sym f.nothing_delivered) tt;
    pinned_below = subst (Within t.sub.pinned t.sub.db.visible_seqno) (sym f.empty) tt;
    pin_visible = omega (arith, f.pinned);
  }

  -- Through any commits, reads and a degradation of the store, in any order, a fresh
  -- subscription is cut or gapless: what its consumer got is the front of what was committed in
  -- its range, one for one and in order, each put with the value that its representation resolves
  -- to and each delete with none, the queue has the rest, and what is queued lies above the pin and
  -- is visible.
  pub happen_all-IsGapless :
      (events : List (Event resolve_repr)) (t : Streamed resolve_repr)
      → IsFresh resolve_repr t
      → ((happen_all resolve_repr events t).sub.shared.dropped ≡ true)
        ⊎ IsGapless resolve_repr (happen_all resolve_repr events t)
  happen_all-IsGapless events t f = happen_all-Holds events t (inr (fresh-IsGapless t f))
