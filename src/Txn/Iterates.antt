-- ===== src/Txn/Iterates.antt =====
-- crates/fluent31/src/txn.rs: the iterator yields the snapshot's pairs under the transaction's writes.
use fluent.Prelude.{
  ℕ, ◌≡◌, ◌⊎◌, Bool, true, false, List, [], ◌∷◌, map, Option, none, some, ◌&&◌, not,
}
use fluent.Result.{Result, ok, err}
use fluent.Bytes.{bytes_lt}
use fluent.OrderedMap
use fluent.Txn.{Txn}
use fluent.Txn.Overlay.{Pair, Write, TxnIter, Item, next_loop}
use fluent.Txn.Overlaid.{overlaid}

abbrev pub held : Option Pair → List Pair → List Pair
held none rest = rest
held (some p) rest = p ∷ rest

module _ (rev : Bool) where
  -- An iterator that is to go on, over a snapshot that yields pairs.
  abbrev pub at : List Write → Option Pair → List Pair → TxnIter
  at writes peek rest = record {
    base = map (λ (p : Pair). ok p) rest;
    base_peek = peek;
    overlay = writes;
    reverse = rev;
    done = false;
  }

  -- At the end there is nothing to yield; before it, the first pair is, and the others are left.
  abbrev Yields : ℕ → List Write → Option Pair → List Pair → Type 0
  Yields fuel writes peek rest =
      ((overlaid rev writes (held peek rest) ≡ [])
        × ((next_loop fuel (at writes peek rest)).0 ≡ none))
      ⊎ ((kv : Pair) × (writes' : List Write) × (peek' : Option Pair) × (rest' : List Pair)
          × (next_loop fuel (at writes peek rest) ≡ (some (ok kv), at writes' peek' rest'))
          × (overlaid rev writes (held peek rest) ≡ kv ∷ overlaid rev writes' (held peek' rest')))

  abbrev with_item : Item → Result (List Pair) → Result (List Pair)
  with_item none more = ok []
  with_item (some (err e)) more = err e
  with_item (some (ok kv)) (ok pairs) = ok (kv ∷ pairs)
  with_item (some (ok kv)) (err e) = err e

-- The keys of the range, from `lo` on and before `hi`.
abbrev pub in_range : Option (List ℕ) → Option (List ℕ) → List ℕ → Bool
in_range none none u = true
in_range (some lo) none u = not (bytes_lt u lo)
in_range none (some hi) u = bytes_lt u hi
in_range (some lo) (some hi) u = not (bytes_lt u lo) && bytes_lt u hi
