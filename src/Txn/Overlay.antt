-- ===== src/Txn/Overlay.antt =====
-- crates/fluent31/src/txn.rs: the iterator that merges a transaction's writes with a snapshot. The
-- snapshot's iterator is the list of what it will yield.
use fluent.Prelude.{
  ℕ, zero, suc, Bool, true, false, ◌&&◌, if◌then◌else◌, List, [], ◌∷◌, length, Option, none, some,
  reverse,
}
use fluent.Result.{Result, ok, err}
use fluent.Bytes.{bytes_lt, bytes_le, bytes_eq}
use fluent.Txn.{Txn}

abbrev pub Pair : Type 0
Pair = List ℕ × List ℕ

abbrev pub Write : Type 0
Write = List ℕ × Option (List ℕ)

pub record TxnIter : Type 0 where
  pub base : List (Result Pair)
  pub base_peek : Option Pair
  pub overlay : List Write
  pub reverse : Bool
  pub done : Bool

abbrev pub at_least : Option (List ℕ) → List ℕ → Bool
at_least none k = true
at_least (some lo) k = bytes_le lo k

abbrev pub below : Option (List ℕ) → List ℕ → Bool
below none k = true
below (some hi) k = bytes_lt k hi

-- The writes of `[lo, hi)`.
unfoldable pub within : Option (List ℕ) → Option (List ℕ) → List Write → List Write
within lo hi [] = []
within lo hi (w ∷ ws) =
    let rest = within lo hi ws in if at_least lo w.0 && below hi w.0 then w ∷ rest else rest

-- `Txn::iter`, given what the snapshot's iterator over the same range yields.
unfoldable pub iter : Txn → List (Result Pair) → Option (List ℕ) → Option (List ℕ) → Bool → TxnIter
unfolding within
iter t base lo hi rev =
    let overlay = within lo hi t.writes in
    record {
      base = base;
      base_peek = none;
      overlay = if rev then reverse overlay else overlay;
      reverse = rev;
      done = false;
    }

unfoldable pub fill_base : TxnIter → Result (Unit {0}) × TxnIter
fill_base it = elim it.base_peek [
  | some kv ↦ (ok tt, it)
  | none ↦ elim it.base [
    | [] ↦ (ok tt, it)
    | r ∷ rest ↦ elim r [
      | ok kv ↦ (ok tt, record it { base = rest; base_peek = some kv })
      | err e ↦ (err e, record it { base = rest })
    ]
  ]
]

abbrev pub Item : Type 0
Item = Option (Result Pair)

-- The overlay's key comes first, or is the base's.
abbrev pub comes_first : Bool → List ℕ → List ℕ → Bool
comes_first true key bk = bytes_le bk key
comes_first false key bk = bytes_le key bk

-- What is left of the peeked pair once the overlay's key is taken: an equal one is shadowed.
abbrev pub shadow : List ℕ → Option Pair → Option Pair
shadow key none = none
shadow key (some (bk, v)) = if bytes_eq bk key then none else some (bk, v)

-- The loop of `next`. A round that goes on takes a delete off the overlay.
unfoldable pub next_loop : ℕ → TxnIter → Item × TxnIter
next_loop zero it = (none, it)
next_loop (suc fuel) it0 =
    let (filled, it) = fill_base it0 in
    let take_base : Pair → Item × TxnIter = λ kv. (some (ok kv), record it { base_peek = none }) in
    let hide : List Write → Option Pair → Item × TxnIter =
      λ rest peek. next_loop fuel (record it { overlay = rest; base_peek = peek }) in
    let take_overlay : Write → List Write → Item × TxnIter = λ w rest. elim w.1 [
      | some v ↦
          (some (ok (w.0, v)), record it { overlay = rest; base_peek = shadow w.0 it.base_peek })
      | none ↦ hide rest (shadow w.0 it.base_peek)
    ] in
    elim filled [
      | err e ↦ (some (err e), record it { done = true })
      | ok _ ↦ elim it.overlay [
        | [] ↦ elim it.base_peek [
          | none ↦ (none, record it { done = true })
          | some kv ↦ take_base kv
        ]
        | w ∷ rest ↦ elim it.base_peek [
          | none ↦ take_overlay w rest
          | some kv ↦ if comes_first it.reverse w.0 kv.0 then take_overlay w rest else take_base kv
        ]
      ]
    ]

unfoldable pub next : TxnIter → Item × TxnIter
unfolding next_loop
next it = if it.done then (none, it) else next_loop (suc (length it.overlay)) it

-- A client's loop, for at most so many rounds; an error ends it.
unfoldable pub collect : ℕ → TxnIter → Result (List Pair)
collect zero it = ok []
collect (suc rounds) it =
    let (item, it') = next it in
    let rest = collect rounds it' in
    elim item [
      | none ↦ ok []
      | some r ↦ elim r [
        | err e ↦ err e
        | ok kv ↦ elim rest [ ok pairs ↦ ok (kv ∷ pairs) | err e ↦ err e ]
      ]
    ]
