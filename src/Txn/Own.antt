-- ===== src/Txn/Own.antt =====
-- crates/fluent31/src/txn.rs: a transaction reads its own writes, and a refused operation writes nothing.
use mathlib.Core.Path.{subst}
use fluent.Prelude.{
  ℕ, ◌+◌, ◌≡◌, refl, sym, ltb, Bool, true, false, ◌||◌, if◌then◌else◌, Bool-cases, ◌⊎◌, inl, inr,
  List, length, Option, none, some,
}
use fluent.Result.{Result, Error, ok, err, invalid_argument, ◌>>=◌, Result-cases}
use fluent.Bytes.{bytes_eq}
use fluent.OrderedMap
use fluent.OrderedMap.Bound.{lookup-insert}
use fluent.OrderedMap.Keys.{bytes_order}
use fluent.Types.{validate_user_key}
use fluent.Txn.{Database, Txn, track_bytes, write, get, put, delete}

module _ (db : Database) where
  -- What an operation on the write set leads to: with success, the transaction reads the new value
  -- under the key and all else as before; with an error, it reads as before.
  abbrev pub Reads : db.State → Txn → List ℕ → Option (List ℕ) → Result (Unit {0}) × Txn → Type 0
  Reads d t key value (ok _, t') =
      (j : List ℕ)
      → get db d t' j
        ≡ (if bytes_eq key j then (validate_user_key j >>= λ _. ok value) else get db d t j)
  Reads d t key value (err _, t') = (j : List ℕ) → get db d t' j ≡ get db d t j

  write-Reads :
      (d : db.State) (t : Txn) (n : ℕ) (key : List ℕ) (value : Option (List ℕ))
      → Reads d t key value (write db (track_bytes db t n) key value)
  unfolding write track_bytes get
  write-Reads d t n key value = elim (Bool-cases (ltb db.max_txn_write_bytes (t.bytes + n))) [
    | inl over ↦ rw over (λ j. refl)
    | inr fits ↦
        rw fits (λ j. rw (lookup-insert bytes_order key j value t.writes) (pick (bytes_eq key j) j))
  ]
    where
      pick :
          (b : Bool) (j : List ℕ)
          → (validate_user_key j >>= λ _.
              elim (if b then some value else OrderedMap.lookup bytes_order j t.writes) [
                | some v ↦ ok v
                | none ↦ db.get_at_seq d j t.snap
              ])
            ≡ (if b
                then (validate_user_key j >>= λ _. ok value)
                else (validate_user_key j >>= λ _. elim (OrderedMap.lookup bytes_order j t.writes) [
                  | some v ↦ ok v
                  | none ↦ db.get_at_seq d j t.snap
                ]))
      pick true j = refl
      pick false j = refl

  large : List ℕ → List ℕ → Bool
  large key value = ltb db.max_key_size (length key) || ltb db.max_value_size (length value)

  -- The branches of `put` and `delete`.
  put_cases :
      (t : Txn) (key value : List ℕ)
      → ((e : Error) × (put db t key value ≡ (err e, t)))
        ⊎ (put db t key value
            ≡ write db (track_bytes db t (length key + length value)) key (some value))
  unfolding put large
  put_cases t key value = elim (Result-cases (validate_user_key key)) [
    | inr (e, bad) ↦ inl (e, rw (bad, put) refl)
    | inl (_, valid) ↦ elim (Bool-cases (large key value)) [
      | inl big ↦ inl (invalid_argument, rw (valid, big, put) refl)
      | inr fits ↦ inr (rw (valid, fits, put) refl)
    ]
  ]

  delete_cases :
      (t : Txn) (key : List ℕ)
      → ((e : Error) × (delete db t key ≡ (err e, t)))
        ⊎ (delete db t key ≡ write db (track_bytes db t (length key)) key none)
  unfolding delete
  delete_cases t key = elim (Result-cases (validate_user_key key)) [
    | inr (e, bad) ↦ inl (e, rw (bad, delete) refl)
    | inl (_, valid) ↦ inr (rw (valid, delete) refl)
  ]

  same-Reads :
      (d : db.State) (t : Txn) (key : List ℕ) (value : Option (List ℕ))
      (o : Result (Unit {0}) × Txn) (n : ℕ)
      → ((e : Error) × (o ≡ (err e, t))) ⊎ (o ≡ write db (track_bytes db t n) key value)
      → Reads d t key value o
  same-Reads d t key value o n (inl (e, refused)) =
      subst (Reads d t key value) (sym refused) (λ j. refl)
  same-Reads d t key value o n (inr done) =
      subst (Reads d t key value) (sym done) (write-Reads d t n key value)

  -- A transaction reads its own writes: after a `put` or a `delete` that succeeds, it reads the value or
  -- nothing under the key and every other key as before; after one that fails, every key as before.
  pub own_writes :
      (d : db.State) (t : Txn) (key value : List ℕ)
      → Reads d t key (some value) (put db t key value) × Reads d t key none (delete db t key)
  own_writes d t key value = (
    same-Reads d t key (some value) (put db t key value) (length key + length value)
        (put_cases t key value),
    same-Reads d t key none (delete db t key) (length key) (delete_cases t key),
  )
