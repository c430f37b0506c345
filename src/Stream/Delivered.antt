-- ===== src/Stream/Delivered.antt =====
-- crates/fluent31/src/db.rs: what a consumer is to get for the entries that were committed.
use fluent.Prelude.{
  ℕ, List, [], ◌∷◌, ◌++◌, Option, none, some, ◌≡◌, ◌⊎◌, refl, inl, inr, subst, arith,
}
use fluent.Result.{Result, Result-cases, ok}
use fluent.Types.{ValueKind, put, delete}
use fluent.Stream.{RawEntry, StreamEntry, resolve_value, resolve_all}

module _ (resolve_repr : List ℕ → List ℕ → Result (List ℕ)) where
  -- A put has the value that its representation resolves to, a delete has none.
  abbrev pub HasValue : RawEntry → Option (List ℕ) → Type 0
  HasValue r value =
      ((r.kind ≡ delete) × (value ≡ none))
      ⊎ ((r.kind ≡ put) × (v : List ℕ) × (resolve_repr r.key r.repr ≡ ok v) × (value ≡ some v))

  abbrev pub IsDelivered : RawEntry → StreamEntry → Type 0
  IsDelivered r d =
      (d.key ≡ r.key)
      × (d.seqno ≡ r.seqno)
      × (d.commit_seqno ≡ r.commit_seqno)
      × (d.kind ≡ r.kind)
      × HasValue r d.value

  -- One for one, in order.
  abbrev pub AreDelivered : List RawEntry → List StreamEntry → Type 0
  AreDelivered [] [] = Unit
  AreDelivered [] (d ∷ ds) = ⊥
  AreDelivered (r ∷ rs) [] = ⊥
  AreDelivered (r ∷ rs) (d ∷ ds) = IsDelivered r d × AreDelivered rs ds

  pub AreDelivered-append :
      (rs ss : List RawEntry) (ds es : List StreamEntry)
      → AreDelivered rs ds
      → AreDelivered ss es
      → AreDelivered (rs ++ ss) (ds ++ es)
  AreDelivered-append [] ss [] es h k = k
  AreDelivered-append [] ss (d ∷ ds) es h k = absurd h
  AreDelivered-append (r ∷ rs) ss [] es h k = absurd h
  AreDelivered-append (r ∷ rs) ss (d ∷ ds) es (h, hs) k = (h, AreDelivered-append rs ss ds es hs k)

  resolve_value-HasValue :
      (r : RawEntry) (kind : ValueKind) (value : Option (List ℕ))
      → r.kind ≡ kind
      → resolve_value resolve_repr r kind ≡ ok value
      → HasValue r value
  unfolding resolve_value
  resolve_value-HasValue r delete value k e = inl (k, cc (e))
  resolve_value-HasValue r put value k e = elim (Result-cases (resolve_repr r.key r.repr)) [
    | inl (v, found) ↦ inr (k, v, found, ground (arith, e, found))
    | inr (y, bad) ↦ absurd (ground (arith, e, bad))
  ]

  pub resolve_all-AreDelivered :
      (rs : List RawEntry) (out : List StreamEntry)
      → resolve_all resolve_repr rs ≡ ok out
      → AreDelivered rs out
  unfolding resolve_all
  resolve_all-AreDelivered [] [] e = tt
  resolve_all-AreDelivered [] (d ∷ out) e = absurd (cc (e))
  resolve_all-AreDelivered (r ∷ rs) out e =
      elim (Result-cases (resolve_value resolve_repr r r.kind)) [
        | inr (y, bad) ↦ absurd (ground (arith, e, bad))
        | inl (v, found) ↦ elim (Result-cases (resolve_all resolve_repr rs)) [
          | inr (y, bad) ↦ absurd (ground (arith, e, found, bad))
          | inl (later, goes) ↦
              let d : StreamEntry = record {
                key = r.key;
                seqno = r.seqno;
                commit_seqno = r.commit_seqno;
                kind = r.kind;
                value = v;
              } in
              let same : d ∷ later ≡ out = ground (arith, e, found, goes) in
              subst (AreDelivered (r ∷ rs)) same (
                (refl, refl, refl, refl, resolve_value-HasValue r r.kind v refl found),
                resolve_all-AreDelivered rs later goes,
              )
        ]
      ]
