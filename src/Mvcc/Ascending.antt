-- ===== src/Mvcc/Ascending.antt =====
-- The keys of the forward stream ascend.
use fluent.Prelude.{
  All-map, ℕ, ◌≡◌, arith, ltb, Bool-cases, inl, inr, List, [], ◌∷◌, Option, some, Ordering, All,
}
use fluent.Bytes.{cmp_bytes, bytes_eq}
use fluent.Bytes.Order.{cmp_bytes_trans}
use fluent.OrderedMap.{IsSorted}
use fluent.OrderedMap.Keys.{bytes_order}
use fluent.Types.{ValueKind, put, delete, ikey_ukey, ikey_seqno}
use fluent.Iter.{Entry}
use fluent.Mvcc.{past, is_last}
use fluent.Mvcc.Forward.{HasKind, stream}
use fluent.Mvcc.Newest.{AtLeast, KeysOrdered}

abbrev Above : List ℕ → List Entry → Type 0
Above u out = All (λ (x : Entry). cmp_bytes u x.0 ≡ Ordering.lt) out

Above-more :
    (u v : List ℕ) (out : List Entry) → cmp_bytes u v ≡ Ordering.lt → Above v out → Above u out
Above-more u v out h k = All-map _ _ out (λ x b. cmp_bytes_trans u v x.0 h b) k

-- The keys that the stream yields ascend, and are above the key that was seen last.
stream-Above :
    (snap : ℕ) (hi : Option (List ℕ)) (b : List ℕ) (l : List Entry)
    → All HasKind l
    → KeysOrdered l
    → AtLeast b l
    → Above b (stream snap hi (some b) l)
unfolding stream
stream-Above snap hi b [] k s p = tt
stream-Above snap hi b (e ∷ l) ((kind, known), k) (least, s) (p, ps) =
    elim (Bool-cases (past hi (ikey_ukey e.0))) [
      | inl h ↦ rw h tt
      | inr h ↦ elim (Bool-cases (bytes_eq b (ikey_ukey e.0))) [
        | inl same ↦ rw (h, same) (stream-Above snap hi b l k s ps)
        | inr fresh ↦ elim (Bool-cases (ltb snap (ikey_seqno e.0))) [
          | inl later ↦ rw (h, fresh, later) (stream-Above snap hi b l k s ps)
          | inr seen ↦
              let below : cmp_bytes b (ikey_ukey e.0) ≡ Ordering.lt = ground (arith, p, fresh) in
              let rest =
                Above-more b (ikey_ukey e.0) _ below
                  (stream-Above snap hi (ikey_ukey e.0) l k s least) in
              rw (h, fresh, seen, known) (by_kind kind below rest)
        ]
      ]
    ]
  where
    by_kind :
        (kind : ValueKind)
        → cmp_bytes b (ikey_ukey e.0) ≡ Ordering.lt
        → Above b (stream snap hi (some (ikey_ukey e.0)) l)
        → Above b (elim kind [
          | delete ↦ stream snap hi (some (ikey_ukey e.0)) l
          | put ↦ (ikey_ukey e.0, e.1) ∷ stream snap hi (some (ikey_ukey e.0)) l
        ])
    by_kind put below rest = (below, rest)
    by_kind delete below rest = rest

pub stream-IsSorted :
    (snap : ℕ) (hi last : Option (List ℕ)) (l : List Entry)
    → All HasKind l
    → KeysOrdered l
    → IsSorted bytes_order (stream snap hi last l)
unfolding stream
stream-IsSorted snap hi last [] k s = tt
stream-IsSorted snap hi last (e ∷ l) ((kind, known), k) (least, s) =
    elim (Bool-cases (past hi (ikey_ukey e.0))) [
      | inl h ↦ rw h tt
      | inr h ↦ elim (Bool-cases (is_last last (ikey_ukey e.0))) [
        | inl same ↦ rw (h, same) (stream-IsSorted snap hi last l k s)
        | inr fresh ↦ elim (Bool-cases (ltb snap (ikey_seqno e.0))) [
          | inl later ↦ rw (h, fresh, later) (stream-IsSorted snap hi last l k s)
          | inr seen ↦
              rw (h, fresh, seen, known)
                (by_kind kind (stream-Above snap hi (ikey_ukey e.0) l k s least)
                  (stream-IsSorted snap hi (some (ikey_ukey e.0)) l k s))
        ]
      ]
    ]
  where
    by_kind :
        (kind : ValueKind)
        → Above (ikey_ukey e.0) (stream snap hi (some (ikey_ukey e.0)) l)
        → IsSorted bytes_order (stream snap hi (some (ikey_ukey e.0)) l)
        → IsSorted bytes_order (elim kind [
          | delete ↦ stream snap hi (some (ikey_ukey e.0)) l
          | put ↦ (ikey_ukey e.0, e.1) ∷ stream snap hi (some (ikey_ukey e.0)) l
        ])
    by_kind put above rest = (above, rest)
    by_kind delete above rest = rest
