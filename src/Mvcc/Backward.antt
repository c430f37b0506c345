-- ===== src/Mvcc/Backward.antt =====
-- crates/fluent31/src/iter.rs: the reverse stream. A key's versions come oldest first, so each visible
-- one replaces the candidate, which is emitted when the user key changes.
use fluent.Prelude.{
  ℕ, zero, suc, leb, Bool, true, false, not, if◌then◌else◌, List, Option, none, some,
}
use fluent.Result.{Result, ok, ◌>>=◌}
use fluent.Bytes.{bytes_lt}
use fluent.Types.{
  ValueKind, put, delete, max_seqno, ikey_ukey, ikey_seqno, ikey_kind, make_seek_ikey,
}
use fluent.Iter.{Entry, InternalIterator}
use fluent.Mvcc.{is_last}

module _ (I : InternalIterator) where
  -- `cand`: `some (some v)` for a visible put, `some none` for a visible tombstone.
  pub record MvccReverse : Type 0 where
    pub it : I.State
    pub snap : ℕ
    pub lo : List ℕ
    pub group : Option (List ℕ)
    pub cand : Option (Option (List ℕ))
    pub done : Bool

  unfoldable pub new_reverse : I.State → ℕ → List ℕ → Option (List ℕ) → Result MvccReverse
  new_reverse it snap lo hi = do
    it' ← elim hi [
      | some hi ↦ I.seek_for_prev it (make_seek_ikey hi max_seqno)
      | none ↦ I.seek_to_last it
    ]
    ok (record { it = it'; snap = snap; lo = lo; group = none; cand = none; done = false })

  -- The group that is there is taken, with its candidate.
  unfoldable pub take_emittable : MvccReverse → Option Entry × MvccReverse
  take_emittable r = elim r.group [
    | none ↦ (none, r)
    | some g ↦ (
      elim r.cand [ none ↦ none | some c ↦ elim c [ none ↦ none | some v ↦ some (g, v) ] ],
      record r { group = none; cand = none },
    )
  ]

  abbrev pub candidate : ValueKind → List ℕ → Option (List ℕ)
  candidate put value = some value
  candidate delete value = none

  -- The loop of `next_visible`, in two parts: what a round does with an entry of the group,
  unfoldable pub take_version :
      (MvccReverse → Result (Option Entry × MvccReverse))
      → MvccReverse
      → Result (Option Entry × MvccReverse)
  take_version loop r =
      let back = λ (g : MvccReverse). I.prev g.it >>= λ it'. loop (record g { it = it' }) in
      if leb (ikey_seqno (I.ikey r.it)) r.snap
      then (ikey_kind (I.ikey r.it) >>= λ kind.
          back (record r { cand = some (candidate kind (I.value r.it)) }))
      else back r

  -- and the rounds. Each round that goes on takes one entry.
  unfoldable pub reverse_loop : ℕ → MvccReverse → Result (Option Entry × MvccReverse)
  unfolding take_version take_emittable
  reverse_loop zero r = ok (none, r)
  reverse_loop (suc fuel) r =
      let uk = ikey_ukey (I.ikey r.it) in
      let flushed = take_emittable (record r { done = true }) in
      let (emit, taken) = take_emittable r in
      let entered : MvccReverse = record taken { group = some uk; cand = none } in
      if not (I.valid r.it)
      then ok flushed
      else if bytes_lt uk r.lo
      then ok flushed
      else if is_last r.group uk
      then take_version (reverse_loop fuel) r
      else elim emit [
        | some pair ↦ ok (some pair, entered)
        | none ↦ take_version (reverse_loop fuel) entered
      ]

  unfoldable pub next_visible_back : ℕ → MvccReverse → Result (Option Entry × MvccReverse)
  unfolding reverse_loop
  next_visible_back fuel r = if r.done then ok (none, r) else reverse_loop fuel r
