-- ===== src/Mvcc.antt =====
-- crates/fluent31/src/iter.rs: the streams of the visible versions in a snapshot, over a cursor of
-- internal keys (the code's is the merge, `Iter.merge`). The loops take fuel for the entries of the cursor.
pub mod Forward
pub mod Backward
pub mod Newest
pub mod Ascending
pub mod Scan
pub mod Reads
use fluent.Prelude.{
  ℕ, zero, suc, ltb, leb, Bool, true, false, not, if◌then◌else◌, List, [], ◌∷◌, Option, none, some,
}
use fluent.Result.{Result, ok, err, ◌>>=◌}
use fluent.Bytes.{bytes_lt, bytes_le, bytes_eq}
use fluent.Types.{
  ValueKind, put, delete, max_seqno, ikey_ukey, ikey_seqno, ikey_kind, make_seek_ikey,
}
use fluent.Iter.{Entry, InternalIterator}

-- `uk >= hi` for a bound that is there.
abbrev pub past : Option (List ℕ) → List ℕ → Bool
past none uk = false
past (some hi) uk = bytes_le hi uk

-- `last.as_deref() == Some(uk)`
abbrev pub is_last : Option (List ℕ) → List ℕ → Bool
is_last none uk = false
is_last (some last) uk = bytes_eq last uk

module _ (I : InternalIterator) where
  pub record MvccForward : Type 0 where
    pub it : I.State
    pub snap : ℕ
    pub hi : Option (List ℕ)
    pub last_ukey : Option (List ℕ)
    pub done : Bool

  unfoldable pub new_forward : I.State → ℕ → List ℕ → Option (List ℕ) → Result MvccForward
  new_forward it snap lo hi = do
    it' ← I.seek it (make_seek_ikey lo max_seqno)
    ok (record { it = it'; snap = snap; hi = hi; last_ukey = none; done = false })

  abbrev pub Visible : Type 0
  Visible = Option Entry

  -- The loop of `next_visible`; each round that goes on takes one entry.
  unfoldable pub forward_loop : ℕ → MvccForward → Result (Visible × MvccForward)
  forward_loop zero f = ok (none, f)
  forward_loop (suc fuel) f =
      let skip =
        λ (g : MvccForward). I.next g.it >>= λ it'. forward_loop fuel (record g { it = it' }) in
      let uk = ikey_ukey (I.ikey f.it) in
      let seen = record f { last_ukey = some uk } in
      if not (I.valid f.it)
      then ok (none, record f { done = true })
      else if past f.hi uk
      then ok (none, record f { done = true })
      else if is_last f.last_ukey uk
      then skip f
      else if ltb f.snap (ikey_seqno (I.ikey f.it))
      then skip f
      else ikey_kind (I.ikey f.it) >>= λ kind. elim kind [
        | delete ↦ skip seen
        | put ↦ (I.next f.it >>= λ it'. ok (some (uk, I.value f.it), record seen { it = it' }))
      ]

  unfoldable pub next_visible : ℕ → MvccForward → Result (Visible × MvccForward)
  unfolding forward_loop
  next_visible fuel f = if f.done then ok (none, f) else forward_loop fuel f
