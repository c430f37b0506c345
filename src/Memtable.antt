-- ===== src/Memtable.antt =====
-- crates/fluent31/src/memtable.rs: the in-memory write buffer. Crossbeam's skiplist is a parameter: an
-- ordered map of internal keys, with the behaviour that its documentation states.
pub mod Skiplist
pub mod Lookup
pub mod MemIter
use fluent.Prelude.{
  ℕ, ◌+◌, Bool, true, false, if◌then◌else◌, List, [], ◌∷◌, length, Option, none, some,
}
use fluent.Result.{Result, ok, err}
use fluent.Bytes.{bytes_eq}
use fluent.Types.{ValueKind, make_seek_ikey, ikey_ukey, ikey_kind, ikey_seqno}
use Skiplist.{SkipMap}

abbrev pub entry_overhead : ℕ
entry_overhead = 64

-- `.ok()?` on a result.
abbrev pub or_none {ℓ κ} : {A : Type ℓ} {B : Type κ} → Result A → (A → Option B) → Option B
or_none (ok a) f = f a
or_none (err e) f = none

-- What `get` makes of the entry at the seek target.
unfoldable pub visible_in : List ℕ → Option (List ℕ × List ℕ) → Option (ValueKind × ℕ × List ℕ)
visible_in ukey none = none
visible_in ukey (some (ik, repr)) =
    if bytes_eq (ikey_ukey ik) ukey
    then or_none (ikey_kind ik) (λ kind. some (kind, ikey_seqno ik, repr))
    else none

module _ (s : SkipMap) where
  pub record Memtable : Type 0 where
    pub map : s.Map
    pub bytes : ℕ
    pub wal_id : ℕ

  unfoldable pub new : ℕ → Memtable
  new wal_id = record { map = s.new; bytes = 0; wal_id = wal_id }

  unfoldable pub insert : Memtable → List ℕ → List ℕ → Memtable
  insert mt ikey repr =
      let sz = length ikey + length repr + entry_overhead in
      record mt { map = s.insert mt.map ikey repr; bytes = mt.bytes + sz }

  abbrev pub approximate_bytes : Memtable → ℕ
  approximate_bytes mt = mt.bytes

  unfoldable pub is_empty : Memtable → Bool
  is_empty mt = s.is_empty mt.map

  unfoldable pub get : Memtable → List ℕ → ℕ → Option (ValueKind × ℕ × List ℕ)
  unfolding visible_in
  get mt ukey seq = visible_in ukey (s.lower_bound mt.map (make_seek_ikey ukey seq))
