-- ===== src/Committer.antt =====
-- crates/fluent31/src/db.rs: what `commit_thread` makes of the waiters that it drained from the queue. The
-- lookup of a key's newest version in the view of a group is a parameter.
pub mod Chunks
pub mod Resolved
pub mod Validated
use fluent.Prelude.{
  ℕ, zero, suc, ◌+◌, ◌^◌, ltb, leb, if◌then◌else◌, Bool, true, false, ◌||◌, List, [], ◌∷◌, ◌++◌,
  map, Option, none, some,
}
use fluent.Result.{Result, ok, err, Error, conflict, background, ◌>>=◌}
use fluent.Bytes.{bytes_eq}
use fluent.Types.{ValueKind}
use fluent.Batch.{BatchOp}
use fluent.Memtable.Skiplist.{SkipMap}
use fluent.Write.{Disk, Options, is_nil}
use fluent.Write.Group.{Results, Batch, Store, apply_group_locked}

pub record Waiter : Type 0 where
  pub ops : List BatchOp
  pub bytes : ℕ
  pub validate : Option (ℕ × List (List ℕ))
  pub capture : Bool

unfoldable pub group_byte_cap : ℕ → ℕ
group_byte_cap first_bytes = if leb first_bytes (2 ^ 17) then first_bytes + 2 ^ 17 else 2 ^ 20

-- The waiters that join the group behind its first one, and those that are left.
unfoldable pub grow_group : ℕ → ℕ → List Waiter → List Waiter × List Waiter
grow_group cap total [] = ([], [])
grow_group cap total (w ∷ ws) =
    let joined : List Waiter × List Waiter =
      let (group, rest) = grow_group cap (total + w.bytes) ws in (w ∷ group, rest) in
    if ltb cap (total + w.bytes) then ([], w ∷ ws) else joined

-- The chunks of what was drained; a round takes a waiter at least, so their number is enough fuel.
unfoldable pub chunk_loop : ℕ → List Waiter → List (List Waiter)
unfolding grow_group group_byte_cap
chunk_loop zero ws = []
chunk_loop (suc fuel) [] = []
chunk_loop (suc fuel) (w ∷ ws) =
    let (group, rest) = grow_group (group_byte_cap w.bytes) w.bytes ws in
    (w ∷ group) ∷ chunk_loop fuel rest

-- What validation says of a waiter: its result, or that its batch is to be applied.
pub data Verdict : Type 0 where
  refused : Error → Verdict
  nothing_to_do : Verdict
  included : List BatchOp → Bool → Verdict

abbrev pub op_key : BatchOp → List ℕ
op_key (BatchOp.put key value) = key
op_key (BatchOp.delete key) = key

-- Membership in the set of keys that the group wrote so far.
unfoldable pub written_has : List (List ℕ) → List ℕ → Bool
written_has [] key = false
written_has (k ∷ ks) key = let rest = written_has ks key in bytes_eq k key || rest

module _ (latest : List ℕ → Result (Option (ℕ × ValueKind))) where
  abbrev pub newer : ℕ → Option (ℕ × ValueKind) → Bool
  newer snap none = false
  newer snap (some (seq, kind)) = ltb snap seq

  unfoldable pub has_conflict : ℕ → List (List ℕ) → List (List ℕ) → Result Bool
  unfolding written_has
  has_conflict snap written [] = ok false
  has_conflict snap written (key ∷ keys) =
      let rest = has_conflict snap written keys in
      if written_has written key
      then ok true
      else latest key >>= λ v. if newer snap v then ok true else rest

  abbrev pub conflict_of : Option (ℕ × List (List ℕ)) → List (List ℕ) → Result Bool
  conflict_of none written = ok false
  conflict_of (some (snap, keys)) written = has_conflict snap written keys

  unfoldable pub validate_group : List (List ℕ) → List Waiter → List Verdict
  unfolding has_conflict
  validate_group written [] = []
  validate_group written (w ∷ ws) =
      let skipped = validate_group written ws in
      let passed = validate_group (written ++ map op_key w.ops) ws in
      elim (conflict_of w.validate written) [
        | err e ↦ refused e ∷ skipped
        | ok hit ↦
            if hit
            then refused conflict ∷ skipped
            else if is_nil w.ops
            then nothing_to_do ∷ passed
            else included w.ops w.capture ∷ passed
      ]

unfoldable pub refs : List Verdict → List (List BatchOp × Bool)
refs [] = []
refs (refused e ∷ vs) = refs vs
refs (nothing_to_do ∷ vs) = refs vs
refs (included ops capture ∷ vs) = (ops, capture) ∷ refs vs

-- The results, those of the applied batches in order.
unfoldable pub deliver : List Verdict → Results → Results
deliver [] applied = []
deliver (refused e ∷ vs) applied = some (err e) ∷ deliver vs applied
deliver (nothing_to_do ∷ vs) applied = some (ok tt) ∷ deliver vs applied
deliver (included ops capture ∷ vs) [] = none ∷ deliver vs []
deliver (included ops capture ∷ vs) (r ∷ applied) = r ∷ deliver vs applied

unfoldable pub degraded_results : List Waiter → Results
degraded_results [] = []
degraded_results (w ∷ ws) = some (err background) ∷ degraded_results ws

module _ (disk : Disk) (m : SkipMap) (crc32 : List ℕ → ℕ) (opts : Options)
    (capture_ops : List BatchOp → ℕ → List BatchOp) where
  abbrev pub View : Type 0
  View = Store disk m crc32 opts capture_ops → List ℕ → Result (Option (ℕ × ValueKind))

  -- One chunk, behind the gate that a degraded store closes.
  unfoldable pub commit_group :
      View
      → List Waiter
      → Store disk m crc32 opts capture_ops
      → Results × Store disk m crc32 opts capture_ops
  unfolding validate_group refs deliver degraded_results apply_group_locked
  commit_group latest group db =
      let verdicts = validate_group (latest db) [] group in
      let validated : Results × Store disk m crc32 opts capture_ops =
        if is_nil (refs verdicts)
        then (deliver verdicts [], db)
        else (let (applied, db') =
              apply_group_locked disk m crc32 opts capture_ops (refs verdicts) db in
            (deliver verdicts applied, db')) in
      if db.degraded then (degraded_results group, db) else validated

  unfoldable pub commit_groups :
      View
      → List (List Waiter)
      → Store disk m crc32 opts capture_ops
      → Results × Store disk m crc32 opts capture_ops
  unfolding commit_group
  commit_groups latest [] db = ([], db)
  commit_groups latest (group ∷ groups) db =
      let (results, db1) = commit_group latest group db in
      let (more, db2) = commit_groups latest groups db1 in (results ++ more, db2)
