-- ===== src/Version.antt =====
-- crates/fluent31/src/version.rs: runs of tables, the levels of a version, and a read view over the
-- memtables and a version. A table is given by what the view uses of it.
pub mod Views
use fluent.Prelude.{
  ℕ, ◌+◌, Bool, true, false, if◌then◌else◌, List, [], ◌∷◌, ◌++◌, length, Option, none, some,
  get_elem?,
}
use fluent.Result.{Result, ok, err, ◌>>=◌}
use fluent.Bytes.{bytes_lt, bytes_le}
use fluent.Types.{ValueKind, max_seqno}
use fluent.Memtable.{Memtable}
use fluent.Memtable as Memtable
use fluent.Memtable.Skiplist.{SkipMap}

abbrev pub Hit : Type 0
Hit = ValueKind × ℕ × List ℕ

-- The handle of a table, and its lookups.
pub record TableHandle : Type 0 where
  pub id : ℕ
  pub size : ℕ
  pub min_ukey : List ℕ
  pub max_ukey : List ℕ
  pub get : List ℕ → ℕ → Result (Option Hit)
  pub may_contain_ukey : List ℕ → Result Bool

pub record Run : Type 0 where
  pub id : ℕ
  pub tables : List TableHandle

unfoldable pub total_size : List TableHandle → ℕ
total_size [] = 0
total_size (t ∷ ts) = t.size + total_size ts

unfoldable pub size : Run → ℕ
unfolding total_size
size r = total_size r.tables

-- `partition_point` of the tables that end before the key, on tables in order.
unfoldable pub skip_below : List ℕ → List TableHandle → List TableHandle
skip_below ukey [] = []
skip_below ukey (t ∷ ts) =
    let rest = skip_below ukey ts in if bytes_lt t.max_ukey ukey then rest else t ∷ ts

unfoldable pub fragment_for : Run → List ℕ → Option TableHandle
unfolding skip_below
fragment_for r ukey = elim (skip_below ukey r.tables) [
  | [] ↦ none
  | t ∷ _ ↦ if bytes_le t.min_ukey ukey then some t else none
]

unfoldable pub run_get : Run → List ℕ → ℕ → Result (Option Hit)
run_get r ukey seq = elim (fragment_for r ukey) [ some t ↦ t.get ukey seq | none ↦ ok none ]

unfoldable pub run_may_contain : Run → List ℕ → Result Bool
run_may_contain r ukey = elim (fragment_for r ukey) [
  | some t ↦ t.may_contain_ukey ukey
  | none ↦ ok false
]

-- The levels; the value log's files are not modelled here.
pub record Version : Type 0 where
  pub levels : List (List Run)

unfoldable pub flatten : List (List Run) → List Run
flatten [] = []
flatten (l ∷ ls) = l ++ flatten ls

unfoldable pub runs_newest_first : Version → List Run
unfolding flatten
runs_newest_first v = flatten v.levels

-- The loop of `get` over the runs, up to the first hit or error.
unfoldable pub get_in_runs : List Run → List ℕ → ℕ → Result (Option Hit)
get_in_runs [] ukey seq = ok none
get_in_runs (r ∷ rs) ukey seq =
    let rest = get_in_runs rs ukey seq in
    run_get r ukey seq >>= λ hit. elim hit [ some h ↦ ok (some h) | none ↦ rest ]

unfoldable pub version_get : Version → List ℕ → ℕ → Result (Option Hit)
unfolding get_in_runs runs_newest_first
version_get v ukey seq = get_in_runs (runs_newest_first v) ukey seq

module _ (s : SkipMap) where
  pub record ReadView : Type 0 where
    pub mem : Memtable s
    pub imms : List (Memtable s)
    pub version : Version
    pub visible : ℕ

  -- The memtables in turn, then the version.
  unfoldable pub get_in_memtables : List (Memtable s) → List ℕ → ℕ → Option Hit
  get_in_memtables [] ukey seq = none
  get_in_memtables (m ∷ ms) ukey seq =
      let rest = get_in_memtables ms ukey seq in
      elim (Memtable.get s m ukey seq) [ some h ↦ some h | none ↦ rest ]

  unfoldable pub get_versioned : ReadView → List ℕ → ℕ → Result (Option Hit)
  unfolding get_in_memtables version_get
  get_versioned v ukey seq = elim (Memtable.get s v.mem ukey seq) [
    | some h ↦ ok (some h)
    | none ↦ elim (get_in_memtables v.imms ukey seq) [
      | some h ↦ ok (some h)
      | none ↦ version_get v.version ukey seq
    ]
  ]

  unfoldable pub latest : ReadView → List ℕ → Result (Option (ℕ × ValueKind))
  unfolding get_versioned
  latest v ukey = do
    hit ← get_versioned v ukey max_seqno
    ok (elim hit [ none ↦ none | some h ↦ some (h.1, h.0) ])
