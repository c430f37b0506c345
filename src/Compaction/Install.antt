-- ===== src/Compaction/Install.antt =====
-- crates/fluent31/src/compaction.rs: the installation of a rewrite's output and of a deeper level, in the
-- manifest and in the version that readers see. The manifest is made durable between the two.
pub mod Agrees
pub mod Splice
use fluent.Prelude.{
  ℕ, zero, suc, ◌+◌, ◌==◌, ltb, if◌then◌else◌, Bool, true, false, ◌&&◌, ◌||◌, not, List, [], ◌∷◌,
  ◌++◌, map, Option, none, some,
}
use fluent.Version.{TableHandle, Run}
use fluent.Manifest.{RunMeta, ManifestData, is_nil}

pub data JobKind : Type 0 where
  tier : JobKind
  -- `base_id`, `keep_left`, `keep_right` and `new_run_id`
  bottom_splice : ℕ → List TableHandle → List TableHandle → ℕ → JobKind

-- `older` is with the job in flight, `Compaction.RunningJob`.
pub record Job : Type 0 where
  pub level : ℕ
  pub target : ℕ
  pub inputs : List Run
  pub kind : JobKind

abbrev pub run_ids : List Run → List ℕ
run_ids rs = map (λ r. r.id) rs

unfoldable pub contains : List ℕ → ℕ → Bool
contains [] x = false
contains (y ∷ ys) x = x == y || contains ys x

-- `levels[i]`, where the code panics on a level that is not there.
unfoldable pub at_level {ℓ} : {A : Type ℓ} → ℕ → (A → A) → List A → List A
at_level i f [] = []
at_level zero f (l ∷ ls) = f l ∷ ls
at_level (suc i) f (l ∷ ls) = l ∷ at_level i f ls

-- `retain` of the runs that satisfy the test.
unfoldable pub retain {ℓ} : {A : Type ℓ} → (A → Bool) → List A → List A
retain keep [] = []
retain keep (x ∷ xs) = let rest = retain keep xs in if keep x then x ∷ rest else rest

-- The edit of the manifest's levels, of runs by id and of their tables by id.
abbrev pub meta_of : Run → RunMeta
meta_of run = record { id = run.id; table_ids = map (λ t. t.id) run.tables }

abbrev pub insert_meta : Option Run → List RunMeta → List RunMeta
insert_meta none level = level
insert_meta (some run) level = meta_of run ∷ level

abbrev pub extended_ids : List ℕ → Option Run → List ℕ
extended_ids table_ids none = table_ids
extended_ids table_ids (some run) = table_ids ++ map (λ t. t.id) run.tables

abbrev pub push_meta : ℕ → List ℕ → List RunMeta → List RunMeta
push_meta new_run_id table_ids level =
    if is_nil table_ids
    then level
    else level ++ (record { id = new_run_id; table_ids = table_ids } ∷ [])

unfoldable pub install_meta_levels : Job → Option Run → List (List RunMeta) → List (List RunMeta)
unfolding contains at_level retain
install_meta_levels job output levels =
    let input_ids = run_ids job.inputs in
    let left = at_level job.level (retain (λ r. not (contains input_ids r.id))) levels in
    elim job.kind [
      | tier ↦ at_level job.target (insert_meta output) left
      | bottom_splice base_id keep_left keep_right new_run_id ↦
          let consumed = at_level job.level (retain (λ r. not (r.id == base_id))) left in
          let table_ids =
            extended_ids (map (λ t. t.id) keep_left) output ++ map (λ t. t.id) keep_right in
          at_level job.level (push_meta new_run_id table_ids) consumed
    ]

-- The edit of the version's levels, of runs with their tables.
abbrev pub insert_run : Option Run → List Run → List Run
insert_run none level = level
insert_run (some run) level = run ∷ level

abbrev pub extended : List TableHandle → Option Run → List TableHandle
extended tables none = tables
extended tables (some run) = tables ++ run.tables

abbrev pub push_run : ℕ → List TableHandle → List Run → List Run
push_run new_run_id tables level =
    if is_nil tables then level else level ++ (record { id = new_run_id; tables = tables } ∷ [])

unfoldable pub install_version : Job → Option Run → List (List Run) → List (List Run)
unfolding contains at_level retain
install_version job output levels =
    let input_ids = run_ids job.inputs in
    let left = at_level job.level (retain (λ r. not (contains input_ids r.id))) levels in
    elim job.kind [
      | tier ↦ at_level job.target (insert_run output) left
      | bottom_splice base_id keep_left keep_right new_run_id ↦
          let consumed = at_level job.level (retain (λ r. not (r.id == base_id))) left in
          let tables = extended keep_left output ++ keep_right in
          at_level job.level (push_run new_run_id tables) consumed
    ]

-- `install_deepen`, on the manifest and on the version.
unfoldable pub deepen_manifest : ℕ → List Run → ℕ → ManifestData → ManifestData
unfolding contains at_level retain
deepen_manifest level inputs next_file_id old =
    let input_ids = run_ids inputs in
    let left = at_level level (retain (λ r. not (contains input_ids r.id))) old.levels in
    record old { levels = left ++ (map meta_of inputs ∷ []); next_file_id = next_file_id }

unfoldable pub deepen_version : ℕ → List Run → List (List Run) → List (List Run)
unfolding contains at_level retain
deepen_version level inputs levels =
    let input_ids = run_ids inputs in
    at_level level (retain (λ r. not (contains input_ids r.id))) levels ++ (inputs ∷ [])

-- `*map.entry(file).or_insert(0) += bytes` on a `BTreeMap`.
unfoldable pub add_entry : ℕ → ℕ → List (ℕ × ℕ) → List (ℕ × ℕ)
add_entry file b [] = (file, b) ∷ []
add_entry file b ((f, c) ∷ m) =
    let later = add_entry file b m in
    if ltb file f
    then (file, b) ∷ (f, c) ∷ m
    else if file == f
    then (f, c + b) ∷ m
    else (f, c) ∷ later

unfoldable pub is_retired : List (ℕ × ℕ) → ℕ → Bool
is_retired [] f = false
is_retired ((id, seq) ∷ retired) f = id == f || is_retired retired f

-- Only files that still resolve and are not retired accumulate.
unfoldable pub add_discards : List ℕ → List (ℕ × ℕ) → List (ℕ × ℕ) → List (ℕ × ℕ) → List (ℕ × ℕ)
unfolding add_entry is_retired contains
add_discards resolvable retired [] m = m
add_discards resolvable retired ((f, b) ∷ discard) m =
    add_discards resolvable retired discard
      (if contains resolvable f && not (is_retired retired f) then add_entry f b m else m)

unfoldable pub install_manifest :
    Job → Option Run → List (ℕ × ℕ) → List ℕ → ℕ → ManifestData → ManifestData
unfolding install_meta_levels add_discards
install_manifest job output discard resolvable next_file_id old = record old {
  levels = install_meta_levels job output old.levels;
  discard = add_discards resolvable old.vlog_retired discard old.discard;
  next_file_id = next_file_id;
}
