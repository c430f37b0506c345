-- ===== src/Compaction/Install/Agrees.antt =====
-- crates/fluent31/src/compaction.rs: after an installation the manifest still names the runs and tables of
-- the version, and the runs that a flush or another rewrite put in the meantime stay.
use mathlib.Core.List.{map-append}
use fluent.Prelude.{
  ℕ, zero, suc, ◌==◌, ◌≡◌, refl, sym, ap, ◌∙◌, arith, Bool-cases, inl, inr, Bool, true, false, not,
  List, [], ◌∷◌, ◌++◌, map, length, All, Option, none, some,
}
use fluent.Version.{TableHandle, Run}
use fluent.Manifest.{RunMeta, ManifestData}
use fluent.Compaction.Install.{
  Job, JobKind, tier, bottom_splice, meta_of, run_ids, contains, at_level, retain, insert_meta,
  insert_run, extended_ids, extended, push_meta, push_run, install_meta_levels, install_version,
  install_manifest, deepen_manifest, deepen_version,
}

-- The manifest's levels that name a version's.
abbrev pub names : List (List Run) → List (List RunMeta)
names levels = map (map meta_of) levels

at_level-names :
    (i : ℕ) (f : List Run → List Run) (g : List RunMeta → List RunMeta) (ls : List (List Run))
    → ((l : List Run) → g (map meta_of l) ≡ map meta_of (f l))
    → at_level i g (names ls) ≡ names (at_level i f ls)
unfolding at_level
at_level-names i f g [] h = refl
at_level-names zero f g (l ∷ ls) h = ap (λ (x : List RunMeta). x ∷ names ls) (h l)
at_level-names (suc i) f g (l ∷ ls) h =
    ap (λ (x : List (List RunMeta)). map meta_of l ∷ x) (at_level-names i f g ls h)

retain-names :
    (keep : ℕ → Bool) (l : List Run)
    → retain (λ r. keep r.id) (map meta_of l) ≡ map meta_of (retain (λ r. keep r.id) l)
unfolding retain
retain-names keep [] = refl
retain-names keep (r ∷ l) = elim (Bool-cases (keep r.id)) [
  | inl kept ↦ rw kept (ap (λ (x : List RunMeta). meta_of r ∷ x) (retain-names keep l))
  | inr gone ↦ rw gone (retain-names keep l)
]

insert-names :
    (output : Option Run) (l : List Run)
    → insert_meta output (map meta_of l) ≡ map meta_of (insert_run output l)
insert-names none l = refl
insert-names (some r) l = refl

extended-ids :
    (tables : List TableHandle) (output : Option Run)
    → extended_ids (map (λ t. t.id) tables) output ≡ map (λ t. t.id) (extended tables output)
extended-ids tables none = refl
extended-ids tables (some r) = sym (map-append (λ (t : TableHandle). t.id) tables r.tables)

spliced-ids :
    (left right : List TableHandle) (output : Option Run)
    → extended_ids (map (λ t. t.id) left) output ++ map (λ t. t.id) right
      ≡ map (λ t. t.id) (extended left output ++ right)
spliced-ids left right output =
    ap (λ (x : List ℕ). x ++ map (λ t. t.id) right) (extended-ids left output)
    ∙ sym (map-append (λ (t : TableHandle). t.id) (extended left output) right)

push-names :
    (id : ℕ) (tables : List TableHandle) (l : List Run)
    → push_meta id (map (λ t. t.id) tables) (map meta_of l) ≡ map meta_of (push_run id tables l)
push-names id [] l = refl
push-names id (t ∷ tables) l =
    sym (map-append meta_of l (record { id = id; tables = t ∷ tables } ∷ []))

without :
    (level : ℕ) (inputs : List Run) (levels : List (List Run))
    → at_level level (retain (λ r. not (contains (run_ids inputs) r.id))) (names levels)
      ≡ names (at_level level (retain (λ r. not (contains (run_ids inputs) r.id))) levels)
without level inputs levels =
    at_level-names level _ _ levels (retain-names (λ x. not (contains (run_ids inputs) x)))

install_levels-names :
    (level target : ℕ) (inputs : List Run) (kind : JobKind) (output : Option Run)
    (levels : List (List Run))
    → let job : Job = record { level = level; target = target; inputs = inputs; kind = kind } in
      install_meta_levels job output (names levels) ≡ names (install_version job output levels)
unfolding install_meta_levels install_version
install_levels-names level target inputs tier output levels =
    ap (at_level target (insert_meta output)) (without level inputs levels)
    ∙ at_level-names target _ _ _ (insert-names output)
install_levels-names level target inputs (bottom_splice base left right id) output levels =
    let ids = extended_ids (map (λ t. t.id) left) output ++ map (λ t. t.id) right in
    ap
      (λ (x : List (List RunMeta)).
        at_level level (push_meta id ids) (at_level level (retain (λ r. not (r.id == base))) x))
      (without level inputs levels)
    ∙ ap (at_level level (push_meta id ids))
        (at_level-names level _ _ _ (retain-names (λ x. not (x == base))))
    ∙ at_level-names level _ _ _ (λ l.
      ap (λ (x : List ℕ). push_meta id x (map meta_of l)) (spliced-ids left right output)
      ∙ push-names id (extended left output ++ right) l)

-- Where the manifest names the runs and tables of the version, level by level, it does so after a rewrite
-- is installed in both, whatever came of it, and after the bottom's runs are moved to a new level: the
-- edits of the manifest, which are by ids, and those of the version, which are made apart from them,
-- agree.
pub install-names :
    (job : Job) (output : Option Run) (discard : List (ℕ × ℕ)) (resolvable : List ℕ)
    (next_file_id : ℕ) (m : ManifestData) (levels : List (List Run))
    → m.levels ≡ names levels
    → ((install_manifest job output discard resolvable next_file_id m).levels
        ≡ names (install_version job output levels))
      × ((deepen_manifest job.level job.inputs next_file_id m).levels
          ≡ names (deepen_version job.level job.inputs levels))
unfolding install_manifest deepen_manifest deepen_version
install-names job output discard resolvable next_file_id m levels same = (
  ap (install_meta_levels job output) same
      ∙ install_levels-names job.level job.target job.inputs job.kind output levels,
  ap
        (λ (x : List (List RunMeta)).
          at_level job.level (retain (λ r. not (contains (run_ids job.inputs) r.id))) x
          ++ (map meta_of job.inputs ∷ []))
        same
      ∙ ap (λ (x : List (List RunMeta)). x ++ (map meta_of job.inputs ∷ []))
          (without job.level job.inputs levels)
      ∙ sym (map-append (map meta_of) _ (job.inputs ∷ [])),
)

pub at_level_append :
    {A : Type 0} (f : A → A) (before : List A) (l : A) (after : List A)
    → at_level (length before) f (before ++ (l ∷ after)) ≡ before ++ (f l ∷ after)
unfolding at_level
at_level_append f [] l after = refl
at_level_append f (b ∷ before) l after =
    ap (λ (x : List _). b ∷ x) (at_level_append f before l after)

at_level_next :
    {A : Type 0} (f : A → A) (before : List A) (k l : A) (after : List A)
    → at_level (suc (length before)) f (before ++ (k ∷ l ∷ after)) ≡ before ++ (k ∷ f l ∷ after)
unfolding at_level
at_level_next f [] k l after = refl
at_level_next f (b ∷ before) k l after =
    ap (λ (x : List _). b ∷ x) (at_level_next f before k l after)

retain_kept :
    (ids : List ℕ) (fresh inputs : List Run)
    → All (λ r. contains ids r.id ≡ false) fresh
    → All (λ r. contains ids r.id ≡ true) inputs
    → retain (λ r. not (contains ids r.id)) (fresh ++ inputs) ≡ fresh
unfolding retain
retain_kept ids [] [] h k = refl
retain_kept ids [] (r ∷ inputs) h (k, ks) = rw k (retain_kept ids [] inputs tt ks)
retain_kept ids (r ∷ fresh) inputs (h, hs) k =
    rw h (ap (λ (x : List Run). r ∷ x) (retain_kept ids fresh inputs hs k))

contains_later :
    (x : ℕ) (ids : List ℕ) (rs : List Run)
    → All (λ r. contains ids r.id ≡ true) rs
    → All (λ r. contains (x ∷ ids) r.id ≡ true) rs
unfolding contains
contains_later x ids [] h = tt
contains_later x ids (r ∷ rs) (h, hs) = (ground (arith, h), contains_later x ids rs hs)

inputs_contained : (rs : List Run) → All (λ r. contains (run_ids rs) r.id ≡ true) rs
inputs_contained [] = tt
inputs_contained (r ∷ rs) =
    (unfold contains in ground arith, contains_later r.id (run_ids rs) rs (inputs_contained rs))

-- A tiered rewrite of the runs at the back of a level takes exactly them away and puts its output at the
-- front of the next level: the runs that came to the front of the level since it was picked stay, and all
-- runs keep their order from the newest to the oldest.
pub install_version-tier :
    (before deeper : List (List Run)) (fresh inputs target : List Run) (output : Option Run)
    → All (λ r. contains (run_ids inputs) r.id ≡ false) fresh
    → let job : Job = record {
      level = length before;
      target = suc (length before);
      inputs = inputs;
      kind = tier;
    } in
      install_version job output (before ++ ((fresh ++ inputs) ∷ target ∷ deeper))
      ≡ before ++ (fresh ∷ insert_run output target ∷ deeper)
unfolding install_version
install_version-tier before deeper fresh inputs target output new =
    ap (at_level (suc (length before)) (insert_run output)) (
      at_level_append _ before (fresh ++ inputs) (target ∷ deeper)
      ∙ ap (λ (x : List Run). before ++ (x ∷ target ∷ deeper))
          (retain_kept (run_ids inputs) fresh inputs new (inputs_contained inputs)))
    ∙ at_level_next _ before fresh target deeper
