-- ===== src/Compaction/Install/Splice.antt =====
-- crates/fluent31/src/compaction.rs: what a splice at the bottom makes of the version's levels.
use fluent.Prelude.{
  ℕ, ◌==◌, ◌≡◌, refl, ap, ◌∙◌, arith, Bool-cases, inl, inr, true, false, not, List, [], ◌∷◌, ◌++◌,
  length, All, some,
}
use fluent.Version.{TableHandle, Run}
use fluent.Compaction.Install.{
  Job, bottom_splice, run_ids, contains, at_level, retain, push_run, install_version,
}
use fluent.Compaction.Install.Agrees.{at_level_append}

consumed_kept :
    (ids : List ℕ) (base : ℕ) (fresh old : List Run)
    → All (λ r. contains (base ∷ ids) r.id ≡ false) fresh
    → All (λ r. contains (base ∷ ids) r.id ≡ true) old
    → retain (λ r. not (r.id == base)) (retain (λ r. not (contains ids r.id)) (fresh ++ old))
      ≡ fresh
unfolding retain contains
consumed_kept ids base [] [] h k = refl
consumed_kept ids base [] (r ∷ old) h (k, ks) = elim (Bool-cases (contains ids r.id)) [
  | inl input ↦ rw input (consumed_kept ids base [] old tt ks)
  | inr other ↦
      let is_base : (r.id == base) ≡ true = ground (arith, k, other) in
      rw (other, is_base) (consumed_kept ids base [] old tt ks)
]
consumed_kept ids base (r ∷ fresh) old (h, hs) k =
    let not_input : contains ids r.id ≡ false = ground (arith, h) in
    let not_base : (r.id == base) ≡ false = ground (arith, h) in
    rw (not_input, not_base) (ap (λ (x : List Run). r ∷ x) (consumed_kept ids base fresh old hs k))

-- A splice at the bottom takes the inputs and the base run away, and puts one run at the back: the kept
-- tables on the left, those of the output and the kept ones on the right. The runs that came to the level
-- since it was picked stay.
pub install_version-splice :
    (before deeper : List (List Run)) (fresh old inputs : List Run) (base id : ℕ)
    (left right : List TableHandle) (output : Run)
    → All (λ r. contains (base ∷ run_ids inputs) r.id ≡ false) fresh
    → All (λ r. contains (base ∷ run_ids inputs) r.id ≡ true) old
    → let job : Job = record {
      level = length before;
      target = length before;
      inputs = inputs;
      kind = bottom_splice base left right id;
    } in
      install_version job (some output) (before ++ ((fresh ++ old) ∷ deeper))
      ≡ before ++ (push_run id ((left ++ output.tables) ++ right) fresh ∷ deeper)
unfolding install_version
install_version-splice before deeper fresh old inputs base id left right output new gone =
    let push = push_run id ((left ++ output.tables) ++ right) in
    ap
      (λ (x : List (List Run)).
        at_level (length before) push
          (at_level (length before) (retain (λ r. not (r.id == base))) x))
      (at_level_append _ before (fresh ++ old) deeper)
    ∙ ap (at_level (length before) push) (at_level_append _ before _ deeper)
    ∙ at_level_append push before _ deeper
    ∙ ap (λ (x : List Run). before ++ (push x ∷ deeper))
        (consumed_kept (run_ids inputs) base fresh old new gone)
