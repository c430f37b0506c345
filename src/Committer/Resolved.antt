-- ===== src/Committer/Resolved.antt =====
-- crates/fluent31/src/db.rs: every waiter of a group is resolved, which `commit_thread` relies on.
use fluent.Prelude.{
  ℕ, zero, suc, Bool, true, false, if◌then◌else◌, List, [], ◌∷◌, ◌++◌, length, get_elem?, map,
  Option, none, some, ◌≡◌, ◌≢◌, refl, ap, sym, subst, arith,
}
use fluent.Result.{Result, ok, err, background}
use fluent.Types.{ValueKind}
use fluent.Batch.{BatchOp}
use fluent.Memtable.Skiplist.{SkipMap}
use fluent.Write.{Disk, Options, is_nil}
use fluent.Write.Group.{Results, Store, apply_group_locked}
use fluent.Write.Group.Filled.{apply_group_locked-filled}
use fluent.Committer.{
  Waiter, Verdict, refused, nothing_to_do, included, validate_group, op_key, refs, deliver,
  degraded_results, commit_group, View,
}

pub length-validate_group :
    (latest : List ℕ → Result (Option (ℕ × ValueKind))) (written : List (List ℕ)) (ws : List Waiter)
    → length (validate_group latest written ws) ≡ length ws
unfolding validate_group
length-validate_group latest written [] = refl
length-validate_group latest written (w ∷ ws) = ground (
  arith,
  length-validate_group latest written ws,
  length-validate_group latest (written ++ map op_key w.ops) ws,
)

-- As many results as waiters, and none of them open.
abbrev pub AreResolved : Results → ℕ → Type 0
AreResolved results n = (length results ≡ n) × ((j : ℕ) → get_elem? results j ≢ some none)

cons-AreResolved :
    (r : Option (Result (Unit {0}))) (results : Results) (n : ℕ)
    → r ≢ none
    → AreResolved results n
    → AreResolved (r ∷ results) (suc n)
cons-AreResolved r results n known (len, closed) = (ap suc len, at)
  where
    at : (j : ℕ) → get_elem? (r ∷ results) j ≢ some none
    at zero e = known (cc e)
    at (suc j) e = closed j e

deliver-AreResolved :
    (vs : List Verdict) (applied : Results)
    → AreResolved applied (length (refs vs))
    → AreResolved (deliver vs applied) (length vs)
unfolding deliver refs
deliver-AreResolved [] applied h = (refl, λ j. cc)
deliver-AreResolved (refused e ∷ vs) applied h =
    cons-AreResolved (some (err e)) (deliver vs applied) (length vs) (cc)
      (deliver-AreResolved vs applied h)
deliver-AreResolved (nothing_to_do ∷ vs) applied h =
    cons-AreResolved (some (ok tt)) (deliver vs applied) (length vs) (cc)
      (deliver-AreResolved vs applied h)
deliver-AreResolved (included ops capture ∷ vs) [] (len, closed) = absurd (omega arith)
deliver-AreResolved (included ops capture ∷ vs) (r ∷ applied) (len, closed) =
    cons-AreResolved r (deliver vs applied) (length vs) (λ e. closed 0 (ap some e))
      (deliver-AreResolved vs applied (omega arith, λ j. closed (suc j)))

degraded-AreResolved : (ws : List Waiter) → AreResolved (degraded_results ws) (length ws)
unfolding degraded_results
degraded-AreResolved [] = (refl, λ j. cc)
degraded-AreResolved (w ∷ ws) =
    cons-AreResolved (some (err background)) (degraded_results ws) (length ws) (cc)
      (degraded-AreResolved ws)

-- A fact that holds in both branches.
if-both {ℓ κ} :
    {A : Type ℓ} (P : A → Type κ) (b : Bool) (x y : A)
    → (b ≡ true → P x)
    → (b ≡ false → P y)
    → P (if b then x else y)
if-both P true x y p q = p refl
if-both P false x y p q = q refl

is_nil-nil {ℓ} : {A : Type ℓ} (xs : List A) → is_nil xs ≡ true → xs ≡ []
is_nil-nil [] h = refl
is_nil-nil (x ∷ xs) h = cc

module _ (disk : Disk) (m : SkipMap) (crc32 : List ℕ → ℕ) (opts : Options)
    (capture_ops : List BatchOp → ℕ → List BatchOp) where
  -- Whatever the disk and the lookups answer, and on a degraded store too, a group has a result
  -- for each of its waiters, refused ones, those with nothing to apply and those whose batches
  -- were applied.
  pub commit_group-AreResolved :
      (latest : View disk m crc32 opts capture_ops) (group : List Waiter)
      (db : Store disk m crc32 opts capture_ops)
      → AreResolved (commit_group disk m crc32 opts capture_ops latest group db).0 (length group)
  unfolding commit_group
  commit_group-AreResolved latest group db =
      let verdicts = validate_group (latest db) [] group in
      let same = length-validate_group (latest db) [] group in
      let resolved : (applied : Results)
          → AreResolved applied (length (refs verdicts))
          → AreResolved (deliver verdicts applied) (length group) =
        λ applied h.
          subst (AreResolved (deliver verdicts applied)) same
            (deliver-AreResolved verdicts applied h) in
      if-both
        (λ (r : Results × Store disk m crc32 opts capture_ops). AreResolved r.0 (length group))
        db.degraded (degraded_results group, db) _ (λ _. degraded-AreResolved group)
        (λ _.
          if-both
            (λ (r : Results × Store disk m crc32 opts capture_ops). AreResolved r.0 (length group))
            (is_nil (refs verdicts)) (deliver verdicts [], db) _
            (λ none_left.
              resolved [] (ap length (sym (is_nil-nil (refs verdicts) none_left)), λ j. cc))
            (λ _.
              resolved (apply_group_locked disk m crc32 opts capture_ops (refs verdicts) db).0
                (apply_group_locked-filled disk m crc32 opts capture_ops (refs verdicts) db)))
