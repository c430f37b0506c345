-- ===== src/Committer/Validated.antt =====
-- crates/fluent31/src/db.rs: what the validation in `commit_thread` guarantees within a group.
use mathlib.Core.List.{append_assoc, append-nil}
use fluent.Prelude.{
  ℕ, zero, suc, ◌≤◌, ltb, ◌⊎◌, ◌≢◌, ◌↔◌, Bool, true, false, if◌then◌else◌, List, [], ◌∷◌, ◌++◌,
  length, get_elem?, map, Option, none, some, All, ◌≡◌, refl, ap, sym, ◌∙◌, inl, inr, Bool-cases,
  arith,
}
use fluent.Result.{Result, Result-cases, ok}
use fluent.Bytes.{bytes_eq}
use fluent.Bytes.Order.{bytes_eq_iff}
use fluent.Types.{ValueKind}
use fluent.Batch.{BatchOp}
use fluent.Committer.Resolved.{length-validate_group}
use fluent.Committer.{
  Waiter, Verdict, refused, nothing_to_do, included, validate_group, has_conflict, conflict_of,
  written_has, newer, op_key,
}

abbrev pub passed : Verdict → Bool
passed (refused e) = false
passed nothing_to_do = true
passed (included ops capture) = true

abbrev pub key_of : BatchOp → List ℕ
key_of (BatchOp.delete key) = key
key_of (BatchOp.put key value) = key

key_of_lem : (ops : List BatchOp) → map op_key ops ≡ map key_of ops
key_of_lem [] = refl
key_of_lem (BatchOp.put key value ∷ ops) = ap (λ (l : List (List ℕ)). key ∷ l) (key_of_lem ops)
key_of_lem (BatchOp.delete key ∷ ops) = ap (λ (l : List (List ℕ)). key ∷ l) (key_of_lem ops)

-- The keys that those of some waiters write who passed.
pub written_by : List Waiter → List Verdict → List (List ℕ)
written_by [] vs = []
written_by (w ∷ ws) [] = []
written_by (w ∷ ws) (v ∷ vs) =
    let rest = written_by ws vs in if passed v then map key_of w.ops ++ rest else rest

abbrev pub validated_keys : Option (ℕ × List (List ℕ)) → List (List ℕ)
validated_keys none = []
validated_keys (some (snap, keys)) = keys

abbrev pub snapshot_of : Option (ℕ × List (List ℕ)) → ℕ
snapshot_of none = 0
snapshot_of (some (snap, keys)) = snap

get_elem?-append {ℓ} :
    {A : Type ℓ} (xs ys : List A) (n : ℕ) → length xs ≡ n → get_elem? (xs ++ ys) n ≡ get_elem? ys 0
get_elem?-append [] ys zero h = refl
get_elem?-append [] ys (suc n) h = absurd (omega arith)
get_elem?-append (x ∷ xs) ys zero h = absurd (omega arith)
get_elem?-append (x ∷ xs) ys (suc n) h = get_elem?-append xs ys n (omega arith)

module _ (latest : List ℕ → Result (Option (ℕ × ValueKind))) where
  -- No write of the group was to the key, and the key has no version or one that is visible at the
  -- snapshot.
  abbrev pub Untouched : List (List ℕ) → ℕ → List ℕ → Type 0
  Untouched written snap key =
      All (λ k. k ≢ key) written
      × ((latest key ≡ ok none)
          ⊎ ((seq : ℕ) × (kind : ValueKind) × (latest key ≡ ok (some (seq, kind))) × (seq ≤ snap)))

  unwritten :
      (written : List (List ℕ)) (key : List ℕ)
      → written_has written key ≡ false
      → All (λ k. k ≢ key) written
  unfolding written_has
  unwritten [] key h = tt
  unwritten (k ∷ written) key h = (
    λ same. absurd (ground (arith, h, (bytes_eq_iff k key).1 same)),
    unwritten written key (ground (arith, h)),
  )

  visible :
      (snap : ℕ) (key : List ℕ) (v : Option (ℕ × ValueKind))
      → latest key ≡ ok v
      → newer latest snap v ≡ false
      → (latest key ≡ ok none)
        ⊎ ((seq : ℕ) × (kind : ValueKind) × (latest key ≡ ok (some (seq, kind))) × (seq ≤ snap))
  visible snap key none found old = inl found
  visible snap key (some (seq, kind)) found old = inr (seq, kind, found, ground (arith, old))

  has_conflict-Untouched :
      (snap : ℕ) (written keys : List (List ℕ))
      → has_conflict latest snap written keys ≡ ok false
      → All (Untouched written snap) keys
  unfolding has_conflict
  has_conflict-Untouched snap written [] h = tt
  has_conflict-Untouched snap written (key ∷ keys) h = elim (Bool-cases (written_has written key)) [
    | inl hit ↦ absurd (ground (arith, h, hit))
    | inr fresh ↦ elim (Result-cases (latest key)) [
      | inr (e, bad) ↦ absurd (ground (arith, h, fresh, bad))
      | inl (v, found) ↦ elim (Bool-cases (newer latest snap v)) [
        | inl late ↦ absurd (ground (arith, h, fresh, found, late))
        | inr current ↦ (
          (unwritten written key fresh, visible snap key v found current),
          has_conflict-Untouched snap written keys (ground (arith, h, fresh, found, current)),
        )
      ]
    ]
  ]

  written_lem :
      (written : List (List ℕ)) (key : List ℕ)
      → All (λ k. k ≢ key) written
      → written_has written key ≡ false
  unfolding written_has
  written_lem [] key h = refl
  written_lem (k ∷ written) key (h, hs) = elim (Bool-cases (bytes_eq k key)) [
    | inl same ↦ absurd (h ((bytes_eq_iff k key).0 same))
    | inr other ↦ rw (other, written_lem written key hs) refl
  ]

  Untouched-has_conflict :
      (snap : ℕ) (written keys : List (List ℕ))
      → All (Untouched written snap) keys
      → has_conflict latest snap written keys ≡ ok false
  unfolding has_conflict
  Untouched-has_conflict snap written [] h = refl
  Untouched-has_conflict snap written (key ∷ keys) ((fresh, inl found), hs) =
      rw (written_lem written key fresh, found) (Untouched-has_conflict snap written keys hs)
  Untouched-has_conflict snap written (key ∷ keys) ((fresh, inr (seq, kind, found, old)), hs) =
      let not_newer : ltb snap seq ≡ false = ground (arith, old) in
      rw (written_lem written key fresh, found, not_newer)
        (Untouched-has_conflict snap written keys hs)

  Untouched-conflict_of :
      (validate : Option (ℕ × List (List ℕ))) (written : List (List ℕ))
      → All (Untouched written (snapshot_of validate)) (validated_keys validate)
      → conflict_of latest validate written ≡ ok false
  Untouched-conflict_of none written h = refl
  Untouched-conflict_of (some (snap, keys)) written h = Untouched-has_conflict snap written keys h

  conflict_of-Untouched :
      (validate : Option (ℕ × List (List ℕ))) (written : List (List ℕ))
      → conflict_of latest validate written ≡ ok false
      → All (Untouched written (snapshot_of validate)) (validated_keys validate)
  conflict_of-Untouched none written h = tt
  conflict_of-Untouched (some (snap, keys)) written h = has_conflict-Untouched snap written keys h

  -- The verdict on a waiter, after those before it.
  head_passed :
      (written : List (List ℕ)) (w : Waiter) (ws : List Waiter) (v : Verdict)
      → get_elem? (validate_group latest written (w ∷ ws)) 0 ≡ some v
      → passed v ≡ true
      → conflict_of latest w.validate written ≡ ok false
  unfolding validate_group
  head_passed written w ws v h p = ground (arith, h, p)

  head_passes :
      (written : List (List ℕ)) (w : Waiter) (ws : List Waiter) (v : Verdict)
      → get_elem? (validate_group latest written (w ∷ ws)) 0 ≡ some v
      → conflict_of latest w.validate written ≡ ok false
      → passed v ≡ true
  unfolding validate_group
  head_passes written w ws v h p = ground (arith, h, p)

  validate_group-append :
      (written : List (List ℕ)) (before rest : List Waiter)
      → validate_group latest written (before ++ rest)
        ≡ validate_group latest written before
          ++ validate_group latest
              (written ++ written_by before (validate_group latest written before))
              rest
  unfolding validate_group written_by
  validate_group-append written [] rest =
      ap (λ (l : List (List ℕ)). validate_group latest l rest) (sym (append-nil written))
  validate_group-append written (w ∷ before) rest = ground (
    arith,
    key_of_lem w.ops,
    validate_group-append written before rest,
    validate_group-append (written ++ map key_of w.ops) before rest,
    append_assoc written (map key_of w.ops)
        (written_by before (validate_group latest (written ++ map key_of w.ops) before)),
  )

  -- The validation passes a waiter of a group exactly where no batch before it in the group that
  -- passed writes a key that the waiter validates, by a put or a delete, and each such key has no
  -- version in the view, or a newest one whose number is at most the waiter's snapshot.
  pub validate_group-Untouched :
      (before : List Waiter) (w : Waiter) (after : List Waiter) (v : Verdict)
      → get_elem? (validate_group latest [] (before ++ w ∷ after)) (length before) ≡ some v
      → (passed v ≡ true)
        ↔ All
            (Untouched
              (written_by before (validate_group latest [] before))
              (snapshot_of w.validate))
            (validated_keys w.validate)
  validate_group-Untouched before w after v at =
      let written = written_by before (validate_group latest [] before) in
      let first = validate_group latest [] before in
      let verdict : get_elem? (validate_group latest written (w ∷ after)) 0 ≡ some v =
        sym (
          ap (λ (l : List Verdict). get_elem? l (length before))
            (validate_group-append [] before (w ∷ after))
          ∙ get_elem?-append first (validate_group latest written (w ∷ after)) (length before)
              (length-validate_group latest [] before))
        ∙ at in
      (
        λ p. conflict_of-Untouched w.validate written (head_passed written w after v verdict p),
        λ h. head_passes written w after v verdict (Untouched-conflict_of w.validate written h),
      )
