-- ===== src/Committer/Chunks.antt =====
-- crates/fluent31/src/db.rs: how `commit_thread` cuts what it drained into groups.
use fluent.Prelude.{
  ℕ, zero, suc, ◌+◌, ◌≤◌, ltb, List, [], ◌∷◌, ◌++◌, length, length-append, All, ◌≡◌, refl, ap, ◌∙◌,
  ◌⊎◌, inl, inr, Bool-cases, ltb-false, arith,
}
use fluent.Committer.{Waiter, group_byte_cap, grow_group, chunk_loop}

abbrev pub total_bytes : List Waiter → ℕ
total_bytes [] = 0
total_bytes (w ∷ ws) = w.bytes + total_bytes ws

abbrev pub concat_groups : List (List Waiter) → List Waiter
concat_groups [] = []
concat_groups (g ∷ gs) = g ++ concat_groups gs

-- A waiter by itself, or waiters whose bytes fit under the cap that the first one sets.
abbrev pub IsBounded : List Waiter → Type 0
IsBounded [] = ⊥
IsBounded (w ∷ ws) = (ws ≡ []) ⊎ (w.bytes + total_bytes ws ≤ group_byte_cap w.bytes)

grow_group_lem :
    (cap total : ℕ) (ws : List Waiter)
    → ((grow_group cap total ws).0 ++ (grow_group cap total ws).1 ≡ ws)
      × (((grow_group cap total ws).0 ≡ [])
          ⊎ (total + total_bytes (grow_group cap total ws).0 ≤ cap))
unfolding grow_group
grow_group_lem cap total [] = (refl, inl refl)
grow_group_lem cap total (w ∷ ws) = elim (Bool-cases (ltb cap (total + w.bytes))) [
  | inl over ↦ rw over (refl, inl refl)
  | inr under ↦
      let (same, bound) = grow_group_lem cap (total + w.bytes) ws in
      rw under (
        ap (λ (l : List Waiter). w ∷ l) same,
        inr (elim bound [
          | inl alone ↦ omega (arith, ltb-false _ _ under, ap total_bytes alone)
          | inr fits ↦ omega arith
        ]),
      )
]

-- The groups that a drained queue is cut into, with as many rounds as it has waiters, are the
-- queue again, one behind the other, and each is one waiter by itself or waiters whose bytes
-- fit under the cap that the first one sets.
pub chunk_loop-IsBounded :
    (fuel : ℕ) (ws : List Waiter)
    → length ws ≤ fuel
    → (concat_groups (chunk_loop fuel ws) ≡ ws) × All IsBounded (chunk_loop fuel ws)
unfolding chunk_loop
chunk_loop-IsBounded zero [] h = (refl, tt)
chunk_loop-IsBounded zero (w ∷ ws) h = absurd (omega arith)
chunk_loop-IsBounded (suc fuel) [] h = (refl, tt)
chunk_loop-IsBounded (suc fuel) (w ∷ ws) h =
    let grown = grow_group (group_byte_cap w.bytes) w.bytes ws in
    let (same, bound) = grow_group_lem (group_byte_cap w.bytes) w.bytes ws in
    let (later, bounded) =
      chunk_loop-IsBounded fuel grown.1
        (omega (arith, ap {B = ℕ} length same, length-append grown.0 grown.1)) in
    (
      ap (λ (l : List Waiter). w ∷ l) (ap (λ (l : List Waiter). grown.0 ++ l) later ∙ same),
      (bound, bounded),
    )
