-- ===== src/Write/Group/Open.antt =====
-- crates/fluent31/src/db.rs: which results of a group may still be open, by the index of the batch.
use fluent.Prelude.{
  ℕ, zero, suc, false, List, [], ◌∷◌, length, get_elem?, length-set, Option, none, some, ◌≡◌, ◌≢◌,
  ◌∙◌, ◌⊎◌, inl, inr, subst, Bool-cases, arith,
}
use fluent.Result.{Result, err, Error}
use fluent.Write.Group.{
  Results, Accepted, Placed, fail_tail, fail_batches, fill, is_unfilled, aborted,
}

-- The results number `n`, and where one is open, `P` holds of the index.
abbrev pub Open : ℕ → Results → (ℕ → Type 0) → Type 0
Open n results P = (length results ≡ n) × ((j : ℕ) → get_elem? results j ≡ some none → P j)

open-set :
    (xs : Results) (i j : ℕ) (r : Result (Unit {0}))
    → get_elem? (fill i r xs) j ≡ some none
    → (get_elem? xs j ≡ some none) × (j ≢ i)
open-set [] i j r h = cc
open-set (x ∷ xs) zero zero r h = cc
open-set (x ∷ xs) zero (suc j) r h = (h, λ e. omega arith)
open-set (x ∷ xs) (suc i) zero r h = (h, λ e. omega arith)
open-set (x ∷ xs) (suc i) (suc j) r h =
    ((open-set xs i j r h).0, λ e. (open-set xs i j r h).1 (omega arith))

pub fill-Open :
    {n : ℕ} (results : Results) (i : ℕ) (r : Result (Unit {0})) {P Q : ℕ → Type 0}
    → ((j : ℕ) → j ≢ i → P j → Q j)
    → Open n results P
    → Open n (fill i r results) Q
fill-Open results i r lift (len, open_at) = (
  length-set results i (some r) ∙ len,
  λ j h. lift j (open-set results i j r h).1 (open_at j (open-set results i j r h).0),
)

-- The indices of batches.
unfoldable pub InBatches : List Accepted → ℕ → Type 0
InBatches [] j = ⊥
InBatches (a ∷ rest) j = (j ≡ a.index) ⊎ InBatches rest j

unfoldable pub InPlaced : List Placed → ℕ → Type 0
InPlaced [] j = ⊥
InPlaced (p ∷ ps) j = (j ≡ p.index) ⊎ InPlaced ps j

pub drop_first : {i j : ℕ} {Q R : Type 0} → (Q ⊎ (j ≡ i) ⊎ R) → j ≢ i → Q ⊎ R
drop_first (inl q) ne = inl q
drop_first (inr (inl e)) ne = absurd (ne e)
drop_first (inr (inr r)) ne = inr r

is_unfilled-false :
    (o : Option (Option (Result (Unit {0})))) → is_unfilled o ≡ false → o ≢ some none
is_unfilled-false none h = cc
is_unfilled-false (some none) h = cc
is_unfilled-false (some (some r)) h = cc

pub fail_tail-Open :
    {n : ℕ} (results : Results) (tail : List Accepted) {Q : ℕ → Type 0}
    → Open n results (λ j. Q j ⊎ InBatches tail j)
    → Open n (fail_tail results tail) Q
unfolding fail_tail InBatches
fail_tail-Open results [] (len, open_at) =
    (len, λ j h. elim (open_at j h) [ inl q ↦ q | inr x ↦ elim x [ ] ])
fail_tail-Open {n} results (a ∷ tail) {Q} (len, open_at) =
    elim (Bool-cases (is_unfilled (get_elem? results a.index))) [
      | inl unfilled ↦ rw unfilled (
          fail_tail-Open (fill a.index (err aborted) results) tail
            (fill-Open results a.index (err aborted) (λ j ne o. drop_first o ne) (len, open_at)))
      | inr filled ↦ rw filled (
          fail_tail-Open results tail (
            len,
            λ j h. drop_first (open_at j h) (λ e.
                is_unfilled-false (get_elem? results a.index) filled
                  (subst (λ x. get_elem? results x ≡ some none) e h)),
          ))
    ]

pub fail_batches-Open :
    {n : ℕ} (e : Error) (ps : List Placed) (results : Results)
    → Open n results (InPlaced ps)
    → Open n (fail_batches e ps results) (λ _. ⊥)
unfolding fail_batches InPlaced
fail_batches-Open e [] results o = o
fail_batches-Open e (p ∷ ps) results o =
    fail_batches-Open aborted ps (fill p.index (err e) results)
      (fill-Open results p.index (err e) (λ j ne. elim [ inl e ↦ absurd (ne e) | inr h ↦ h ]) o)

pub to_left : {Q E R : Type 0} → (Q ⊎ E ⊎ R) → (Q ⊎ E) ⊎ R
to_left (inl q) = inl (inl q)
to_left (inr (inl e)) = inl (inr e)
to_left (inr (inr r)) = inr r

pub to_right : {Q E R : Type 0} → ((Q ⊎ E) ⊎ R) → Q ⊎ E ⊎ R
to_right (inl (inl q)) = inl q
to_right (inl (inr e)) = inr (inl e)
to_right (inr r) = inr (inr r)
