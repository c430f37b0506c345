-- ===== src/Result.antt =====
-- crates/fluent31/src/error.rs: the error values of the engine and its `Result`. The texts that some
-- variants carry are left out.
use fluent.Prelude.{ℕ, List, ◌≡◌, refl, ◌⊎◌, inl, inr}

-- `guest_failed` keeps the guest's code (an i32 as its bit pattern) and its output.
pub data Error : Type 0 where
  io corruption invalid_argument conflict closed background wasm : Error
  guest_failed : ℕ → List ℕ → Error
  provenance_mismatch gone journal_gap : Error

pub data Result {ℓ} (A : Type ℓ) : Type ℓ where
  ok : A → Result A
  err : Error → Result A

infixl 5 ◌>>=◌
abbrev pub ◌>>=◌ {ℓ κ} : {A : Type ℓ} {B : Type κ} → Result A → (A → Result B) → Result B
ok a >>= f = f a
err e >>= f = err e

-- `corrupt(msg)`
abbrev pub corrupt : Error
corrupt = corruption

pub Result-cases {ℓ} :
    {A : Type ℓ} (r : Result A) → ((a : A) × (r ≡ ok a)) ⊎ ((e : Error) × (r ≡ err e))
Result-cases (ok a) = inl (a, refl)
Result-cases (err e) = inr (e, refl)
