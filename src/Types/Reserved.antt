-- ===== src/Types/Reserved.antt =====
-- crates/fluent31/src/types.rs: the engine's records lie outside the user keyspace, and the trigger
-- queue's keys are unambiguous.
use fluent.Prelude.{ℕ, ◌≡◌, ◌≢◌, ◌↔◌, refl, sym, arith, List, [], ◌∷◌, ◌++◌, All, Ordering}
use fluent.Result.{ok, err, invalid_argument}
use fluent.Bytes.{cmp_bytes}
use fluent.Types.{
  validate_user_key, sys_wasm_key, sys_trigger_key, sys_trigger_event_key, sys_trigger_change_key,
  user_keyspace_start,
}

-- Validation accepts exactly the keys at or above the start of the user keyspace.
pub validate_user_key_iff :
    (key : List ℕ)
    → (validate_user_key key ≡ ok tt) ↔ (cmp_bytes key user_keyspace_start ≢ Ordering.lt)
unfolding validate_user_key cmp_bytes
validate_user_key_iff [] = (λ h. cc, λ h. absurd (h refl))
validate_user_key_iff (b ∷ []) = ground arith
validate_user_key_iff (b ∷ c ∷ key) = ground arith

-- No key of a module, a trigger or a queued event passes for a user key.
pub reserved_refused :
    (name key : List ℕ) (seqno : ℕ)
    → (validate_user_key (sys_wasm_key name) ≡ err invalid_argument)
      × (validate_user_key (sys_trigger_key name) ≡ err invalid_argument)
      × (validate_user_key (sys_trigger_event_key name key) ≡ err invalid_argument)
      × (validate_user_key (sys_trigger_change_key name seqno) ≡ err invalid_argument)
unfolding validate_user_key sys_wasm_key sys_trigger_key sys_trigger_event_key
    sys_trigger_change_key
reserved_refused name key seqno = (refl, refl, refl, refl)

abbrev pub NoNul : List ℕ → Type 0
NoNul = All (λ b. b ≢ 0)

-- The first nul byte ends the name.
split_at_nul :
    (xs ys us vs : List ℕ)
    → NoNul xs
    → NoNul ys
    → xs ++ (0 ∷ us) ≡ ys ++ (0 ∷ vs)
    → (xs ≡ ys) × (us ≡ vs)
split_at_nul [] [] us vs hx hy e = (refl, cc)
split_at_nul [] (y ∷ ys) us vs hx hy e = absurd (hy.0 (sym (cons_head e)))
  where
    cons_head : {a b : ℕ} {s t : List ℕ} → a ∷ s ≡ b ∷ t → a ≡ b
    cons_head p = cc
split_at_nul (x ∷ xs) [] us vs hx hy e = absurd (hx.0 (cons_head e))
  where
    cons_head : {a b : ℕ} {s t : List ℕ} → a ∷ s ≡ b ∷ t → a ≡ b
    cons_head p = cc
split_at_nul (x ∷ xs) (y ∷ ys) us vs (hx, hxs) (hy, hys) e =
    let (p, q) = split_at_nul xs ys us vs hxs hys (cc) in (cc, q)

-- Names have no nul byte, so a queue key determines the trigger and the user key.
pub sys_trigger_event_key-injective :
    (name name' key key' : List ℕ)
    → NoNul name
    → NoNul name'
    → sys_trigger_event_key name key ≡ sys_trigger_event_key name' key'
    → (name ≡ name') × (key ≡ key')
unfolding sys_trigger_event_key
sys_trigger_event_key-injective name name' key key' h h' e =
    split_at_nul name name' key key' h h' (cc)
