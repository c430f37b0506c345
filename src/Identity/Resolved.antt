-- ===== src/Identity/Resolved.antt =====
-- crates/fluent31/src/db.rs: `resolve_identity` settles the identity once.
use fluent.Prelude.{ℕ, ◌≡◌, refl, subst, Bool-cases, inl, inr, true, List, Option, none, some}
use fluent.Result.{ok, Result-cases}
use fluent.Bytes.{bytes_eq}
use fluent.Bytes.Order.{bytes_eq_iff}
use fluent.Identity.{
  Sections, resolve_identity, match_identity, mint, root_identity, validate_store_name,
}

ok_injective {ℓ} : {A : Type ℓ} {x y : A} → ok x ≡ ok y → x ≡ y
ok_injective e = cc

module _ (sha256 : List ℕ → List ℕ) where
  abbrev Settled : Option (List ℕ) → Sections sha256 → Type 0
  Settled requested s =
      (s.1 ≡ none)
      × (resolve_identity sha256 s requested ≡ ok s)
      × (resolve_identity sha256 s none ≡ ok s)

  settled :
      (requested : Option (List ℕ)) (s after : Sections sha256)
      → ok s ≡ ok after
      → Settled requested s
      → Settled requested after
  settled requested s after e h = subst (Settled requested) (ok_injective e) h

  -- An open that succeeds leaves no fork pending, and a later open with the same request, or with none,
  -- changes nothing.
  pub resolve_identity_twice :
      (before after : Sections sha256) (requested : Option (List ℕ))
      → resolve_identity sha256 before requested ≡ ok after
      → (after.1 ≡ none)
        × (resolve_identity sha256 after requested ≡ ok after)
        × (resolve_identity sha256 after none ≡ ok after)
  unfolding resolve_identity match_identity mint root_identity
  resolve_identity_twice (identity, some pf) after none h =
      settled none _ after h (refl, refl, refl)
  resolve_identity_twice (some id, none) after none h = settled none _ after h (refl, refl, refl)
  resolve_identity_twice (none, none) after none h = settled none _ after h (refl, refl, refl)
  resolve_identity_twice (identity, some pf) after (some req) h =
      elim (Result-cases (validate_store_name req)) [
        | inr (e, bad) ↦ absurd (cc)
        | inl (u, good) ↦ elim (Bool-cases (bytes_eq req pf.name)) [
          | inl same ↦
              settled (some req) (some (mint sha256 pf), none) after (rw (good, same) at h)
                (refl, rw (good, same) refl, refl)
          | inr other ↦ absurd (cc)
        ]
      ]
  resolve_identity_twice (some id, none) after (some req) h =
      elim (Result-cases (validate_store_name req)) [
        | inr (e, bad) ↦ absurd (cc)
        | inl (u, good) ↦ elim (Bool-cases (bytes_eq req id.name)) [
          | inl same ↦
              settled (some req) (some id, none) after (rw (good, same) at h)
                (refl, rw (good, same) refl, refl)
          | inr other ↦ absurd (cc)
        ]
      ]
  resolve_identity_twice (none, none) after (some req) h =
      elim (Result-cases (validate_store_name req)) [
        | inr (e, bad) ↦ absurd (cc)
        | inl (u, good) ↦
            let same : bytes_eq req req ≡ true = (bytes_eq_iff req req).1 refl in
            settled (some req) (some (root_identity sha256 req), none) after (rw good at h)
              (refl, rw (good, same) refl, refl)
      ]
