-- ===== src/Version/Views.antt =====
-- crates/fluent31/src/version.rs: a run looks into the one table that can hold a key.
use fluent.Prelude.{
  ℕ, ◌≡◌, ◌⊎◌, refl, ap, ◌∙◌, arith, Bool, true, false, if◌then◌else◌, Bool-cases, inl, inr, List,
  [], ◌∷◌, ◌++◌, Option, none, some, Ordering, All,
}
use fluent.Result.{ok}
use fluent.Bytes.{cmp_bytes, bytes_lt, bytes_le}
use fluent.Bytes.Order.{cmp_bytes-eq, cmp_bytes-flip, cmp_bytes_trans}
use fluent.Version.{TableHandle, Run, skip_below, fragment_for, run_get, run_may_contain}

-- The tables ascend and do not overlap.
abbrev pub InOrder : List TableHandle → Type 0
InOrder [] = Unit
InOrder (t ∷ ts) = All (λ x. cmp_bytes t.max_ukey x.min_ukey ≡ Ordering.lt) ts × InOrder ts

abbrev pub covers : TableHandle → List ℕ → Bool
covers t ukey = if bytes_le t.min_ukey ukey then bytes_le ukey t.max_ukey else false

skip_below-finds :
    (ukey : List ℕ) (before : List TableHandle) (t : TableHandle) (after : List TableHandle)
    → InOrder (before ++ (t ∷ after))
    → covers t ukey ≡ true
    → skip_below ukey (before ++ (t ∷ after)) ≡ t ∷ after
unfolding skip_below
skip_below-finds ukey [] t after h k = ground (arith, k, cmp_bytes-flip ukey t.max_ukey)
skip_below-finds ukey (b ∷ before) t after (least, h) k =
    rw (ends_before (middle before least)) (skip_below-finds ukey before t after h k)
  where
    middle :
        (before : List TableHandle)
        → All (λ x. cmp_bytes b.max_ukey x.min_ukey ≡ Ordering.lt) (before ++ (t ∷ after))
        → cmp_bytes b.max_ukey t.min_ukey ≡ Ordering.lt
    middle [] l = l.0
    middle (_ ∷ before) l = middle before l.1

    ends_before : cmp_bytes b.max_ukey t.min_ukey ≡ Ordering.lt → bytes_lt b.max_ukey ukey ≡ true
    ends_before l =
        ground
          (arith, l, k, cmp_bytes_trans b.max_ukey t.min_ukey ukey, cmp_bytes-eq t.min_ukey ukey)

skips_or_above :
    (ukey : List ℕ) (ts : List TableHandle)
    → All (λ t. covers t ukey ≡ false) ts
    → (skip_below ukey ts ≡ [])
      ⊎ ((t : TableHandle) × (rest : List TableHandle) × (skip_below ukey ts ≡ t ∷ rest)
          × (bytes_le t.min_ukey ukey ≡ false))
unfolding skip_below
skips_or_above ukey [] h = inl refl
skips_or_above ukey (t ∷ ts) (h, hs) = elim (Bool-cases (bytes_lt t.max_ukey ukey)) [
  | inl below ↦ rw below (skips_or_above ukey ts hs)
  | inr reached ↦
      inr (t, ts, rw reached refl, ground (arith, h, reached, cmp_bytes-flip ukey t.max_ukey))
]

abbrev fragment : List ℕ → List TableHandle → Option TableHandle
fragment ukey [] = none
fragment ukey (t ∷ _) = if bytes_le t.min_ukey ukey then some t else none

fragment_for_lem :
    (id : ℕ) (ukey : List ℕ) (ts left : List TableHandle)
    → skip_below ukey ts ≡ left
    → fragment_for (record { id = id; tables = ts }) ukey ≡ fragment ukey left
unfolding fragment_for
fragment_for_lem id ukey ts left e = ap (fragment ukey) e

nothing_covers :
    (id : ℕ) (ukey : List ℕ) (ts : List TableHandle)
    → All (λ t. covers t ukey ≡ false) ts
    → fragment_for (record { id = id; tables = ts }) ukey ≡ none
nothing_covers id ukey ts h = elim (skips_or_above ukey ts h) [
  | inl e ↦ fragment_for_lem id ukey ts [] e
  | inr (t, rest, e, above) ↦ fragment_for_lem id ukey ts (t ∷ rest) e ∙ rw above refl
]

-- A lookup in a run of tables in order goes to the table that covers the key, wherever it stands; where no
-- table does, the key is not there, and the run does not claim that it may be.
pub run_get-covers :
    (id : ℕ) (before : List TableHandle) (t : TableHandle) (after : List TableHandle)
    (ukey : List ℕ) (seq : ℕ)
    → InOrder (before ++ (t ∷ after))
    → let run : Run = record { id = id; tables = before ++ (t ∷ after) } in
      (covers t ukey ≡ true
        → (run_get run ukey seq ≡ t.get ukey seq)
          × (run_may_contain run ukey ≡ t.may_contain_ukey ukey))
      × (All (λ x. covers x ukey ≡ false) (before ++ (t ∷ after))
          → (run_get run ukey seq ≡ ok none) × (run_may_contain run ukey ≡ ok false))
run_get-covers id before t after ukey seq h = (
  λ c. (gets (some t) (found c), may_contain (some t) (found c)),
  λ no.
      let none_found = nothing_covers id ukey (before ++ (t ∷ after)) no in
      (gets none none_found, may_contain none none_found),
)
  where
    run : Run
    run = record { id = id; tables = before ++ (t ∷ after) }

    gets :
        (o : Option TableHandle)
        → fragment_for run ukey ≡ o
        → run_get run ukey seq ≡ elim o [ some t ↦ t.get ukey seq | none ↦ ok none ]
    gets o e =
        unfold run_get in
        ap (λ (o : Option TableHandle). elim o [ some t ↦ t.get ukey seq | none ↦ ok none ]) e

    may_contain :
        (o : Option TableHandle)
        → fragment_for run ukey ≡ o
        → run_may_contain run ukey ≡ elim o [ some t ↦ t.may_contain_ukey ukey | none ↦ ok false ]
    may_contain o e =
        unfold run_may_contain in
        ap
          (λ (o : Option TableHandle). elim o [
            | some t ↦ t.may_contain_ukey ukey
            | none ↦ ok false
          ])
          e

    found : covers t ukey ≡ true → fragment_for run ukey ≡ some t
    found c =
        let starts : bytes_le t.min_ukey ukey ≡ true = ground (arith, c) in
        fragment_for_lem id ukey (before ++ (t ∷ after)) (t ∷ after)
          (skip_below-finds ukey before t after h c)
        ∙ rw starts refl
