-- ===== src/Bloom/Members.antt =====
-- crates/fluent31/src/bloom.rs: the filter has no false negatives.
use fluent.Prelude.{
  All-map, ℕ, zero, suc, ◌+◌, ◌*◌, ◌/◌, ◌%◌, ◌^◌, ◌≤◌, ◌<◌, ◌≡◌, refl, ap, ◌∙◌, sym, arith, max,
  bit_and, bit_or, ◌==◌, ==_iff, ltb, Bool, true, not, if◌then◌else◌, List, [], ◌∷◌, length, set,
  get_or, replicate, All, length-set, ltb→lt, Bool-cases, inl, inr,
}
use mathlib.Core.Path.{subst, subst₂, subst₃}
use native.Mathlib.Nat.{mod-lt}
use fluent.Prelude.Bits.{holds_below, holds_below_sound}
use fluent.Coding.{IsByte}
use fluent.Bloom.{probe_step, set_probes, set_hashes, probe_count, build, probe, may_contain}

-- Bits of a byte, by table. An entry packs the byte and the bit numbers.
set_table :
    holds_below 2048 (λ x. not (bit_and (bit_or (x / 8) (2 ^ (x % 8))) (2 ^ (x % 8)) == 0)) ≡ true
unfolding holds_below
set_table = refl

byte_table : holds_below 2048 (λ x. ltb (bit_or (x / 8) (2 ^ (x % 8))) 256) ≡ true
unfolding holds_below
byte_table = refl

keep_table :
    holds_below 16384 (λ x.
      if bit_and (x / 64) (2 ^ (x % 8)) == 0
      then true
      else not (bit_and (bit_or (x / 64) (2 ^ (x / 8 % 8))) (2 ^ (x % 8)) == 0))
    ≡ true
unfolding holds_below
keep_table = refl

-- Bit `i` of the byte `a`.
abbrev has_bit : ℕ → ℕ → Bool
has_bit a i = not (bit_and a (2 ^ i) == 0)

set_bit : (a i : ℕ) → a < 256 → i < 8 → has_bit (bit_or a (2 ^ i)) i ≡ true
set_bit a i ha hi =
    subst₂ (λ (x y : ℕ). has_bit (bit_or x (2 ^ y)) y ≡ true) byte bit
      (holds_below_sound 2048 _ (a * 8 + i) set_table (omega arith))
  where
    byte : (a * 8 + i) / 8 ≡ a
    byte = omega arith

    bit : (a * 8 + i) % 8 ≡ i
    bit = omega arith

set_bit-IsByte : (a i : ℕ) → a < 256 → i < 8 → bit_or a (2 ^ i) < 256
set_bit-IsByte a i ha hi = ltb→lt _ _ (
    subst₂ (λ (x y : ℕ). ltb (bit_or x (2 ^ y)) 256 ≡ true) byte bit
      (holds_below_sound 2048 _ (a * 8 + i) byte_table (omega arith)))
  where
    byte : (a * 8 + i) / 8 ≡ a
    byte = omega arith

    bit : (a * 8 + i) % 8 ≡ i
    bit = omega arith

keep_bit :
    (a i j : ℕ) → a < 256 → i < 8 → j < 8 → has_bit a j ≡ true → has_bit (bit_or a (2 ^ i)) j ≡ true
keep_bit a i j ha hi hj h = ground (
  arith,
  h,
  subst₃
      (λ (x y z : ℕ).
        (if bit_and x (2 ^ z) == 0 then true else has_bit (bit_or x (2 ^ y)) z) ≡ true)
      byte bit other (holds_below_sound 16384 _ ((a * 8 + i) * 8 + j) keep_table (omega arith)),
)
  where
    byte : ((a * 8 + i) * 8 + j) / 64 ≡ a
    byte = omega arith

    bit : ((a * 8 + i) * 8 + j) / 8 % 8 ≡ i
    bit = omega arith

    other : ((a * 8 + i) * 8 + j) % 8 ≡ j
    other = omega arith

-- Bit `b` of a bitmap.
abbrev has : List ℕ → ℕ → Bool
has bitmap b = has_bit (get_or bitmap (b / 8) 0) (b % 8)

abbrev mark : List ℕ → ℕ → List ℕ
mark bitmap b = set bitmap (b / 8) (bit_or (get_or bitmap (b / 8) 0) (2 ^ (b % 8)))

get_or-IsByte : (bitmap : List ℕ) (i : ℕ) → All IsByte bitmap → get_or bitmap i 0 < 256
get_or-IsByte [] i h = omega arith
get_or-IsByte (a ∷ bitmap) zero h = h.0
get_or-IsByte (a ∷ bitmap) (suc i) h = get_or-IsByte bitmap i h.1

get_or-set :
    (bitmap : List ℕ) (i j v : ℕ)
    → i < length bitmap
    → get_or (set bitmap i v) j 0 ≡ (if i == j then v else get_or bitmap j 0)
get_or-set [] i j v h = absurd (omega arith)
get_or-set (a ∷ bitmap) zero zero v h = refl
get_or-set (a ∷ bitmap) zero (suc j) v h = ground arith
get_or-set (a ∷ bitmap) (suc i) zero v h = ground arith
get_or-set (a ∷ bitmap) (suc i) (suc j) v h = ground (arith, get_or-set bitmap i j v (omega arith))

set-IsByte : (bitmap : List ℕ) (i v : ℕ) → All IsByte bitmap → v < 256 → All IsByte (set bitmap i v)
set-IsByte [] i v h hv = tt
set-IsByte (a ∷ bitmap) zero v h hv = (hv, h.1)
set-IsByte (a ∷ bitmap) (suc i) v h hv = (h.0, set-IsByte bitmap i v h.1 hv)

-- Marking a bit sets it and clears none.
module _ (bitmap : List ℕ) (b : ℕ) (bytes : All IsByte bitmap)
    (inside : b / 8 < length bitmap) where
  old : get_or bitmap (b / 8) 0 < 256
  old = get_or-IsByte bitmap (b / 8) bytes

  mark-IsByte : All IsByte (mark bitmap b)
  mark-IsByte = set-IsByte bitmap (b / 8) _ bytes (set_bit-IsByte _ (b % 8) old (omega arith))

  mark_self : has (mark bitmap b) b ≡ true
  mark_self =
      ap (λ (a : ℕ). has_bit a (b % 8))
        (get_or-set bitmap (b / 8) (b / 8) (bit_or (get_or bitmap (b / 8) 0) (2 ^ (b % 8))) inside
          ∙ ground arith)
      ∙ set_bit (get_or bitmap (b / 8) 0) (b % 8) old (omega arith)

  mark_keeps : (c : ℕ) → has bitmap c ≡ true → has (mark bitmap b) c ≡ true
  mark_keeps c h = elim (Bool-cases (b / 8 == c / 8)) [
    | inr other ↦
        ap (λ (a : ℕ). has_bit a (c % 8))
          (get_or-set bitmap (b / 8) (c / 8) (bit_or (get_or bitmap (b / 8) 0) (2 ^ (b % 8))) inside
            ∙ rw other)
        ∙ h
    | inl same ↦
        ap (λ (a : ℕ). has_bit a (c % 8))
          (get_or-set bitmap (b / 8) (c / 8) (bit_or (get_or bitmap (b / 8) 0) (2 ^ (b % 8))) inside
            ∙ rw same)
        ∙ keep_bit (get_or bitmap (b / 8) 0) (b % 8) (c % 8) old (omega arith) (omega arith) (
            subst (λ (i : ℕ). has_bit (get_or bitmap i 0) (c % 8) ≡ true)
              (sym ((==_iff (b / 8) (c / 8)).0 same)) h)
  ]

-- What the marks of some rounds leave of a filter: its probe count and length, its bits, and more.
record Grown (k : ℕ) (before out : List ℕ) : Type 0 where
  after : List ℕ
  is_filter : out ≡ k ∷ after
  same_length : length after ≡ length before
  bytes : All IsByte after
  keeps : (c : ℕ) → has before c ≡ true → has after c ≡ true

-- Every bit that `probe` looks at for `g` is set.
abbrev Probed : ℕ → ℕ → ℕ → ℕ → List ℕ → Type 0
Probed zero nbits delta g bitmap = Unit
Probed (suc r) nbits delta g bitmap =
    (has bitmap (g % nbits) ≡ true) × Probed r nbits delta ((g + delta) % 2 ^ 64) bitmap

Probed-keeps :
    (r nbits delta g : ℕ) (a b : List ℕ)
    → ((c : ℕ) → has a c ≡ true → has b c ≡ true)
    → Probed r nbits delta g a
    → Probed r nbits delta g b
Probed-keeps zero nbits delta g a b keeps h = tt
Probed-keeps (suc r) nbits delta g a b keeps (h, hs) =
    (keeps (g % nbits) h, Probed-keeps r nbits delta ((g + delta) % 2 ^ 64) a b keeps hs)

probe-Probed :
    (r nbits delta g : ℕ) (bitmap : List ℕ)
    → Probed r nbits delta g bitmap
    → probe r nbits delta g bitmap ≡ true
unfolding probe
probe-Probed zero nbits delta g bitmap h = refl
probe-Probed (suc r) nbits delta g bitmap (h, hs) =
    ground (arith, h, probe-Probed r nbits delta ((g + delta) % 2 ^ 64) bitmap hs)

set_probes-Grown :
    (r delta g k : ℕ) (bitmap : List ℕ)
    → All IsByte bitmap
    → 0 < length bitmap
    → (w : Grown k bitmap (set_probes r (length bitmap * 8) delta g (k ∷ bitmap))) × Probed r
        (length bitmap * 8)
        delta
        g
        w.after
unfolding set_probes
set_probes-Grown zero delta g k bitmap bytes pos = (
  record { after = bitmap; is_filter = refl; same_length = refl; bytes = bytes; keeps = λ c h. h },
  tt,
)
set_probes-Grown (suc r) delta g k bitmap bytes pos =
    let (w, probed) =
      set_probes-Grown r delta ((g + delta) % 2 ^ 64) k marked marked_bytes (omega (arith, len)) in
    (
      record {
        after = w.after;
        is_filter =
            subst
              (λ (n : ℕ).
                set_probes r (n * 8) delta ((g + delta) % 2 ^ 64) (k ∷ marked) ≡ k ∷ w.after)
              len w.is_filter;
        same_length = w.same_length ∙ len;
        bytes = w.bytes;
        keeps = λ c h. w.keeps c (mark_keeps bitmap b bytes inside c h);
      },
      (
        w.keeps b (mark_self bitmap b bytes inside),
        subst (λ (n : ℕ). Probed r (n * 8) delta ((g + delta) % 2 ^ 64) w.after) len probed,
      ),
    )
  where
    b : ℕ
    b = g % (length bitmap * 8)

    marked : List ℕ
    marked = mark bitmap b

    inside : b / 8 < length bitmap
    inside = omega (arith, mod-lt g {m = length bitmap * 8} (omega arith))

    len : length marked ≡ length bitmap
    len = length-set bitmap (b / 8) _

    marked_bytes : All IsByte marked
    marked_bytes = mark-IsByte bitmap b bytes inside

set_hashes-Grown :
    (k : ℕ) (hashes bitmap : List ℕ)
    → All IsByte bitmap
    → 0 < length bitmap
    → (w : Grown k bitmap (set_hashes k (length bitmap * 8) hashes (k ∷ bitmap))) × All
        (λ h. Probed k (length bitmap * 8) (probe_step h) h w.after)
        hashes
unfolding set_hashes
set_hashes-Grown k [] bitmap bytes pos = (
  record { after = bitmap; is_filter = refl; same_length = refl; bytes = bytes; keeps = λ c h. h },
  tt,
)
set_hashes-Grown k (h ∷ hashes) bitmap bytes pos =
    let (w, probed) = set_probes-Grown k (probe_step h) h k bitmap bytes pos in
    let (w', later) = set_hashes-Grown k hashes w.after w.bytes (omega (arith, w.same_length)) in
    (
      record {
        after = w'.after;
        is_filter =
            ap (set_hashes k (length bitmap * 8) hashes) w.is_filter
            ∙ subst (λ (n : ℕ). set_hashes k (n * 8) hashes (k ∷ w.after) ≡ k ∷ w'.after)
                w.same_length w'.is_filter;
        same_length = w'.same_length ∙ w.same_length;
        bytes = w'.bytes;
        keeps = λ c x. w'.keeps c (w.keeps c x);
      },
      (
        Probed-keeps k (length bitmap * 8) (probe_step h) h w.after w'.after w'.keeps probed,
        subst (λ (n : ℕ). All (λ x. Probed k (n * 8) (probe_step x) x w'.after) hashes)
            w.same_length later,
      ),
    )

zeros-IsByte : (n : ℕ) → All IsByte (replicate n 0)
zeros-IsByte zero = tt
zeros-IsByte (suc n) = (omega arith, zeros-IsByte n)

length-replicate : (n : ℕ) → length {A = ℕ} (replicate n 0) ≡ n
length-replicate zero = refl
length-replicate (suc n) = ap suc (length-replicate n)

may_contain-Probed :
    (k h : ℕ) (bitmap : List ℕ)
    → 0 < length bitmap
    → k ≤ 30
    → Probed k (length bitmap * 8) (probe_step h) h bitmap
    → may_contain (k ∷ bitmap) h ≡ true
unfolding may_contain
may_contain-Probed k h bitmap pos small probed =
    ground (arith, probe-Probed k (length bitmap * 8) (probe_step h) h bitmap probed)

-- The filter built over some hashes contains each of them, whatever the bits per key and the product
-- that gives the number of probes.
pub build-may_contain :
    (times_0_69 : ℕ → ℕ) (hashes : List ℕ) (bits_per_key : ℕ)
    → All (λ h. may_contain (build times_0_69 hashes bits_per_key) h ≡ true) hashes
unfolding build
build-may_contain times_0_69 hashes bits_per_key =
    let (w, probed) = set_hashes-Grown k hashes bitmap (zeros-IsByte nbytes) pos in
    All-map _ _ hashes
      (λ h p.
        ap (λ (f : List ℕ). may_contain f h) (same ∙ w.is_filter)
        ∙ may_contain-Probed k h w.after (omega (arith, w.same_length, pos)) (omega arith)
            (subst (λ (n : ℕ). Probed k (n * 8) (probe_step h) h w.after) (sym w.same_length) p))
      probed
  where
    k : ℕ
    k = probe_count times_0_69 bits_per_key

    nbytes : ℕ
    nbytes = (max (max (length hashes) 1 * bits_per_key) 64 + 7) / 8

    bitmap : List ℕ
    bitmap = replicate nbytes 0

    pos : 0 < length bitmap
    pos = omega (arith, length-replicate nbytes)

    same :
        set_hashes k (nbytes * 8) hashes (k ∷ bitmap)
        ≡ set_hashes k (length bitmap * 8) hashes (k ∷ bitmap)
    same = ap (λ (n : ℕ). set_hashes k (n * 8) hashes (k ∷ bitmap)) (sym (length-replicate nbytes))
