-- ===== src/Bloom.antt =====
-- crates/fluent31/src/bloom.rs: the bloom filter of a table. The product by the float 0.69 in the choice
-- of the probe count is a parameter, any function; the clamp is modelled.
pub mod Members
use fluent.Prelude.{
  ℕ, zero, suc, ◌+◌, ◌-◌, ◌*◌, ◌/◌, ◌%◌, ◌^◌, min, max, bit_and, bit_or, bit_xor, ◌==◌, ltb, Bool,
  true, false, if◌then◌else◌, List, [], ◌∷◌, length, set, get_or, replicate, drop,
}

hash_bytes : List ℕ → ℕ → ℕ
hash_bytes [] h = h
hash_bytes (b ∷ key) h = hash_bytes key (bit_xor h b * 0x100000001b3 % 2 ^ 64)

-- `h ^= h >> 33`
abbrev fold_high : ℕ → ℕ
fold_high h = bit_xor h (h / 2 ^ 33)

-- FNV-1a, then murmur3's finalizer.
unfoldable pub hash64 : List ℕ → ℕ
unfolding hash_bytes
hash64 key =
    let h0 = hash_bytes key 0xcbf29ce484222325 in
    let h1 = fold_high h0 * 0xff51afd7ed558ccd % 2 ^ 64 in
    let h2 = fold_high h1 * 0xc4ceb9fe1a85ec53 % 2 ^ 64 in fold_high h2

-- `(h >> 33) | 1`
abbrev pub probe_step : ℕ → ℕ
probe_step h = bit_or (h / 2 ^ 33) 1

-- `for _ in 0..k`, setting one bit in each round.
unfoldable pub set_probes : ℕ → ℕ → ℕ → ℕ → List ℕ → List ℕ
set_probes zero nbits delta g out = out
set_probes (suc k) nbits delta g out =
    let bit = g % nbits in
    let at = suc (bit / 8) in
    set_probes k nbits delta ((g + delta) % 2 ^ 64)
      (set out at (bit_or (get_or out at 0) (2 ^ (bit % 8))))

unfoldable pub set_hashes : ℕ → ℕ → List ℕ → List ℕ → List ℕ
unfolding set_probes
set_hashes k nbits [] out = out
set_hashes k nbits (h ∷ hashes) out =
    set_hashes k nbits hashes (set_probes k nbits (probe_step h) h out)

module _ (times_0_69 : ℕ → ℕ) where
  abbrev pub probe_count : ℕ → ℕ
  probe_count bits_per_key = min (max (times_0_69 bits_per_key) 1) 30

  unfoldable pub build : List ℕ → ℕ → List ℕ
  unfolding set_hashes
  build hashes bits_per_key =
      let n = max (length hashes) 1 in
      let wanted = max (n * bits_per_key) 64 in
      let nbytes = (wanted + 7) / 8 in
      let k = probe_count bits_per_key in
      set_hashes k (nbytes * 8) hashes (set (replicate (suc nbytes) 0) 0 k)

-- `for _ in 0..k`, with the early return on a clear bit.
unfoldable pub probe : ℕ → ℕ → ℕ → ℕ → List ℕ → Bool
probe zero nbits delta g bitmap = true
probe (suc k) nbits delta g bitmap =
    let bit = g % nbits in
    let rest = probe k nbits delta ((g + delta) % 2 ^ 64) bitmap in
    if bit_and (get_or bitmap (bit / 8) 0) (2 ^ (bit % 8)) == 0 then false else rest

unfoldable pub may_contain : List ℕ → ℕ → Bool
unfolding probe
may_contain filter h =
    if ltb (length filter) 2
    then true
    else if ltb 30 (get_or filter 0 0)
    then true
    else probe (get_or filter 0 0) (length (drop 1 filter) * 8) (probe_step h) h (drop 1 filter)
