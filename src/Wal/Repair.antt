-- ===== src/Wal/Repair.antt =====
-- crates/fluent31/src/wal.rs and db.rs (the truncation of a torn tail at open): what the reader finds
-- in a repaired file.
use mathlib.Core.List.{append-nil}
use native.Mathlib.Nat.{zero-add}
use fluent.Prelude.{
  ℕ, ◌+◌, ◌≡◌, inl, inr, ap, ◌∙◌, sym, arith, List, [], length, take, take_append, All,
}
use fluent.Coding.{IsByte}
use fluent.Wal.{WalTail, clean, torn, read_wal}
use fluent.Wal.Recovery.{frames, IsRecord, read_loop_records, read_loop_end}
use fluent.Wal.Sound.{read_wal-Explained}

absurd_tail : {v : ℕ} → torn v ≡ clean → ⊥
absurd_tail e = cc

torn_injective : {v w : ℕ} → torn v ≡ torn w → v ≡ w
torn_injective e = cc

module _ (crc32 : List ℕ → ℕ) where
  -- A file that holds whole records and nothing else reads clean.
  read_wal_clean :
      (ps : List (List ℕ))
      → All (IsRecord crc32) ps
      → read_wal crc32 (frames crc32 ps) ≡ (ps, clean)
  unfolding read_wal
  read_wal_clean ps h =
      let file = frames crc32 ps in
      let (fuel, enough, same, left) =
        read_loop_records crc32 ps (length file) file 0 [] [] h (sym (append-nil file))
          (omega arith) in
      same ∙ read_loop_end crc32 fuel file (0 + length file) ps left

  -- Cutting a torn file to the length that the reader reports keeps its records and makes it clean.
  pub read_wal_repaired :
      (buf : List ℕ) (records : List (List ℕ)) (valid_len : ℕ)
      → All IsByte buf
      → read_wal crc32 buf ≡ (records, torn valid_len)
      → read_wal crc32 (take valid_len buf) ≡ (records, clean)
  read_wal_repaired buf records valid_len hb e =
      ap (read_wal crc32) cut ∙ read_wal_clean found are_records ∙ ap (λ r. (r, clean)) (sym same)
    where
      open read_wal-Explained crc32 buf hb use {
        found, post, out_records, are_records, layout, tail_end,
      }

      same : records ≡ found
      same = cc (out_records, e)

      len : valid_len ≡ length (frames crc32 found)
      len = elim tail_end [
        | inl (is_clean, _) ↦
            absurd (absurd_tail (sym (ap (λ (t : List (List ℕ) × WalTail). t.1) e) ∙ is_clean))
        | inr (is_torn, _) ↦
            torn_injective (sym (ap (λ (t : List (List ℕ) × WalTail). t.1) e) ∙ is_torn)
            ∙ zero-add _
      ]

      cut : take valid_len buf ≡ frames crc32 found
      cut =
          ap (λ (n : ℕ). take n buf) len
          ∙ ap (λ (l : List ℕ). take (length (frames crc32 found)) l) layout
          ∙ take_append (frames crc32 found) post
