-- ===== src/Tests/WalRuns.antt =====
-- Runs of crates/fluent31/src/wal.rs over a checksum that adds the bytes.
use fluent.Prelude.{ℕ, ◌+◌, ◌%◌, ◌^◌, ◌≡◌, inl, refl, arith, List, [], ◌∷◌, ◌++◌, length, take, All}
use fluent.Coding.{u32, to_le_bytes, IsByte}
use fluent.Wal.{clean, torn, append_record, read_loop, read_wal, read_header}
use fluent.Wal.Recovery.{IsRecord, append_all, torn_or_clean, read_wal_after_crash}
use fluent.Wal.Sound.{Explained, read_wal-Explained}
use fluent.Wal.Repair.{read_wal_repaired}

checksum : List ℕ → ℕ
checksum [] = 0
checksum (b ∷ bs) = (b + checksum bs) % 2 ^ 32

wal_code : Unit {0}
unfolding read_wal read_loop read_header append_record to_le_bytes u32 checksum append_all
wal_code = tt

abbrev log : List (List ℕ)
log = (1 ∷ 2 ∷ 3 ∷ []) ∷ (9 ∷ []) ∷ []

log-IsRecord : All (IsRecord checksum) log
unfolding checksum
log-IsRecord = (
  record { bounded = omega arith; checksum = omega arith; not_zero_fill = inl (omega arith) },
  (record { bounded = omega arith; checksum = omega arith; not_zero_fill = inl (omega arith) }, tt),
)

last-IsRecord : IsRecord checksum (5 ∷ 6 ∷ [])
unfolding checksum
last-IsRecord = record {
  bounded = omega arith;
  checksum = omega arith;
  not_zero_fill = inl (omega arith);
}

abbrev cut : List ℕ
cut = 2 ∷ 0 ∷ 0 ∷ 0 ∷ 11 ∷ 0 ∷ 0 ∷ 0 ∷ 5 ∷ []

read_wal_after_crash_example :
    read_wal checksum (append_all checksum [] log ++ cut)
    ≡ (log, torn_or_clean (length (append_all checksum [] log)) cut)
unfolding wal_code
read_wal_after_crash_example =
    read_wal_after_crash checksum log (5 ∷ 6 ∷ []) cut 6 [] log-IsRecord last-IsRecord refl

abbrev damaged : List ℕ
damaged = 1 ∷ 0 ∷ 0 ∷ 0 ∷ 9 ∷ 0 ∷ 0 ∷ 0 ∷ 9 ∷ 1 ∷ 0 ∷ []

damaged_bytes : All IsByte damaged
damaged_bytes = omega arith

reads_damaged : read_wal checksum damaged ≡ ((9 ∷ []) ∷ [], torn 9)
unfolding wal_code
reads_damaged = refl

read_wal-Explained_example : Explained checksum damaged 0 [] (read_wal checksum damaged)
read_wal-Explained_example = read_wal-Explained checksum damaged damaged_bytes

read_wal_repaired_example : read_wal checksum (take 9 damaged) ≡ ((9 ∷ []) ∷ [], clean)
read_wal_repaired_example =
    read_wal_repaired checksum damaged ((9 ∷ []) ∷ []) 9 damaged_bytes reads_damaged
