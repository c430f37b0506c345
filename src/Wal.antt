-- ===== src/Wal.antt =====
-- crates/fluent31/src/wal.rs: length and CRC framed records, and the reader that recovery uses. The
-- checksum is crc32fast's, a parameter here; a file is the list of its bytes, and an append that
-- fails is not modelled.
pub mod Recovery
pub mod Sound
pub mod Repair
use fluent.Prelude.{
  ℕ, zero, suc, ◌+◌, ◌-◌, ◌%◌, ◌^◌, ◌==◌, ltb, ◌&&◌, ◌||◌, not, if◌then◌else◌, List, [], ◌∷◌, ◌++◌,
  length, take, drop,
}
use fluent.Result.{Result, ok, err, ◌>>=◌}
use fluent.Coding.{new, u32, to_le_bytes}

abbrev pub header_len : ℕ
header_len = 8

abbrev pub max_record : ℕ
max_record = 2 ^ 30

pub data WalTail : Type 0 where
  clean : WalTail
  torn : ℕ → WalTail

-- The length and the checksum in the header at `pos`.
unfoldable pub read_header : List ℕ → ℕ → Result (ℕ × ℕ)
read_header buf pos = do
  (rec_len, r1) ← u32 (new (take header_len (drop pos buf)))
  (crc, r2) ← u32 r1
  ok (rec_len, crc)

module _ (crc32 : List ℕ → ℕ) where
  -- `WalWriter::append_record`: the file after the append.
  unfoldable pub append_record : List ℕ → List ℕ → List ℕ
  append_record file payload =
      file
      ++ (to_le_bytes 4 (length payload % 2 ^ 32) ++ (to_le_bytes 4 (crc32 payload) ++ payload))

  -- The loop of `read_wal`. A round that goes on takes eight bytes at least, so the bytes that are
  -- left bound the rounds; with none left the code's first test holds.
  unfoldable pub read_loop : ℕ → List ℕ → ℕ → List (List ℕ) → List (List ℕ) × WalTail
  read_loop zero buf pos records = (records, clean)
  read_loop (suc fuel) buf pos records =
      let left = length buf - pos in
      let payload = λ (n : ℕ). take n (drop (pos + header_len) buf) in
      let more =
        λ (n : ℕ). read_loop fuel buf (pos + (header_len + n)) (records ++ (payload n ∷ [])) in
      if left == 0
      then (records, clean)
      else if ltb left header_len
      then (records, torn pos)
      else elim (read_header buf pos) [
        | ok (rec_len, crc) ↦
            if rec_len == 0 && crc == 0
            then (records, torn pos)
            else if ltb max_record rec_len || ltb (left - header_len) rec_len
            then (records, torn pos)
            else if not (crc32 (payload rec_len) == crc)
            then (records, torn pos)
            else more rec_len
        -- `expect("sized")`: not reached, the header has eight bytes
        | err e ↦ (records, torn pos)
      ]

  unfoldable pub read_wal : List ℕ → List (List ℕ) × WalTail
  read_wal buf = read_loop (length buf) buf 0 []
