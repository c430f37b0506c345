-- ===== src/Wal/Sound.antt =====
-- crates/fluent31/src/wal.rs: what the reader yields on any file, damaged or not.
use mathlib.Core.Path.{ap₂}
use mathlib.Core.List.{append_assoc, append-nil}
use fluent.Prelude.{
  ℕ, zero, suc, ◌+◌, ◌-◌, ◌*◌, ◌/◌, ◌%◌, ◌≤◌, ◌≡◌, ◌≢◌, ◌⊎◌, inl, inr, refl, ap, ◌∙◌, sym, arith,
  ltb, ◌==◌, ◌&&◌, ◌||◌, Bool-cases, List, [], ◌∷◌, ◌++◌, length, length-append, length-drop,
  drop-drop, take, drop, drop_append, All, ltb-false, ==_iff,
}
use fluent.Result.{ok}
use fluent.Coding.{to_le_bytes, from_le_bytes, IsU32, IsByte}
use fluent.Wal.{max_record, WalTail, clean, torn, read_header, read_loop, read_wal}
use fluent.Wal.Recovery.{
  header_bytes, length-zero, read_loop_end, read_header_lem, frame, frames, IsRecord, length-frame,
  read_loop_record,
}

to_le-from_le : (bs : List ℕ) → All IsByte bs → to_le_bytes (length bs) (from_le_bytes bs) ≡ bs
unfolding to_le_bytes from_le_bytes
to_le-from_le [] h = refl
to_le-from_le (b ∷ bs) (hb, hbs) =
    ap₂ (λ (x : ℕ) (l : List ℕ). x ∷ l) low
      (ap (to_le_bytes (length bs)) high ∙ to_le-from_le bs hbs)
  where
    low : (b + 256 * from_le_bytes bs) % 256 ≡ b
    low = omega arith

    high : (b + 256 * from_le_bytes bs) / 256 ≡ from_le_bytes bs
    high = omega arith

from_le_four :
    (a b c d : ℕ) → All IsByte (a ∷ b ∷ c ∷ d ∷ []) → IsU32 (from_le_bytes (a ∷ b ∷ c ∷ d ∷ []))
unfolding from_le_bytes
from_le_four a b c d h = omega arith

header_split :
    (l : List ℕ)
    → All IsByte l
    → 8 ≤ length l
    → (a : ℕ) × (b : ℕ) × (tail : List ℕ) × IsU32 a
      × IsU32 b
      × (l ≡ (to_le_bytes 4 a ++ to_le_bytes 4 b) ++ tail)
header_split (a ∷ b ∷ c ∷ d ∷ e ∷ f ∷ g ∷ h ∷ tail)
      (pa, (pb, (pc, (pd, (pe, (pf, (pg, (ph, _)))))))) n =
    (
      from_le_bytes (a ∷ b ∷ c ∷ d ∷ []),
      from_le_bytes (e ∷ f ∷ g ∷ h ∷ []),
      tail,
      from_le_four a b c d first,
      from_le_four e f g h second,
      ap₂ (λ (x y : List ℕ). (x ++ y) ++ tail) (sym (to_le-from_le (a ∷ b ∷ c ∷ d ∷ []) first))
          (sym (to_le-from_le (e ∷ f ∷ g ∷ h ∷ []) second)),
    )
  where
    first : All IsByte (a ∷ b ∷ c ∷ d ∷ [])
    first = (pa, (pb, (pc, (pd, tt))))

    second : All IsByte (e ∷ f ∷ g ∷ h ∷ [])
    second = (pe, (pf, (pg, (ph, tt))))
header_split _ h n = absurd (omega arith)

take-drop :
    (n : ℕ) (xs : List ℕ) → n ≤ length xs → (length (take n xs) ≡ n) × (xs ≡ take n xs ++ drop n xs)
take-drop zero xs h = (refl, refl)
take-drop (suc n) [] h = absurd (omega arith)
take-drop (suc n) (x ∷ xs) h =
    let (p, q) = take-drop n xs (omega arith) in (ap suc p, ap (λ (l : List ℕ). x ∷ l) q)

module _ (crc32 : List ℕ → ℕ) where
  -- What stands at `pos`: the end, bytes on which the loop stops, or a whole record.
  abbrev Torn : List ℕ → ℕ → Type 0
  Torn buf pos =
      (drop pos buf ≢ [])
      × ((fuel : ℕ) (records : List (List ℕ))
          → read_loop crc32 (suc fuel) buf pos records ≡ (records, torn pos))

  abbrev Whole : List ℕ → ℕ → Type 0
  Whole buf pos =
      (p : List ℕ) × (post : List ℕ) × IsRecord crc32 p × (drop pos buf ≡ frame crc32 p ++ post)

  checked :
      (buf : List ℕ) (pos a b : ℕ) (tail : List ℕ)
      → IsU32 a
      → IsU32 b
      → drop pos buf ≡ (to_le_bytes 4 a ++ to_le_bytes 4 b) ++ tail
      → Torn buf pos ⊎ Whole buf pos
  unfolding read_loop
  checked buf pos a b tail ha hb e = elim (Bool-cases (a == 0 && b == 0)) [
    | inl zeros ↦ inl (nonempty, λ fuel records. rw (header, behind) (ground (arith, left, zeros)))
    | inr nonzero ↦ elim (Bool-cases (ltb max_record a || ltb (length tail) a)) [
      | inl long ↦ inl (nonempty, λ fuel records. rw (header, behind) (ground (arith, left, long)))
      | inr fits ↦ elim (Bool-cases (crc32 (take a tail) == b)) [
        | inr differs ↦
            inl (nonempty, λ fuel records. rw (header, behind, differs) (ground (arith, left)))
        | inl same ↦ inr (whole (ground arith) (ground arith) (ground arith) (ground arith))
      ]
    ]
  ]
    where
      left : length buf - pos ≡ 8 + length tail
      left = omega (
        arith,
        length-drop pos buf,
        ap {B = ℕ} length e,
        length-append (to_le_bytes 4 a ++ to_le_bytes 4 b) tail,
        header_bytes a b,
      )

      header : read_header buf pos ≡ ok (a, b)
      header = read_header_lem buf pos a b tail ha hb e

      behind : drop (pos + 8) buf ≡ tail
      behind =
          drop-drop pos 8 buf
          ∙ ap (λ (l : List ℕ). drop 8 l) e
          ∙ ap (λ (n : ℕ). drop n ((to_le_bytes 4 a ++ to_le_bytes 4 b) ++ tail))
              (sym (header_bytes a b))
          ∙ drop_append (to_le_bytes 4 a ++ to_le_bytes 4 b) tail

      nonempty : drop pos buf ≢ []
      nonempty z = absurd (omega (arith, length-drop pos buf, ap {B = ℕ} length z, left))

      whole :
          a ≤ max_record
          → a ≤ length tail
          → (a ≢ 0) ⊎ (b ≢ 0)
          → crc32 (take a tail) ≡ b
          → Whole buf pos
      whole bounded inside nonzero same =
          let (len, split) = take-drop a tail inside in
          (
            take a tail,
            drop a tail,
            record {
              bounded = omega (arith, len);
              checksum = omega (arith, same);
              not_zero_fill = ground (arith, len, same);
            },
            unfold frame in
                e
                ∙ rw (len, same)
                    (ap (λ (l : List ℕ). (to_le_bytes 4 a ++ to_le_bytes 4 b) ++ l) split
                      ∙ sym (
                          append_assoc (to_le_bytes 4 a ++ to_le_bytes 4 b) (take a tail)
                            (drop a tail))),
          )

  round_cases :
      (buf : List ℕ) (pos : ℕ)
      → All IsByte (drop pos buf)
      → (drop pos buf ≡ []) ⊎ (Torn buf pos ⊎ Whole buf pos)
  unfolding read_loop
  round_cases buf pos h = elim (Bool-cases (length buf - pos == 0)) [
    | inl done ↦
        inl (length-zero (drop pos buf) (omega (arith, length-drop pos buf, (==_iff _ _).0 done)))
    | inr more ↦ elim (Bool-cases (ltb (length buf - pos) 8)) [
      | inl short ↦ inr (
          inl (
            (λ z. absurd (ground (arith, more, length-drop pos buf, ap {B = ℕ} length z))),
            λ fuel records. ground (arith, more, short),
          ))
      | inr full ↦
          let (a, b, tail, ha, hb, e) =
            header_split (drop pos buf) h
              (omega (arith, length-drop pos buf, ltb-false _ _ full)) in
          inr (checked buf pos a b tail ha hb e)
    ]
  ]

  -- The reader's answer, told from the bytes at `pos`: the records behind those it had, in order,
  -- then nothing more or bytes that do not start with a record.
  pub record Explained (at : List ℕ) (pos : ℕ) (before : List (List ℕ))
      (out : List (List ℕ) × WalTail) : Type 0 where
    pub found : List (List ℕ)
    pub post : List ℕ
    pub out_records : out.0 ≡ before ++ found
    pub are_records : All (IsRecord crc32) found
    pub layout : at ≡ frames crc32 found ++ post
    pub tail_end :
        ((out.1 ≡ clean) × (post ≡ []))
        ⊎ ((out.1 ≡ torn (pos + length (frames crc32 found))) × (post ≢ []))

  All-drop : (n : ℕ) (xs : List ℕ) → All IsByte xs → All IsByte (drop n xs)
  All-drop zero xs h = h
  All-drop (suc n) [] h = tt
  All-drop (suc n) (x ∷ xs) h = All-drop n xs h.1

  prepend :
      (buf : List ℕ) (pos : ℕ) (records : List (List ℕ)) (p post : List ℕ)
      → IsRecord crc32 p
      → drop pos buf ≡ frame crc32 p ++ post
      → (out : List (List ℕ) × WalTail)
      → Explained
          (drop (pos + length (frame crc32 p)) buf)
          (pos + length (frame crc32 p))
          (records ++ (p ∷ []))
          out
      → Explained (drop pos buf) pos records out
  unfolding frames
  prepend buf pos records p post hp e out x = record {
    found = p ∷ x.found;
    post = x.post;
    out_records = x.out_records ∙ append_assoc records (p ∷ []) x.found;
    are_records = (hp, x.are_records);
    layout =
        e
        ∙ ap (λ (l : List ℕ). frame crc32 p ++ l) (sym past ∙ x.layout)
        ∙ sym (append_assoc (frame crc32 p) (frames crc32 x.found) x.post);
    tail_end = elim x.tail_end [
      | inl (is_clean, none_left) ↦ inl (is_clean, none_left)
      | inr (is_torn, some_left) ↦ inr (is_torn ∙ ap torn longer, some_left)
    ];
  }
    where
      longer :
          pos + length (frame crc32 p) + length (frames crc32 x.found)
          ≡ pos + length (frame crc32 p ++ frames crc32 x.found)
      longer = omega (arith, length-append (frame crc32 p) (frames crc32 x.found))

      past : drop (pos + length (frame crc32 p)) buf ≡ post
      past =
          drop-drop pos (length (frame crc32 p)) buf
          ∙ ap (λ (l : List ℕ). drop (length (frame crc32 p)) l) e
          ∙ drop_append (frame crc32 p) post

  read_loop-Explained :
      (fuel : ℕ) (buf : List ℕ) (pos : ℕ) (records : List (List ℕ))
      → All IsByte buf
      → length buf - pos ≤ fuel
      → Explained (drop pos buf) pos records (read_loop crc32 fuel buf pos records)
  read_loop-Explained zero buf pos records hb hf = record {
    found = [];
    post = [];
    out_records = unfold read_loop in sym (append-nil records);
    are_records = tt;
    layout = unfold frames in length-zero (drop pos buf) (omega (arith, length-drop pos buf));
    tail_end = inl (unfold read_loop in refl, refl);
  }
  read_loop-Explained (suc fuel) buf pos records hb hf =
      elim (round_cases buf pos (All-drop pos buf hb)) [
        | inl done ↦ rw (read_loop_end crc32 (suc fuel) buf pos records done) (record {
          found = [];
          post = [];
          out_records = sym (append-nil records);
          are_records = tt;
          layout = unfold frames in done;
          tail_end = inl (refl, refl);
        })
        | inr (inl (some_bytes, stops)) ↦ rw (stops fuel records) (record {
          found = [];
          post = drop pos buf;
          out_records = sym (append-nil records);
          are_records = tt;
          layout = unfold frames in refl;
          tail_end = inr (unfold frames in ap torn (omega arith), some_bytes);
        })
        | inr (inr (p, post, hp, e)) ↦
            rw (read_loop_record crc32 fuel buf pos records p post hp e) (
              prepend buf pos records p post hp e _ (
                read_loop-Explained fuel buf (pos + length (frame crc32 p)) (records ++ (p ∷ [])) hb
                  (omega (arith, hf, length-frame crc32 p))))
      ]

  -- On any file of bytes the reader yields records that stand one behind the other from the start of
  -- the file; a clean tail means that nothing follows them, and a torn one gives their length.
  pub read_wal-Explained : (buf : List ℕ) → All IsByte buf → Explained buf 0 [] (read_wal crc32 buf)
  unfolding read_wal
  read_wal-Explained buf hb = read_loop-Explained (length buf) buf 0 [] hb (omega arith)
