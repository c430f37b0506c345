-- ===== src/Wal/Recovery.antt =====
-- crates/fluent31/src/wal.rs: recovery reads back what was appended, up to a torn append.
use mathlib.Core.List.{append_assoc, append-nil}
use native.Mathlib.Nat.{mod-eq_of_lt, add-zero}
use fluent.Prelude.{
  ℕ, false, ltb-false, Bool-cases, zero, suc, ◌+◌, ◌-◌, ◌≤◌, ◌≡◌, ◌≢◌, ◌⊎◌, inl, inr, refl, ap, ◌∙◌,
  sym, arith, ltb, List, [], ◌∷◌, ◌++◌, length, length-append, length-drop, drop-drop, take, drop,
  take_append, drop_append, All,
}
use fluent.Result.{ok}
use fluent.Coding.{new, to_le_bytes, IsU32}
use fluent.Coding.Reads.{u32-Reads, length-to_le_bytes}
use fluent.Wal.{max_record, WalTail, clean, torn, read_header, append_record, read_loop, read_wal}

pub header_bytes : (a b : ℕ) → length (to_le_bytes 4 a ++ to_le_bytes 4 b) ≡ 8
header_bytes a b = omega (
  arith,
  length-append (to_le_bytes 4 a) (to_le_bytes 4 b),
  length-to_le_bytes 4 a,
  length-to_le_bytes 4 b,
)

pub read_header_lem :
    (buf : List ℕ) (pos a b : ℕ) (post : List ℕ)
    → IsU32 a
    → IsU32 b
    → drop pos buf ≡ (to_le_bytes 4 a ++ to_le_bytes 4 b) ++ post
    → read_header buf pos ≡ ok (a, b)
unfolding read_header
read_header_lem buf pos a b post ha hb h =
    let (r1, e1, h1) = u32-Reads (new (take 8 (drop pos buf))) a (to_le_bytes 4 b) ha first in
    let (r2, e2, h2) = u32-Reads r1 b [] hb (h1 ∙ sym (append-nil _)) in rw (e1, e2)
  where
    first : take 8 (drop pos buf) ≡ to_le_bytes 4 a ++ to_le_bytes 4 b
    first =
        ap (λ (l : List ℕ). take 8 l) h
        ∙ ap (λ (n : ℕ). take n ((to_le_bytes 4 a ++ to_le_bytes 4 b) ++ post))
            (sym (header_bytes a b))
        ∙ take_append (to_le_bytes 4 a ++ to_le_bytes 4 b) post

pub length-zero : (xs : List ℕ) → length xs ≡ 0 → xs ≡ []
length-zero [] h = refl
length-zero (x ∷ xs) h = absurd (omega arith)

prefix_of :
    (xs ys us vs : List ℕ)
    → xs ++ ys ≡ us ++ vs
    → length xs ≤ length us
    → (m : List ℕ) × (us ≡ xs ++ m)
prefix_of [] ys us vs e h = (us, refl)
prefix_of (x ∷ xs) ys [] vs e h = absurd (omega arith)
prefix_of (x ∷ xs) ys (u ∷ us) vs e h =
    let (m, split) = prefix_of xs ys us vs (cc) (omega arith) in (m, cc)

abbrev pub torn_or_clean : ℕ → List ℕ → WalTail
torn_or_clean valid_len [] = clean
torn_or_clean valid_len (b ∷ front) = torn valid_len

module _ (crc32 : List ℕ → ℕ) where
  -- The bytes of one record.
  unfoldable pub frame : List ℕ → List ℕ
  frame p = (to_le_bytes 4 (length p) ++ to_le_bytes 4 (crc32 p)) ++ p

  unfoldable pub frames : List (List ℕ) → List ℕ
  unfolding frame
  frames [] = []
  frames (p ∷ ps) = frame p ++ frames ps

  -- A payload that the reader takes: not too long, and its header is not all zero.
  pub record IsRecord (p : List ℕ) : Type 0 where
    pub bounded : length p ≤ max_record
    pub checksum : IsU32 (crc32 p)
    pub not_zero_fill : (length p ≢ 0) ⊎ (crc32 p ≢ 0)

  pub length-frame : (p : List ℕ) → length (frame p) ≡ 8 + length p
  unfolding frame
  length-frame p = omega (
    arith,
    length-append (to_le_bytes 4 (length p) ++ to_le_bytes 4 (crc32 p)) p,
    header_bytes (length p) (crc32 p),
  )

  pub append_record_lem :
      (file p : List ℕ) → IsRecord p → append_record crc32 file p ≡ file ++ frame p
  unfolding append_record frame
  append_record_lem file p h =
      ap (λ (n : ℕ). file ++ (to_le_bytes 4 n ++ (to_le_bytes 4 (crc32 p) ++ p)))
        (mod-eq_of_lt (omega (arith, h.bounded)))
      ∙ ap (λ (l : List ℕ). file ++ l)
          (sym (append_assoc (to_le_bytes 4 (length p)) (to_le_bytes 4 (crc32 p)) p))

  -- One round of the loop on a whole record.
  pub read_loop_record :
      (fuel : ℕ) (buf : List ℕ) (pos : ℕ) (records : List (List ℕ)) (p post : List ℕ)
      → IsRecord p
      → drop pos buf ≡ frame p ++ post
      → read_loop crc32 (suc fuel) buf pos records
        ≡ read_loop crc32 fuel buf (pos + length (frame p)) (records ++ (p ∷ []))
  unfolding read_loop
  read_loop_record fuel buf pos records p post h e =
      rw (header, payload, length-frame p) (ground (arith, left, h.bounded, h.not_zero_fill))
    where
      left : length buf - pos ≡ 8 + length p + length post
      left = omega (
        arith,
        length-drop pos buf,
        ap {B = ℕ} length e,
        length-append (frame p) post,
        length-frame p,
      )

      head : List ℕ
      head = to_le_bytes 4 (length p) ++ to_le_bytes 4 (crc32 p)

      laid : drop pos buf ≡ head ++ (p ++ post)
      laid = e ∙ unfold frame in append_assoc head p post

      header : read_header buf pos ≡ ok (length p, crc32 p)
      header =
          read_header_lem buf pos (length p) (crc32 p) (p ++ post) (omega (arith, h.bounded))
            h.checksum laid

      behind : drop (pos + 8) buf ≡ p ++ post
      behind =
          drop-drop pos 8 buf
          ∙ ap (λ (l : List ℕ). drop 8 l) laid
          ∙ ap (λ (n : ℕ). drop n (head ++ (p ++ post))) (sym (header_bytes (length p) (crc32 p)))
          ∙ drop_append head (p ++ post)

      payload : take (length p) (drop (pos + 8) buf) ≡ p
      payload = ap (λ (l : List ℕ). take (length p) l) behind ∙ take_append p post

  -- Where only the bytes of `ps` lie before `post`, the loop reaches `post` with `ps` read.
  pub read_loop_records :
      (ps : List (List ℕ)) (fuel : ℕ) (buf : List ℕ) (pos : ℕ) (records : List (List ℕ))
      (post : List ℕ)
      → All IsRecord ps
      → drop pos buf ≡ frames ps ++ post
      → length buf - pos ≤ fuel
      → (fuel' : ℕ) × (length post ≤ fuel')
        × (read_loop crc32 fuel buf pos records
            ≡ read_loop crc32 fuel' buf (pos + length (frames ps)) (records ++ ps))
        × (drop (pos + length (frames ps)) buf ≡ post)
  unfolding frames
  read_loop_records [] fuel buf pos records post h e hf = (
    fuel,
    omega (arith, length-drop pos buf, ap {B = ℕ} length e),
    rw (add-zero, append-nil),
    rw add-zero e,
  )
  read_loop_records (p ∷ ps) zero buf pos records post (hp, hps) e hf = absurd (
      omega (
        arith,
        length-drop pos buf,
        ap {B = ℕ} length e,
        length-append (frame p ++ frames ps) post,
        length-append (frame p) (frames ps),
        length-frame p,
      ))
  read_loop_records (p ∷ ps) (suc fuel) buf pos records post (hp, hps) e hf =
      let (fuel', enough, same, left) =
        read_loop_records ps fuel buf (pos + length (frame p)) (records ++ (p ∷ [])) post hps behind
          (omega (arith, hf, length-frame p)) in
      (
        fuel',
        enough,
        read_loop_record fuel buf pos records p (frames ps ++ post) hp laid
            ∙ same
            ∙ ap (λ (n : ℕ). read_loop crc32 fuel' buf n ((records ++ (p ∷ [])) ++ ps)) shift
            ∙ ap
                (λ (l : List (List ℕ)).
                  read_loop crc32 fuel' buf (pos + length (frame p ++ frames ps)) l)
                (append_assoc records (p ∷ []) ps),
        ap (λ (n : ℕ). drop n buf) (sym shift) ∙ left,
      )
    where
      laid : drop pos buf ≡ frame p ++ (frames ps ++ post)
      laid = e ∙ append_assoc (frame p) (frames ps) post

      behind : drop (pos + length (frame p)) buf ≡ frames ps ++ post
      behind =
          drop-drop pos (length (frame p)) buf
          ∙ ap (λ (l : List ℕ). drop (length (frame p)) l) laid
          ∙ drop_append (frame p) (frames ps ++ post)

      shift : pos + length (frame p) + length (frames ps) ≡ pos + length (frame p ++ frames ps)
      shift = omega (arith, length-append (frame p) (frames ps))

  -- The file after appending each payload.
  unfoldable pub append_all : List ℕ → List (List ℕ) → List ℕ
  append_all file [] = file
  append_all file (p ∷ ps) = append_all (append_record crc32 file p) ps

  pub append_all_lem :
      (file : List ℕ) (ps : List (List ℕ))
      → All IsRecord ps
      → append_all file ps ≡ file ++ frames ps
  unfolding append_all frames
  append_all_lem file [] h = sym (append-nil file)
  append_all_lem file (p ∷ ps) (hp, hps) =
      append_all_lem (append_record crc32 file p) ps hps
      ∙ ap (λ (l : List ℕ). l ++ frames ps) (append_record_lem file p hp)
      ∙ append_assoc file (frame p) (frames ps)

  -- The loop at the end of the file.
  pub read_loop_end :
      (fuel : ℕ) (buf : List ℕ) (pos : ℕ) (records : List (List ℕ))
      → drop pos buf ≡ []
      → read_loop crc32 fuel buf pos records ≡ (records, clean)
  unfolding read_loop
  read_loop_end zero buf pos records e = refl
  read_loop_end (suc fuel) buf pos records e = rw none_left
    where
      none_left : length buf - pos ≡ 0
      none_left = omega (arith, length-drop pos buf, ap {B = ℕ} length e)

  -- A header and a part of its payload, or a part of a header: the loop stops there.
  read_loop_torn :
      (fuel : ℕ) (buf : List ℕ) (pos : ℕ) (records : List (List ℕ)) (p front : List ℕ) (x : ℕ)
      (back : List ℕ)
      → IsRecord p
      → frame p ≡ front ++ (x ∷ back)
      → front ≢ []
      → drop pos buf ≡ front
      → length front ≤ fuel
      → read_loop crc32 fuel buf pos records ≡ (records, torn pos)
  unfolding read_loop
  read_loop_torn zero buf pos records p [] x back h cut some_bytes e hf = absurd (some_bytes refl)
  read_loop_torn zero buf pos records p (b ∷ front) x back h cut some_bytes e hf =
      absurd (omega arith)
  read_loop_torn (suc fuel) buf pos records p front x back h cut some_bytes e hf =
      elim (Bool-cases (ltb (length buf - pos) 8)) [
        | inl short ↦ rw short (ground (arith, left, nonempty))
        | inr full ↦
            let (m, split) = prefix_of head p front (x ∷ back) (unfold frame in cut) (long full) in
            rw
              (read_header_lem buf pos (length p) (crc32 p) m (omega (arith, h.bounded)) h.checksum
                (e ∙ split))
              (ground (arith, full, left, nonempty, cut_short, h.not_zero_fill))
      ]
    where
      head : List ℕ
      head = to_le_bytes 4 (length p) ++ to_le_bytes 4 (crc32 p)

      left : length buf - pos ≡ length front
      left = omega (arith, length-drop pos buf, ap {B = ℕ} length e)

      nonempty : length front ≢ 0
      nonempty z = some_bytes (length-zero front z)

      cut_short : length front + 1 + length back ≡ 8 + length p
      cut_short =
          omega (arith, length-frame p, ap {B = ℕ} length cut, length-append front (x ∷ back))

      long : ltb (length buf - pos) 8 ≡ false → length head ≤ length front
      long full = omega (arith, ltb-false _ _ full, left, header_bytes (length p) (crc32 p))

  -- After any appends and a crash in the middle of one more, recovery yields exactly the appended
  -- payloads and the length of the valid prefix; with no torn bytes the tail is clean.
  pub read_wal_after_crash :
      (ps : List (List ℕ)) (p front : List ℕ) (x : ℕ) (back : List ℕ)
      → All IsRecord ps
      → IsRecord p
      → append_record crc32 [] p ≡ front ++ (x ∷ back)
      → read_wal crc32 (append_all [] ps ++ front)
        ≡ (ps, torn_or_clean (length (append_all [] ps)) front)
  unfolding read_wal
  read_wal_after_crash ps p front x back hps hp cut =
      let (fuel, enough, same, left) =
        read_loop_records ps (length file) file 0 [] front hps
          (ap (λ (l : List ℕ). l ++ front) (append_all_lem [] ps hps)) (omega arith) in
      same ∙ finish front cut fuel enough left
    where
      file : List ℕ
      file = append_all [] ps ++ front

      finish :
          (front : List ℕ)
          → append_record crc32 [] p ≡ front ++ (x ∷ back)
          → (fuel : ℕ) → length front ≤ fuel
          → drop (0 + length (frames ps)) file ≡ front
          → read_loop crc32 fuel file (0 + length (frames ps)) ps
            ≡ (ps, torn_or_clean (length (append_all [] ps)) front)
      finish [] cut fuel enough left = read_loop_end fuel file (0 + length (frames ps)) ps left
      finish (b ∷ front) cut fuel enough left =
          read_loop_torn fuel file (0 + length (frames ps)) ps p (b ∷ front) x back hp
            (sym (append_record_lem [] p hp) ∙ cut) (λ z. cc) left enough
          ∙ ap (λ (n : ℕ). (ps, torn n))
              (omega (arith, ap {B = ℕ} length (append_all_lem [] ps hps)))
