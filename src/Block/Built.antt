-- ===== src/Block/Built.antt =====
-- crates/fluent31/src/block.rs: a built block parses, and holds the entries that were added, in order.
use mathlib.Core.List.{append_assoc, append-nil}
use native.Mathlib.Nat.{mod-eq_of_lt, zero-add}
use fluent.Prelude.{
  ℕ, suc, ◌+◌, ◌-◌, ◌*◌, ◌%◌, ◌^◌, ◌≤◌, ◌≡◌, refl, ap, ◌∙◌, sym, arith, leb, le→ltb, false, List,
  [], ◌∷◌, ◌++◌, length, take, drop, length-append, drop_append, take_append, drop-drop, All,
}
use fluent.Result.{ok}
use fluent.Coding.{Reader, new, IsU64, IsU32, put_u32, put_uvarint, from_le_bytes, to_le_bytes}
use fluent.Coding.Reads.{rest, Reads, bytes-Reads, length-to_le_bytes, from_le-to_le_bytes}
use fluent.Coding.Varint.{encoded, put_uvarint_append, uvarint-Reads}
use fluent.Types.{trailer_len}
use fluent.Block.{
  BlockBuilder, empty_builder, add, put_offsets, finish, Block, parse, entry_off, read_entry, entry,
}

abbrev pub Entry : Type 0
Entry = List ℕ × List ℕ

-- The bytes of one entry, and of a run of them.
unfoldable pub entry_bytes : Entry → List ℕ
entry_bytes (ikey, repr) = encoded (length ikey) ++ (encoded (length repr) ++ (ikey ++ repr))

unfoldable pub region : List Entry → List ℕ
unfolding entry_bytes
region [] = []
region (e ∷ es) = entry_bytes e ++ region es

-- The offsets of a run of entries that starts at `p`.
pub offsets_from : ℕ → List Entry → List ℕ
offsets_from p [] = []
offsets_from p (e ∷ es) = p ∷ offsets_from (p + length (entry_bytes e)) es

words : List ℕ → List ℕ
words [] = []
words (w ∷ ws) = to_le_bytes 4 w ++ words ws

-- The builder after adding each entry.
unfoldable pub add_all : BlockBuilder → List Entry → BlockBuilder
add_all b [] = b
add_all b ((ikey, repr) ∷ es) = add_all (add b ikey repr) es

add-buf : (b : BlockBuilder) (e : Entry) → (add b e.0 e.1).buf ≡ b.buf ++ entry_bytes e
unfolding add entry_bytes
add-buf b (ikey, repr) =
    ap (λ (l : List ℕ). (l ++ ikey) ++ repr)
      (put_uvarint_append (put_uvarint b.buf (length ikey)) (length repr)
        ∙ ap (λ (l : List ℕ). l ++ encoded (length repr)) (put_uvarint_append b.buf (length ikey)))
    ∙ simp append_assoc

add_all-buf : (b : BlockBuilder) (es : List Entry) → (add_all b es).buf ≡ b.buf ++ region es
unfolding add_all region
add_all-buf b [] = sym (append-nil b.buf)
add_all-buf b ((ikey, repr) ∷ es) =
    add_all-buf (add b ikey repr) es
    ∙ ap (λ (l : List ℕ). l ++ region es) (add-buf b (ikey, repr))
    ∙ append_assoc b.buf (entry_bytes (ikey, repr)) (region es)

add_all-offsets :
    (b : BlockBuilder) (es : List Entry)
    → IsU32 (length b.buf + length (region es))
    → (add_all b es).offsets ≡ b.offsets ++ offsets_from (length b.buf) es
unfolding add_all region offsets_from
add_all-offsets b [] h = sym (append-nil b.offsets)
add_all-offsets b ((ikey, repr) ∷ es) h =
    add_all-offsets (add b ikey repr) es (omega (arith, h, sizes, grown))
    ∙ ap (λ (l : List ℕ). l ++ offsets_from (length (add b ikey repr).buf) es) first
    ∙ append_assoc b.offsets (length b.buf ∷ []) (offsets_from (length (add b ikey repr).buf) es)
    ∙ ap (λ (n : ℕ). b.offsets ++ (length b.buf ∷ offsets_from n es)) grown
  where
    sizes :
        length (entry_bytes (ikey, repr) ++ region es)
        ≡ length (entry_bytes (ikey, repr)) + length (region es)
    sizes = length-append (entry_bytes (ikey, repr)) (region es)

    grown : length (add b ikey repr).buf ≡ length b.buf + length (entry_bytes (ikey, repr))
    grown = ap length (add-buf b (ikey, repr)) ∙ length-append b.buf (entry_bytes (ikey, repr))

    first : (add b ikey repr).offsets ≡ b.offsets ++ (length b.buf ∷ [])
    first =
        unfold add in ap (λ (n : ℕ). b.offsets ++ (n ∷ [])) (mod-eq_of_lt (omega (arith, h, sizes)))

put_offsets_lem : (out offsets : List ℕ) → put_offsets out offsets ≡ out ++ words offsets
unfolding put_offsets words put_u32
put_offsets_lem out [] = sym (append-nil out)
put_offsets_lem out (off ∷ offsets) =
    put_offsets_lem (out ++ to_le_bytes 4 off) offsets
    ∙ append_assoc out (to_le_bytes 4 off) (words offsets)

pub length-offsets_from : (p : ℕ) (es : List Entry) → length (offsets_from p es) ≡ length es
unfolding offsets_from
length-offsets_from p [] = refl
length-offsets_from p (e ∷ es) = ap suc (length-offsets_from (p + length (entry_bytes e)) es)

length-words : (ws : List ℕ) → length (words ws) ≡ length ws * 4
unfolding words
length-words [] = refl
length-words (w ∷ ws) =
    omega
      (arith, length-append (to_le_bytes 4 w) (words ws), length-to_le_bytes 4 w, length-words ws)

-- The payload that the builder writes for some entries.
abbrev pub built : List Entry → List ℕ
built es = (finish (add_all empty_builder es)).0

-- Keys carry a trailer, lengths are those of Rust vectors, and the block keeps within 32 bits.
pub record IsEntry (e : Entry) : Type 0 where
  pub has_trailer : trailer_len ≤ length e.0
  pub key_fits : IsU64 (length e.0)
  pub repr_fits : IsU64 (length e.1)

pub record Fits (es : List Entry) : Type 0 where
  pub are_entries : All IsEntry es
  pub region_fits : IsU32 (length (region es))
  pub count_fits : IsU32 (length es)

trailer : List Entry → List ℕ
trailer es = words (offsets_from 0 es) ++ to_le_bytes 4 (length es)

built_lem : (es : List Entry) → Fits es → built es ≡ region es ++ trailer es
unfolding finish put_u32 trailer
built_lem es h =
    ap (λ (n : ℕ). put_offsets b.buf b.offsets ++ to_le_bytes 4 n) count
    ∙ ap (λ (l : List ℕ). l ++ to_le_bytes 4 (length es)) laid
    ∙ append_assoc (region es) (words (offsets_from 0 es)) (to_le_bytes 4 (length es))
  where
    b : BlockBuilder
    b = add_all empty_builder es

    offsets : b.offsets ≡ offsets_from 0 es
    offsets = add_all-offsets empty_builder es (omega (arith, h.region_fits))

    count : length b.offsets % 2 ^ 32 ≡ length es
    count =
        ap (λ (l : List ℕ). length l % 2 ^ 32) offsets
        ∙ ap (λ (n : ℕ). n % 2 ^ 32) (length-offsets_from 0 es)
        ∙ mod-eq_of_lt h.count_fits

    laid : put_offsets b.buf b.offsets ≡ region es ++ words (offsets_from 0 es)
    laid =
        put_offsets_lem b.buf b.offsets
        ∙ ap (λ (l : List ℕ). b.buf ++ words l) offsets
        ∙ ap (λ (l : List ℕ). l ++ words (offsets_from 0 es)) (add_all-buf empty_builder es)

-- The view of a built block.
abbrev pub block_of : List Entry → Block
block_of es = record { data_bytes = built es; entries_end = length (region es); count = length es }

length-trailer : (es : List Entry) → length (trailer es) ≡ length es * 4 + 4
unfolding trailer
length-trailer es = omega (
  arith,
  length-append (words (offsets_from 0 es)) (to_le_bytes 4 (length es)),
  length-words (offsets_from 0 es),
  length-offsets_from 0 es,
  length-to_le_bytes 4 (length es),
)

length-built :
    (es : List Entry) → Fits es → length (built es) ≡ length (region es) + (length es * 4 + 4)
length-built es h =
    ap length (built_lem es h)
    ∙ length-append (region es) (trailer es)
    ∙ ap (λ (n : ℕ). length (region es) + n) (length-trailer es)

-- A built block parses to its entries' region and count.
pub parse-built : (es : List Entry) → Fits es → parse (built es) ≡ ok (block_of es)
unfolding parse
parse-built es h = rw counted (ground (arith, len))
  where
    len : length (built es) ≡ length (region es) + (length es * 4 + 4)
    len = length-built es h

    front : List ℕ
    front = region es ++ words (offsets_from 0 es)

    whole : built es ≡ front ++ to_le_bytes 4 (length es)
    whole =
        built_lem es h
        ∙ unfold trailer in
          sym (append_assoc (region es) (words (offsets_from 0 es)) (to_le_bytes 4 (length es)))

    before : length (built es) - 4 ≡ length front
    before = omega (
      arith,
      ap {B = ℕ} length whole,
      length-append front (to_le_bytes 4 (length es)),
      length-to_le_bytes 4 (length es),
    )

    counted : from_le_bytes (drop (length (built es) - 4) (built es)) ≡ length es
    counted =
        ap (λ (n : ℕ). from_le_bytes (drop n (built es))) before
        ∙ ap (λ (l : List ℕ). from_le_bytes (drop (length front) l)) whole
        ∙ ap from_le_bytes (drop_append front (to_le_bytes 4 (length es)))
        ∙ from_le-to_le_bytes 4 (length es) (omega (arith, h.count_fits))

-- The offset at an index is where the entry starts.
drop-words :
    (p : ℕ) (before : List Entry) (e : Entry) (after : List Entry) (post : List ℕ)
    → drop (length before * 4) (words (offsets_from p (before ++ (e ∷ after))) ++ post)
      ≡ to_le_bytes 4 (p + length (region before))
        ++ (words (offsets_from (p + length (region before) + length (entry_bytes e)) after)
            ++ post)
unfolding words offsets_from region
drop-words p [] e after post =
    ap
      (λ (n : ℕ).
        (to_le_bytes 4 n ++ words (offsets_from (n + length (entry_bytes e)) after)) ++ post)
      zero_more
    ∙ append_assoc (to_le_bytes 4 (p + 0))
        (words (offsets_from (p + 0 + length (entry_bytes e)) after)) post
  where
    zero_more : p ≡ p + 0
    zero_more = omega arith
drop-words p (b ∷ before) e after post =
    ap (λ (n : ℕ). drop n (words (offsets_from p (b ∷ (before ++ (e ∷ after)))) ++ post)) split
    ∙ drop-drop 4 (length before * 4) _
    ∙ ap (λ (l : List ℕ). drop (length before * 4) l) past
    ∙ drop-words q before e after post
    ∙ ap
        (λ (n : ℕ).
          to_le_bytes 4 n ++ (words (offsets_from (n + length (entry_bytes e)) after) ++ post))
        shift
  where
    q : ℕ
    q = p + length (entry_bytes b)

    ws : List ℕ
    ws = words (offsets_from q (before ++ (e ∷ after)))

    split : suc (length before) * 4 ≡ 4 + length before * 4
    split = omega arith

    past : drop 4 ((to_le_bytes 4 p ++ ws) ++ post) ≡ ws ++ post
    past =
        ap (λ (l : List ℕ). drop 4 l) (append_assoc (to_le_bytes 4 p) ws post)
        ∙ ap (λ (n : ℕ). drop n (to_le_bytes 4 p ++ (ws ++ post))) (sym (length-to_le_bytes 4 p))
        ∙ drop_append (to_le_bytes 4 p) (ws ++ post)

    shift : q + length (region before) ≡ p + length (region (b ∷ before))
    shift = omega (arith, length-append (entry_bytes b) (region before))

region-append : (xs ys : List Entry) → region (xs ++ ys) ≡ region xs ++ region ys
unfolding region
region-append [] ys = refl
region-append (x ∷ xs) ys =
    ap (λ (l : List ℕ). entry_bytes x ++ l) (region-append xs ys)
    ∙ sym (append_assoc (entry_bytes x) (region xs) (region ys))

read_entry-Reads :
    (r : Reader) (e : Entry) (post : List ℕ)
    → IsEntry e
    → rest r ≡ entry_bytes e ++ post
    → Reads (read_entry r) e post
unfolding read_entry entry_bytes
read_entry-Reads r (ikey, repr) post h laid =
    let (r1, e1, h1) = uvarint-Reads r (length ikey) _ h.key_fits (laid ∙ simp append_assoc) in
    let (r2, e2, h2) = uvarint-Reads r1 (length repr) _ h.repr_fits h1 in
    let (r3, e3, h3) = bytes-Reads r2 ikey (repr ++ post) h2 in
    let (r4, e4, h4) = bytes-Reads r3 repr post h3 in
    (r4, rw (e1, e2, le→ltb (length ikey) 8 h.has_trailer, e3, e4), h4)

module _ (before : List Entry) (e : Entry) (after : List Entry)
    (h : Fits (before ++ (e ∷ after))) where
  es : List Entry
  es = before ++ (e ∷ after)

  laid_out : built es ≡ region before ++ (region (e ∷ after) ++ trailer es)
  unfolding es
  laid_out =
      built_lem es h
      ∙ ap (λ (l : List ℕ). l ++ trailer es) (region-append before (e ∷ after))
      ∙ append_assoc (region before) (region (e ∷ after)) (trailer es)

  length-region : length (region es) ≡ length (region before) + length (region (e ∷ after))
  unfolding es
  length-region =
      ap length (region-append before (e ∷ after))
      ∙ length-append (region before) (region (e ∷ after))

  entry_off-built : entry_off (block_of es) (length before) ≡ length (region before)
  unfolding entry_off es trailer
  entry_off-built =
      ap (λ (l : List ℕ). from_le_bytes (take 4 l)) words_at
      ∙ ap from_le_bytes four
      ∙ from_le-to_le_bytes 4 (length (region before)) (omega (arith, h.region_fits, length-region))
    where
      later : List ℕ
      later =
          words (offsets_from (0 + length (region before) + length (entry_bytes e)) after)
          ++ to_le_bytes 4 (length es)

      words_at :
          drop (length (region es) + length before * 4) (built es)
          ≡ to_le_bytes 4 (0 + length (region before)) ++ later
      words_at =
          drop-drop (length (region es)) (length before * 4) (built es)
          ∙ ap (λ (l : List ℕ). drop (length before * 4) (drop (length (region es)) l))
              (built_lem es h)
          ∙ ap (λ (l : List ℕ). drop (length before * 4) l) (drop_append (region es) (trailer es))
          ∙ drop-words 0 before e after (to_le_bytes 4 (length es))

      four :
          take 4 (to_le_bytes 4 (0 + length (region before)) ++ later)
          ≡ to_le_bytes 4 (length (region before))
      four =
          ap (λ (n : ℕ). take n (to_le_bytes 4 (0 + length (region before)) ++ later))
            (sym (length-to_le_bytes 4 (0 + length (region before))))
          ∙ take_append (to_le_bytes 4 (0 + length (region before))) later
          ∙ ap (to_le_bytes 4) (zero-add (length (region before)))

  slice :
      take (length (region es) - length (region before)) (drop (length (region before)) (built es))
      ≡ region (e ∷ after)
  slice =
      ap
        (λ (l : List ℕ).
          take (length (region es) - length (region before)) (drop (length (region before)) l))
        laid_out
      ∙ ap (λ (l : List ℕ). take (length (region es) - length (region before)) l)
          (drop_append (region before) (region (e ∷ after) ++ trailer es))
      ∙ ap (λ (n : ℕ). take n (region (e ∷ after) ++ trailer es)) size
      ∙ take_append (region (e ∷ after)) (trailer es)
    where
      size : length (region es) - length (region before) ≡ length (region (e ∷ after))
      size = omega (arith, length-region)

  -- Entry `i` of a built block is the `i`-th that was added.
  pub entry-built : IsEntry e → entry (block_of (before ++ (e ∷ after))) (length before) ≡ ok e
  unfolding entry es
  entry-built he =
      let (r, read, _) =
        read_entry-Reads (new (region (e ∷ after))) e (region after) he (unfold region in refl) in
      rw (entry_off-built, inside, slice, read)
    where
      inside : leb (length (region es)) (length (region before)) ≡ false
      inside = ground (arith, length-region, some_bytes)
        where
          some_bytes : 8 ≤ length (region (e ∷ after))
          some_bytes =
              unfold region entry_bytes in
              omega (
                arith,
                he.has_trailer,
                length-append (entry_bytes e) (region after),
                length-append (encoded (length e.0)) (encoded (length e.1) ++ (e.0 ++ e.1)),
                length-append (encoded (length e.1)) (e.0 ++ e.1),
                length-append e.0 e.1,
              )
