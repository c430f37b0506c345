-- ===== src/Types/Repr.antt =====
-- crates/fluent31/src/types.rs: the value representation decodes to what was encoded.
use mathlib.Core.List.{append_assoc, append-nil}
use native.Mathlib.Nat.{mod-eq_of_lt}
use fluent.Prelude.{
  ℕ, ◌-◌, ◌%◌, ◌^◌, ◌≡◌, refl, ap, ◌∙◌, arith, List, [], ◌∷◌, ◌++◌, le→ltb, ltb, false,
}
use fluent.Result.{ok}
use fluent.Coding.{Reader, new, IsU32, IsU64, put_uvarint}
use fluent.Coding.Reads.{rest, u8-Reads}
use fluent.Coding.Varint.{encoded, put_uvarint_append, uvarint-Reads}
use fluent.Types.{ValuePtr, inline, ptr, encode_inline, encode_ptr, decode_ptr, decode_repr}

abbrev pub IsPtr : ValuePtr → Type 0
IsPtr p = IsU64 p.file × IsU64 p.offset × IsU32 p.len

encode_ptr_lem :
    (p : ValuePtr)
    → encode_ptr p ≡ 1 ∷ (encoded p.file ++ (encoded p.offset ++ (encoded p.len ++ [])))
unfolding encode_ptr
encode_ptr_lem p =
    put_uvarint_append (put_uvarint (put_uvarint (1 ∷ []) p.file) p.offset) p.len
    ∙ ap (λ (l : List ℕ). l ++ encoded p.len)
        (put_uvarint_append (put_uvarint (1 ∷ []) p.file) p.offset
          ∙ ap (λ (l : List ℕ). l ++ encoded p.offset) (put_uvarint_append (1 ∷ []) p.file))
    ∙ simp (append_assoc, append-nil)

decode_ptr-Reads :
    (r : Reader) (p : ValuePtr)
    → IsPtr p
    → rest r ≡ encoded p.file ++ (encoded p.offset ++ (encoded p.len ++ []))
    → decode_ptr r ≡ ok (ptr p)
unfolding decode_ptr
decode_ptr-Reads r p (hf, ho, hl) h =
    let (r1, e1, h1) = uvarint-Reads r p.file (encoded p.offset ++ (encoded p.len ++ [])) hf h in
    let (r2, e2, h2) = uvarint-Reads r1 p.offset (encoded p.len ++ []) ho h1 in
    let (r3, e3, h3) = uvarint-Reads r2 p.len [] (omega arith) h2 in
    rw (e1, e2, e3, within, fits) refl
  where
    within : ltb (2 ^ 32 - 1) p.len ≡ false
    within = le→ltb _ _ (omega arith)

    fits : p.len % 2 ^ 32 ≡ p.len
    fits = mod-eq_of_lt hl

-- A value stored inline and a pointer into the value log both decode to what was encoded.
pub decode-encode_ptr : (p : ValuePtr) → IsPtr p → decode_repr (encode_ptr p) ≡ ok (ptr p)
unfolding decode_repr
decode-encode_ptr p hp =
    rw (encode_ptr_lem p)
      (let (r, e, h) = u8-Reads (new (1 ∷ tail)) 1 tail refl in rw e (decode_ptr-Reads r p hp h))
  where
    tail : List ℕ
    tail = encoded p.file ++ (encoded p.offset ++ (encoded p.len ++ []))

pub decode-encode_inline : (v : List ℕ) → decode_repr (encode_inline v) ≡ ok (inline v)
unfolding decode_repr encode_inline
decode-encode_inline v = let (r, e, h) = u8-Reads (new (0 ∷ v)) 0 v refl in rw e refl
