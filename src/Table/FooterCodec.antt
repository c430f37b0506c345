-- ===== src/Table/FooterCodec.antt =====
-- crates/fluent31/src/table/mod.rs: the footer decodes to what was encoded, and to nothing else.
use mathlib.Core.List.{append_assoc, append-nil}
use fluent.Prelude.{
  ℕ, ◌≡◌, refl, ◌∙◌, sym, arith, List, [], ◌++◌, length, Bool, true, false, leb, ◌==◌, ◌&&◌, not,
  if◌then◌else◌, length-append,
}
use fluent.Result.{Result, ok, err, ◌>>=◌, corruption}
use fluent.Coding.{Reader, new, IsU64, IsU32, to_le_bytes}
use fluent.Coding.Reads.{rest, Reads, u32-Reads, u64-Reads, length-to_le_bytes}
use fluent.Table.{
  BlockRef, Footer, encode_footer, read_ref, read_footer, decode_footer, magic, footer_len,
}

abbrev pub IsRef : BlockRef → Type 0
IsRef r = IsU64 r.off × IsU32 r.len

-- The offsets and the lengths, and the format, fit their fields.
pub record IsFooter (f : Footer) : Type 0 where
  pub filter_fits : IsRef f.filter
  pub index_fits : IsRef f.index
  pub stats_fits : IsRef f.stats
  pub format_fits : IsU32 f.format

ref_bytes : BlockRef → List ℕ
ref_bytes r = to_le_bytes 8 r.off ++ to_le_bytes 4 r.len

-- The bytes of a footer that ends in some word.
pub footer_bytes : Footer → ℕ → List ℕ
unfolding ref_bytes
footer_bytes f word =
    ref_bytes f.filter
    ++ (ref_bytes f.index ++ (ref_bytes f.stats ++ (to_le_bytes 4 f.format ++ to_le_bytes 8 word)))

abbrev pub known_format : ℕ → Bool
known_format format = leb 1 format && leb format 2

encode_footer_lem : (f : Footer) → encode_footer f ≡ footer_bytes f magic
unfolding encode_footer footer_bytes ref_bytes
encode_footer_lem f = simp append_assoc

read_ref-Reads :
    (r : Reader) (b : BlockRef) (post : List ℕ)
    → IsRef b
    → rest r ≡ ref_bytes b ++ post
    → Reads (read_ref r) b post
unfolding read_ref ref_bytes
read_ref-Reads r b post (ho, hl) h =
    let (r1, e1, h1) =
      u64-Reads r b.off _ ho (h ∙ append_assoc (to_le_bytes 8 b.off) (to_le_bytes 4 b.len) post) in
    let (r2, e2, h2) = u32-Reads r1 b.len post hl h1 in (r2, rw (e1, e2), h2)

module _ (f : Footer) (word : ℕ) (h : IsFooter f) (hw : IsU64 word) where
  read_footer_lem :
      (r' : Reader) × (read_footer (new (footer_bytes f word))
        ≡ (if word == magic && known_format f.format then ok (f, r') else err corruption))
  unfolding read_footer footer_bytes
  read_footer_lem =
      let (r1, e1, h1) = read_ref-Reads (new (footer_bytes f word)) f.filter _ h.filter_fits refl in
      let (r2, e2, h2) = read_ref-Reads r1 f.index _ h.index_fits h1 in
      let (r3, e3, h3) = read_ref-Reads r2 f.stats _ h.stats_fits h2 in
      let (r4, e4, h4) = u32-Reads r3 f.format _ h.format_fits h3 in
      let (r5, e5, h5) = u64-Reads r4 word [] hw (h4 ∙ sym (append-nil (to_le_bytes 8 word))) in
      (r5, rw (e1, e2, e3, e4, e5) (checks r5))
    where
      checks :
          (r5 : Reader)
          → ◌≡◌ {A = Result (Footer × Reader)}
              (if not (word == magic)
                then err corruption
                else if not (leb 1 f.format && leb f.format 2)
                then err corruption
                else ok (f, r5))
              (if word == magic && known_format f.format then ok (f, r5) else err corruption)
      checks r5 = ground arith

  -- Bytes laid out as a footer decode to it exactly when their last word is the magic number and the
  -- format is a known one; all others are refused as corrupt.
  pub decode_footer_checked :
      decode_footer (footer_bytes f word)
      ≡ (if word == magic && known_format f.format then ok f else err corruption)
  unfolding decode_footer
  decode_footer_checked =
      let (r, e) = read_footer_lem in rw e (push (word == magic && known_format f.format) r)
    where
      push :
          (b : Bool) (r : Reader)
          → ((if b then ok (f, r) else err corruption) >>= λ (x : Footer × Reader). ok x.0)
            ≡ (if b then ok f else err corruption)
      push true r = refl
      push false r = refl

magic_fits : IsU64 magic
magic_fits = omega arith

-- A footer of a known format decodes to what was encoded, and takes 48 bytes.
pub decode-encode_footer :
    (f : Footer)
    → IsFooter f
    → known_format f.format ≡ true
    → (decode_footer (encode_footer f) ≡ ok f) × (length (encode_footer f) ≡ footer_len)
decode-encode_footer f h known = (
  rw (encode_footer_lem f) (decode_footer_checked f magic h magic_fits ∙ rw known refl),
  unfold encode_footer in simp (length-append, length-to_le_bytes),
)
