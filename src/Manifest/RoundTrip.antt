-- ===== src/Manifest/RoundTrip.antt =====
-- crates/fluent31/src/manifest.rs: a manifest decodes to what was encoded, in each of the three formats.
use mathlib.Core.List.{append_assoc, append-nil}
use fluent.Prelude.{
  subst, ℕ, ◌+◌, ◌-◌, ◌≤◌, ◌≡◌, refl, ap, ◌∙◌, sym, arith, ltb, leb, ◌==◌, not, ◌&&◌, ◌||◌, true,
  false, Bool, Bool-cases, inl, inr, if◌then◌else◌, List, [], ◌∷◌, ◌++◌, length, take_append,
  drop_append, length-append, Option, none, some, le→ltb, ==_iff,
}
use fluent.Result.{ok}
use fluent.Coding.{Reader, new, IsU64, IsU32, u64, put_u64, put_u32, to_le_bytes, from_le_bytes}
use fluent.Coding.Reads.{
  rest, Reads, Reads-bind, u32-Reads, u64-Reads, length-to_le_bytes, from_le-to_le_bytes,
}
use fluent.Manifest.{
  ManifestData, PinInfo, manifest_magic, format_base, format_identity, format_pins, format_of,
  is_nil, is_some, put_structure, put_sections, put_list, put_run, put_pair, put_pin, put_identity,
  put_fork, read_list, read_run, read_pair, read_pin, read_identities, read_pins, read_sections,
  read_body, encode, decode,
}
use fluent.Identity.{StoreIdentity, PendingFork}
use fluent.Manifest.Framed.{Framed, u64-Framed, AreAll, list-Framed}
use fluent.Manifest.Sections.{
  IsRun, IsPair, IsIdentity, IsFork, IsPin, IsRun-Framed, IsPair-Framed, IsPin-Framed,
  IsIdentity-Framed, IsFork-Framed,
}

put_u32_append : (p : List ℕ) (v : ℕ) → put_u32 p v ≡ p ++ to_le_bytes 4 v
unfolding put_u32
put_u32_append p v = refl

put_u64_append : (p : List ℕ) (v : ℕ) → put_u64 p v ≡ p ++ to_le_bytes 8 v
unfolding put_u64
put_u64_append p v = refl

-- The integers of a manifest fit in a u64, its lists in a vector, its names are UTF-8.
pub record IsManifest (m : ManifestData) : Type 0 where
  pub next_file_id : IsU64 m.next_file_id
  pub last_flushed_seqno : IsU64 m.last_flushed_seqno
  pub wal_floor : IsU64 m.wal_floor
  pub levels : AreAll (AreAll IsRun) m.levels
  pub vlog_live : AreAll IsU64 m.vlog_live
  pub vlog_head : IsU64 m.vlog_head
  pub vlog_retired : AreAll IsPair m.vlog_retired
  pub discard : AreAll IsPair m.discard
  pub identity : IsIdentity m.identity
  pub pending_fork : IsFork m.pending_fork
  pub pins : AreAll IsPin m.pins

levels-Framed :
    Framed (put_list (put_list put_run)) (read_list (read_list read_run)) (AreAll (AreAll IsRun))
levels-Framed = list-Framed _ _ _ (list-Framed put_run read_run IsRun IsRun-Framed)

files-Framed : Framed (put_list put_u64) (read_list u64) (AreAll IsU64)
files-Framed = list-Framed put_u64 u64 IsU64 u64-Framed

pairs-Framed : Framed (put_list put_pair) (read_list read_pair) (AreAll IsPair)
pairs-Framed = list-Framed put_pair read_pair IsPair IsPair-Framed

pins-Framed : Framed (put_list put_pin) (read_list read_pin) (AreAll IsPin)
pins-Framed = list-Framed put_pin read_pin IsPin IsPin-Framed

-- A section, where the format has it.
identities_bytes : Bool → ManifestData → List ℕ
identities_bytes true m =
    IsIdentity-Framed.bytes_of m.identity ++ IsFork-Framed.bytes_of m.pending_fork
identities_bytes false m = []

pins_bytes : Bool → ManifestData → List ℕ
pins_bytes true m = pins-Framed.bytes_of m.pins
pins_bytes false m = []

abbrev has_identities : ManifestData → Bool
has_identities m = leb format_identity (format_of m)

abbrev has_pins : ManifestData → Bool
has_pins m = leb format_pins (format_of m)

structure_bytes : ManifestData → List ℕ
structure_bytes m =
    to_le_bytes 8 m.next_file_id
    ++ (to_le_bytes 8 m.last_flushed_seqno
        ++ (to_le_bytes 8 m.wal_floor
            ++ (levels-Framed.bytes_of m.levels
                ++ (files-Framed.bytes_of m.vlog_live
                    ++ (to_le_bytes 8 m.vlog_head
                        ++ (pairs-Framed.bytes_of m.vlog_retired
                            ++ pairs-Framed.bytes_of m.discard))))))

put_structure_append :
    (p : List ℕ) (m : ManifestData) → IsManifest m → put_structure p m ≡ p ++ structure_bytes m
unfolding put_structure put_u64 structure_bytes
put_structure_append p m h =
    pairs-Framed.puts _ m.discard h.discard
    ∙ ap (λ (l : List ℕ). l ++ pairs-Framed.bytes_of m.discard)
        (pairs-Framed.puts _ m.vlog_retired h.vlog_retired
          ∙ ap
              (λ (l : List ℕ).
                (l ++ to_le_bytes 8 m.vlog_head) ++ pairs-Framed.bytes_of m.vlog_retired)
              (files-Framed.puts _ m.vlog_live h.vlog_live
                ∙ ap (λ (l : List ℕ). l ++ files-Framed.bytes_of m.vlog_live)
                    (levels-Framed.puts _ m.levels h.levels)))
    ∙ simp append_assoc

sections_bytes : ManifestData → List ℕ
sections_bytes m =
    structure_bytes m ++ (identities_bytes (has_identities m) m ++ pins_bytes (has_pins m) m)

abbrev format_from : List PinInfo → Option StoreIdentity → Option PendingFork → ℕ
format_from pins identity fork =
    if not (is_nil pins)
    then format_pins
    else if is_some identity || is_some fork
    then format_identity
    else format_base

lacks_identities :
    (pins : List PinInfo) (identity : Option StoreIdentity) (fork : Option PendingFork)
    → leb format_identity (format_from pins identity fork) ≡ false
    → (identity ≡ none) × (fork ≡ none)
lacks_identities [] none none e = (refl, refl)
lacks_identities [] none (some f) e = absurd (cc)
lacks_identities [] (some i) fork e = absurd (cc)
lacks_identities (x ∷ pins) identity fork e = absurd (cc)

lacks_pins :
    (pins : List PinInfo) (identity : Option StoreIdentity) (fork : Option PendingFork)
    → leb format_pins (format_from pins identity fork) ≡ false
    → pins ≡ []
lacks_pins [] identity fork e = refl
lacks_pins (x ∷ pins) identity fork e = absurd (cc)

module _ (m : ManifestData) (h : IsManifest m) where
  put_identities_append :
      (b : Bool) (p : List ℕ)
      → (if b then put_fork (put_identity p m.identity) m.pending_fork else p)
        ≡ p ++ identities_bytes b m
  unfolding identities_bytes
  put_identities_append true p =
      IsFork-Framed.puts _ m.pending_fork h.pending_fork
      ∙ ap (λ (l : List ℕ). l ++ IsFork-Framed.bytes_of m.pending_fork)
          (IsIdentity-Framed.puts p m.identity h.identity)
      ∙ append_assoc p (IsIdentity-Framed.bytes_of m.identity)
          (IsFork-Framed.bytes_of m.pending_fork)
  put_identities_append false p = sym (append-nil p)

  put_pins_append :
      (b : Bool) (p : List ℕ) → (if b then put_list put_pin p m.pins else p) ≡ p ++ pins_bytes b m
  unfolding pins_bytes
  put_pins_append true p = pins-Framed.puts p m.pins h.pins
  put_pins_append false p = sym (append-nil p)

  put_sections_append : (p : List ℕ) → put_sections p m ≡ p ++ sections_bytes m
  unfolding put_sections
  put_sections_append p =
      put_pins_append (has_pins m) _
      ∙ ap (λ (l : List ℕ). l ++ pins_bytes (has_pins m) m)
          (put_identities_append (has_identities m) (put_structure p m)
            ∙ ap (λ (l : List ℕ). l ++ identities_bytes (has_identities m) m)
                (put_structure_append p m h))
      ∙ unfold sections_bytes in simp append_assoc

  read_identities-Reads :
      (r : Reader) (post : List ℕ)
      → rest r ≡ identities_bytes (has_identities m) m ++ post
      → Reads (read_identities (format_of m) r) (m.identity, m.pending_fork) post
  unfolding read_identities format_of
  read_identities-Reads r post e = elim (Bool-cases (has_identities m)) [
    | inl there ↦
        let laid = λ (b : Bool). rest r ≡ identities_bytes b m ++ post in
        let e0 : laid true = subst laid there e in
        let (r1, e1, h1) =
          IsIdentity-Framed.reads r m.identity (IsFork-Framed.bytes_of m.pending_fork ++ post)
            h.identity (unfold identities_bytes in e0 ∙ simp append_assoc) in
        let (r2, e2, h2) = IsFork-Framed.reads r1 m.pending_fork post h.pending_fork h1 in
        (r2, rw (there, e1, e2) refl, h2)
    | inr absent ↦
        let (no_identity, no_fork) = lacks_identities m.pins m.identity m.pending_fork absent in
        (r, rw (absent, no_identity, no_fork) refl, unfold identities_bytes in rw absent at e)
  ]

  read_pins-Reads :
      (r : Reader) (post : List ℕ)
      → rest r ≡ pins_bytes (has_pins m) m ++ post
      → Reads (read_pins (format_of m) r) m.pins post
  unfolding read_pins format_of
  read_pins-Reads r post e = elim (Bool-cases (has_pins m)) [
    | inl there ↦
        let laid = λ (b : Bool). rest r ≡ pins_bytes b m ++ post in
        let e0 : laid true = subst laid there e in
        let (r1, e1, h1) = pins-Framed.reads r m.pins post h.pins (unfold pins_bytes in e0) in
        (r1, rw (there, e1) refl, h1)
    | inr absent ↦ (
      r,
      rw (absent, lacks_pins m.pins m.identity m.pending_fork absent) refl,
      unfold pins_bytes in rw absent at e,
    )
  ]

  read_sections-Reads :
      (r : Reader) (post : List ℕ)
      → rest r ≡ sections_bytes m ++ post
      → Reads (read_sections (format_of m) r) m post
  unfolding read_sections sections_bytes structure_bytes
  read_sections-Reads r post e =
      Reads-bind (u64 r) _ m.next_file_id _ m post
        (u64-Reads r m.next_file_id _ h.next_file_id (e ∙ simp append_assoc))
        λ r1 h1.
          Reads-bind (u64 r1) _ m.last_flushed_seqno _ m post
            (u64-Reads r1 m.last_flushed_seqno _ h.last_flushed_seqno h1)
            λ r2 h2.
              Reads-bind (u64 r2) _ m.wal_floor _ m post (u64-Reads r2 m.wal_floor _ h.wal_floor h2)
                λ r3 h3.
                  Reads-bind (read_list (read_list read_run) r3) _ m.levels _ m post
                    (levels-Framed.reads r3 m.levels _ h.levels h3)
                    λ r4 h4.
                      Reads-bind (read_list u64 r4) _ m.vlog_live _ m post
                        (files-Framed.reads r4 m.vlog_live _ h.vlog_live h4)
                        λ r5 h5.
                          Reads-bind (u64 r5) _ m.vlog_head _ m post
                            (u64-Reads r5 m.vlog_head _ h.vlog_head h5)
                            λ r6 h6.
                              Reads-bind (read_list read_pair r6) _ m.vlog_retired _ m post
                                (pairs-Framed.reads r6 m.vlog_retired _ h.vlog_retired h6)
                                λ r7 h7.
                                  Reads-bind (read_list read_pair r7) _ m.discard _ m post
                                    (pairs-Framed.reads r7 m.discard _ h.discard h7)
                                    λ r8 h8.
                                      Reads-bind (read_identities (format_of m) r8) _
                                        (m.identity, m.pending_fork) _ m post
                                        (read_identities-Reads r8
                                          (pins_bytes (has_pins m) m ++ post) h8)
                                        λ r9 h9.
                                          Reads-bind (read_pins (format_of m) r9) _ m.pins post m
                                            post (read_pins-Reads r9 post h9)
                                            λ r10 h10. (r10, refl, h10)

  format_known : (1 ≤ format_of m) × (format_of m ≤ 3)
  unfolding format_of
  format_known = ground arith

  known : (leb format_base (format_of m) && leb (format_of m) format_pins) ≡ true
  known = ground (arith, format_known)

  read_body-Reads :
      (r : Reader)
      → rest r ≡ to_le_bytes 8 manifest_magic ++ (to_le_bytes 4 (format_of m) ++ sections_bytes m)
      → read_body r ≡ ok m
  unfolding read_body
  read_body-Reads r e =
      let (r1, e1, h1) = u64-Reads r manifest_magic _ (omega arith) e in
      let (r2, e2, h2) = u32-Reads r1 (format_of m) _ (omega (arith, format_known)) h1 in
      let (r3, e3, h3) = read_sections-Reads r2 [] (h2 ∙ sym (append-nil _)) in
      rw (e1, e2, known, e3) refl

  body_bytes : List ℕ
  body_bytes = to_le_bytes 8 manifest_magic ++ (to_le_bytes 4 (format_of m) ++ sections_bytes m)

  length-body_bytes : 12 ≤ length body_bytes
  unfolding body_bytes
  length-body_bytes = omega (
    arith,
    length-append (to_le_bytes 8 manifest_magic) _,
    length-append (to_le_bytes 4 (format_of m)) (sections_bytes m),
    length-to_le_bytes 8 manifest_magic,
    length-to_le_bytes 4 (format_of m),
  )

  encode_lem :
      (crc32 : List ℕ → ℕ) → encode crc32 m ≡ body_bytes ++ to_le_bytes 4 (crc32 body_bytes)
  unfolding encode
  encode_lem crc32 =
      ap (λ (l : List ℕ). put_u32 l (crc32 l)) whole ∙ put_u32_append body_bytes (crc32 body_bytes)
    where
      whole : put_u32 (put_u64 [] manifest_magic) (format_of m) ++ put_sections [] m ≡ body_bytes
      whole =
          unfold body_bytes in
          ap (λ (l : List ℕ). l ++ put_sections [] m)
            (put_u32_append (put_u64 [] manifest_magic) (format_of m)
              ∙ ap (λ (l : List ℕ). l ++ to_le_bytes 4 (format_of m))
                  (put_u64_append [] manifest_magic))
          ∙ ap (λ (l : List ℕ). (to_le_bytes 8 manifest_magic ++ to_le_bytes 4 (format_of m)) ++ l)
              (put_sections_append [])
          ∙ append_assoc (to_le_bytes 8 manifest_magic) (to_le_bytes 4 (format_of m))
              (sections_bytes m)

decode_checked :
    (crc32 : List ℕ → ℕ) (body : List ℕ)
    → IsU32 (crc32 body)
    → 12 ≤ length body
    → decode crc32 (body ++ to_le_bytes 4 (crc32 body)) ≡ read_body (new body)
unfolding decode
decode_checked crc32 body word long =
    rw (fits, end, take_append body _, drop_append body _, back) refl
  where
    whole : List ℕ
    whole = body ++ to_le_bytes 4 (crc32 body)

    size : length whole ≡ length body + 4
    size =
        length-append body (to_le_bytes 4 (crc32 body))
        ∙ ap (λ (n : ℕ). length body + n) (length-to_le_bytes 4 (crc32 body))

    fits : ltb (length whole) 16 ≡ false
    fits = le→ltb _ _ (omega (arith, size))

    end : length whole - 4 ≡ length body
    end = omega (arith, size)

    back : (crc32 body == from_le_bytes (to_le_bytes 4 (crc32 body))) ≡ true
    back = (==_iff _ _).1 (sym (from_le-to_le_bytes 4 (crc32 body) word))

-- A manifest decodes to what was encoded, whichever of the three formats carries it.
pub decode-encode_manifest :
    (crc32 : List ℕ → ℕ) (m : ManifestData)
    → ((l : List ℕ) → IsU32 (crc32 l))
    → IsManifest m
    → decode crc32 (encode crc32 m) ≡ ok m
decode-encode_manifest crc32 m word h =
    ap (decode crc32) (encode_lem m h crc32)
    ∙ decode_checked crc32 (body_bytes m h) (word _) (length-body_bytes m h)
    ∙ read_body-Reads m h (new (body_bytes m h)) (unfold body_bytes in refl)
