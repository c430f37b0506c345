-- ===== src/Manifest/Sections.antt =====
-- crates/fluent31/src/manifest.rs: the sections of a manifest read back as they were written.
use mathlib.Core.List.{append_assoc}
use fluent.Prelude.{ℕ, ◌≡◌, refl, ap, ◌∙◌, true, List, [], ◌∷◌, ◌++◌, length, Option, none, some}
use fluent.Coding.{Reader, IsU64, bytes, u64, put_u64, to_le_bytes}
use fluent.Coding.Reads.{rest, Reads, u8-Reads, u64-Reads, bytes-Reads}
use fluent.Coding.Varint.{encoded, put_len_prefixed_append, len_prefixed-Reads}
use fluent.Identity.{StoreIdentity, PendingFork, instance_id_len}
use fluent.Manifest.{
  RunMeta, PinInfo, put_run, put_pair, put_parent, put_identity, put_fork, put_pin, put_list,
  read_run, read_pair, read_name, read_parent, read_identity, read_fork, read_pin, read_list,
}
use fluent.Manifest.Utf8.{is_utf8}
use fluent.Manifest.Framed.{Framed, u64-Framed, AreAll, list-Framed}

abbrev pub IsRun : RunMeta → Type 0
IsRun run = IsU64 run.id × AreAll IsU64 run.table_ids

abbrev pub IsPair : ℕ × ℕ → Type 0
IsPair (a, b) = IsU64 a × IsU64 b

-- A string, and a 16-byte id.
abbrev pub IsName : List ℕ → Type 0
IsName name = IsU64 (length name) × (is_utf8 name ≡ true)

abbrev pub IsId : List ℕ → Type 0
IsId id = length id ≡ instance_id_len

abbrev pub IsParent : Option (List ℕ × ℕ) → Type 0
IsParent none = Unit
IsParent (some (pid, cut)) = IsId pid × IsU64 cut

abbrev pub IsIdentity : Option StoreIdentity → Type 0
IsIdentity none = Unit
IsIdentity (some id) = IsName id.name × IsId id.instance_id × IsParent id.parent

abbrev pub IsFork : Option PendingFork → Type 0
IsFork none = Unit
IsFork (some pf) = IsName pf.name × IsId pf.parent_instance_id × IsU64 pf.cut_seqno

abbrev pub IsPin : PinInfo → Type 0
IsPin pin = IsName pin.name × IsU64 pin.seqno × IsU64 pin.created_unix_ms

table_ids-Framed : Framed (put_list put_u64) (read_list u64) (AreAll IsU64)
table_ids-Framed = list-Framed put_u64 u64 IsU64 u64-Framed

pub IsRun-Framed : Framed put_run read_run IsRun
unfolding put_run put_u64 read_run
IsRun-Framed = record {
  bytes_of = λ run. to_le_bytes 8 run.id ++ table_ids-Framed.bytes_of run.table_ids;
  puts = λ p run (h, k).
      table_ids-Framed.puts (put_u64 p run.id) run.table_ids k
      ∙ append_assoc p (to_le_bytes 8 run.id) (table_ids-Framed.bytes_of run.table_ids);
  reads = λ r run post (h, k) e.
      let (r1, e1, h1) =
        u64-Reads r run.id (table_ids-Framed.bytes_of run.table_ids ++ post) h
          (e ∙ simp append_assoc) in
      let (r2, e2, h2) = table_ids-Framed.reads r1 run.table_ids post k h1 in
      (r2, rw (e1, e2) refl, h2);
}

pub IsPair-Framed : Framed put_pair read_pair IsPair
unfolding put_pair put_u64 read_pair
IsPair-Framed = record {
  bytes_of = λ x. to_le_bytes 8 x.0 ++ to_le_bytes 8 x.1;
  puts = λ p x h. append_assoc p (to_le_bytes 8 x.0) (to_le_bytes 8 x.1);
  reads = λ r x post (h, k) e.
      let (r1, e1, h1) = u64-Reads r x.0 (to_le_bytes 8 x.1 ++ post) h (e ∙ simp append_assoc) in
      let (r2, e2, h2) = u64-Reads r1 x.1 post k h1 in (r2, rw (e1, e2) refl, h2);
}

name_bytes : List ℕ → List ℕ
name_bytes name = encoded (length name) ++ name

read_name-Reads :
    (r : Reader) (name post : List ℕ)
    → IsName name
    → rest r ≡ name_bytes name ++ post
    → Reads (read_name r) name post
unfolding read_name name_bytes
read_name-Reads r name post (h, valid) e =
    let (r1, e1, h1) = len_prefixed-Reads r name post h e in (r1, rw (e1, valid) refl, h1)

id-Reads :
    (r : Reader) (id post : List ℕ)
    → IsId id
    → rest r ≡ id ++ post
    → Reads (bytes r instance_id_len) id post
id-Reads r id post h e = rw h at (bytes-Reads r id post e)

pub IsPin-Framed : Framed put_pin read_pin IsPin
unfolding put_pin put_u64 read_pin
IsPin-Framed = record {
  bytes_of =
      λ pin. name_bytes pin.name ++ (to_le_bytes 8 pin.seqno ++ to_le_bytes 8 pin.created_unix_ms);
  puts = puts;
  reads = reads;
}
  where
    puts :
        (p : List ℕ) (pin : PinInfo)
        → IsPin pin
        → put_pin p pin
          ≡ p
            ++ (name_bytes pin.name
                ++ (to_le_bytes 8 pin.seqno ++ to_le_bytes 8 pin.created_unix_ms))
    puts p pin ((h, _), _, _) =
        ap (λ (l : List ℕ). (l ++ to_le_bytes 8 pin.seqno) ++ to_le_bytes 8 pin.created_unix_ms)
          (put_len_prefixed_append p pin.name h)
        ∙ unfold name_bytes in simp append_assoc

    reads :
        (r : Reader) (pin : PinInfo) (post : List ℕ)
        → IsPin pin
        → rest r
          ≡ (name_bytes pin.name ++ (to_le_bytes 8 pin.seqno ++ to_le_bytes 8 pin.created_unix_ms))
            ++ post
        → Reads (read_pin r) pin post
    reads r pin post (h, k, l) e =
        let (r1, e1, h1) =
          read_name-Reads r pin.name
            (to_le_bytes 8 pin.seqno ++ (to_le_bytes 8 pin.created_unix_ms ++ post)) h
            (e ∙ simp append_assoc) in
        let (r2, e2, h2) = u64-Reads r1 pin.seqno _ k h1 in
        let (r3, e3, h3) = u64-Reads r2 pin.created_unix_ms post l h2 in
        (r3, rw (e1, e2, e3) refl, h3)

parent_bytes : Option (List ℕ × ℕ) → List ℕ
parent_bytes none = 0 ∷ []
parent_bytes (some (pid, cut)) = 1 ∷ (pid ++ to_le_bytes 8 cut)

put_parent_append :
    (p : List ℕ) (parent : Option (List ℕ × ℕ)) → put_parent p parent ≡ p ++ parent_bytes parent
unfolding put_parent parent_bytes put_u64
put_parent_append p none = refl
put_parent_append p (some (pid, cut)) = simp append_assoc

read_parent-Reads :
    (r : Reader) (parent : Option (List ℕ × ℕ)) (post : List ℕ)
    → IsParent parent
    → rest r ≡ parent_bytes parent ++ post
    → Reads (read_parent r) parent post
unfolding read_parent parent_bytes
read_parent-Reads r none post h e = let (r1, e1, h1) = u8-Reads r 0 post e in (r1, rw e1 refl, h1)
read_parent-Reads r (some (pid, cut)) post (h, k) e =
    let (r1, e1, h1) = u8-Reads r 1 _ e in
    let (r2, e2, h2) = id-Reads r1 pid (to_le_bytes 8 cut ++ post) h (h1 ∙ simp append_assoc) in
    let (r3, e3, h3) = u64-Reads r2 cut post k h2 in (r3, rw (e1, e2, e3) refl, h3)

identity_bytes : Option StoreIdentity → List ℕ
identity_bytes none = 0 ∷ []
identity_bytes (some id) = 1 ∷ (name_bytes id.name ++ (id.instance_id ++ parent_bytes id.parent))

put_identity_append :
    (p : List ℕ) (identity : Option StoreIdentity)
    → IsIdentity identity
    → put_identity p identity ≡ p ++ identity_bytes identity
unfolding put_identity identity_bytes
put_identity_append p none h = refl
put_identity_append p (some id) ((h, _), _, _) =
    put_parent_append _ id.parent
    ∙ ap (λ (l : List ℕ). (l ++ id.instance_id) ++ parent_bytes id.parent)
        (put_len_prefixed_append (p ++ (1 ∷ [])) id.name h)
    ∙ unfold name_bytes in simp append_assoc

read_identity-Reads :
    (r : Reader) (identity : Option StoreIdentity) (post : List ℕ)
    → IsIdentity identity
    → rest r ≡ identity_bytes identity ++ post
    → Reads (read_identity r) identity post
unfolding read_identity identity_bytes
read_identity-Reads r none post h e = let (r1, e1, h1) = u8-Reads r 0 post e in (r1, rw e1 refl, h1)
read_identity-Reads r (some id) post (h, k, l) e =
    let (r1, e1, h1) = u8-Reads r 1 _ e in
    let (r2, e2, h2) =
      read_name-Reads r1 id.name (id.instance_id ++ (parent_bytes id.parent ++ post)) h
        (h1 ∙ simp append_assoc) in
    let (r3, e3, h3) = id-Reads r2 id.instance_id (parent_bytes id.parent ++ post) k h2 in
    let (r4, e4, h4) = read_parent-Reads r3 id.parent post l h3 in
    (r4, rw (e1, e2, e3, e4) refl, h4)

pub IsIdentity-Framed : Framed put_identity read_identity IsIdentity
IsIdentity-Framed = record {
  bytes_of = identity_bytes;
  puts = put_identity_append;
  reads = read_identity-Reads;
}

fork_bytes : Option PendingFork → List ℕ
fork_bytes none = 0 ∷ []
fork_bytes (some pf) =
    1 ∷ (name_bytes pf.name ++ (pf.parent_instance_id ++ to_le_bytes 8 pf.cut_seqno))

put_fork_append :
    (p : List ℕ) (fork : Option PendingFork) → IsFork fork → put_fork p fork ≡ p ++ fork_bytes fork
unfolding put_fork fork_bytes put_u64
put_fork_append p none h = refl
put_fork_append p (some pf) ((h, _), _, _) =
    ap (λ (l : List ℕ). (l ++ pf.parent_instance_id) ++ to_le_bytes 8 pf.cut_seqno)
      (put_len_prefixed_append (p ++ (1 ∷ [])) pf.name h)
    ∙ unfold name_bytes in simp append_assoc

read_fork-Reads :
    (r : Reader) (fork : Option PendingFork) (post : List ℕ)
    → IsFork fork
    → rest r ≡ fork_bytes fork ++ post
    → Reads (read_fork r) fork post
unfolding read_fork fork_bytes
read_fork-Reads r none post h e = let (r1, e1, h1) = u8-Reads r 0 post e in (r1, rw e1 refl, h1)
read_fork-Reads r (some pf) post (h, k, l) e =
    let (r1, e1, h1) = u8-Reads r 1 _ e in
    let (r2, e2, h2) =
      read_name-Reads r1 pf.name (pf.parent_instance_id ++ (to_le_bytes 8 pf.cut_seqno ++ post)) h
        (h1 ∙ simp append_assoc) in
    let (r3, e3, h3) =
      id-Reads r2 pf.parent_instance_id (to_le_bytes 8 pf.cut_seqno ++ post) k h2 in
    let (r4, e4, h4) = u64-Reads r3 pf.cut_seqno post l h3 in (r4, rw (e1, e2, e3, e4) refl, h4)

pub IsFork-Framed : Framed put_fork read_fork IsFork
IsFork-Framed = record { bytes_of = fork_bytes; puts = put_fork_append; reads = read_fork-Reads }
