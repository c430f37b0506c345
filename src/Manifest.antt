-- ===== src/Manifest.antt =====
-- crates/fluent31/src/manifest.rs: the manifest and its bytes. crc32fast is a parameter; a name is the list
-- of its bytes.
pub mod Utf8
pub mod Framed
pub mod Sections
pub mod RoundTrip
use fluent.Prelude.{
  ℕ, zero, suc, ◌+◌, ◌-◌, ◌%◌, ◌^◌, ◌==◌, ltb, leb, if◌then◌else◌, Bool, true, false, ◌&&◌, ◌||◌,
  not, List, [], ◌∷◌, ◌++◌, length, take, drop, Option, none, some,
}
use fluent.Result.{Result, ok, err, corrupt, ◌>>=◌}
use fluent.Coding.{
  Reader, new, bytes, u8, u32, u64, uvarint, len_prefixed, put_u32, put_u64, put_uvarint,
  put_len_prefixed, from_le_bytes,
}
use fluent.Identity.{StoreIdentity, PendingFork, instance_id_len}
use Utf8.{is_utf8}

abbrev pub manifest_magic : ℕ
manifest_magic = 0xf115e7313aa10001

abbrev pub format_base : ℕ
format_base = 1

abbrev pub format_identity : ℕ
format_identity = 2

abbrev pub format_pins : ℕ
format_pins = 3

pub record PinInfo : Type 0 where
  pub name : List ℕ
  pub seqno : ℕ
  pub created_unix_ms : ℕ

pub record RunMeta : Type 0 where
  pub id : ℕ
  pub table_ids : List ℕ

pub record ManifestData : Type 0 where
  pub next_file_id : ℕ
  pub last_flushed_seqno : ℕ
  pub wal_floor : ℕ
  pub levels : List (List RunMeta)
  pub vlog_live : List ℕ
  pub vlog_head : ℕ
  pub vlog_retired : List (ℕ × ℕ)
  pub discard : List (ℕ × ℕ)
  pub identity : Option StoreIdentity
  pub pending_fork : Option PendingFork
  pub pins : List PinInfo

-- `for x in xs { put(p, x) }`, and the same behind the count.
unfoldable pub put_each {ℓ} : {A : Type ℓ} → (List ℕ → A → List ℕ) → List ℕ → List A → List ℕ
put_each put p [] = p
put_each put p (x ∷ xs) = put_each put (put p x) xs

unfoldable pub put_list {ℓ} : {A : Type ℓ} → (List ℕ → A → List ℕ) → List ℕ → List A → List ℕ
unfolding put_each
put_list put p xs = put_each put (put_uvarint p (length xs % 2 ^ 64)) xs

unfoldable pub put_run : List ℕ → RunMeta → List ℕ
unfolding put_list
put_run p run = put_list put_u64 (put_u64 p run.id) run.table_ids

unfoldable pub put_pair : List ℕ → ℕ × ℕ → List ℕ
put_pair p (a, b) = put_u64 (put_u64 p a) b

unfoldable pub put_parent : List ℕ → Option (List ℕ × ℕ) → List ℕ
put_parent p none = p ++ (0 ∷ [])
put_parent p (some (pid, cut)) = put_u64 ((p ++ (1 ∷ [])) ++ pid) cut

unfoldable pub put_identity : List ℕ → Option StoreIdentity → List ℕ
unfolding put_parent
put_identity p none = p ++ (0 ∷ [])
put_identity p (some id) =
    put_parent (put_len_prefixed (p ++ (1 ∷ [])) id.name ++ id.instance_id) id.parent

unfoldable pub put_fork : List ℕ → Option PendingFork → List ℕ
put_fork p none = p ++ (0 ∷ [])
put_fork p (some pf) =
    put_u64 (put_len_prefixed (p ++ (1 ∷ [])) pf.name ++ pf.parent_instance_id) pf.cut_seqno

unfoldable pub put_pin : List ℕ → PinInfo → List ℕ
put_pin p pin = put_u64 (put_u64 (put_len_prefixed p pin.name) pin.seqno) pin.created_unix_ms

-- The part that every format has.
unfoldable pub put_structure : List ℕ → ManifestData → List ℕ
unfolding put_list put_run put_pair
put_structure p m =
    let p1 = put_u64 (put_u64 (put_u64 p m.next_file_id) m.last_flushed_seqno) m.wal_floor in
    let p2 = put_list (put_list put_run) p1 m.levels in
    let p3 = put_u64 (put_list put_u64 p2 m.vlog_live) m.vlog_head in
    put_list put_pair (put_list put_pair p3 m.vlog_retired) m.discard

abbrev pub is_some {ℓ} : {A : Type ℓ} → Option A → Bool
is_some none = false
is_some (some x) = true

abbrev pub is_nil {ℓ} : {A : Type ℓ} → List A → Bool
is_nil [] = true
is_nil (x ∷ xs) = false

-- The lowest format that carries the data.
unfoldable pub format_of : ManifestData → ℕ
format_of m =
    if not (is_nil m.pins)
    then format_pins
    else if is_some m.identity || is_some m.pending_fork
    then format_identity
    else format_base

unfoldable pub put_sections : List ℕ → ManifestData → List ℕ
unfolding put_structure put_identity put_fork put_pin put_list format_of
put_sections p m =
    let p1 = put_structure p m in
    let p2 =
      if leb format_identity (format_of m)
      then put_fork (put_identity p1 m.identity) m.pending_fork
      else p1 in
    if leb format_pins (format_of m) then put_list put_pin p2 m.pins else p2

-- `for _ in 0..n`, and the same behind a count.
unfoldable pub read_n {ℓ} :
    {A : Type ℓ} → (Reader → Result (A × Reader)) → ℕ → Reader → Result (List A × Reader)
read_n read zero r = ok ([], r)
read_n read (suc n) r = do (x, r1) ← read r; (xs, r2) ← read_n read n r1; ok (x ∷ xs, r2)

unfoldable pub read_list {ℓ} :
    {A : Type ℓ} → (Reader → Result (A × Reader)) → Reader → Result (List A × Reader)
unfolding read_n
read_list read r = do (n, r1) ← uvarint r; read_n read n r1

unfoldable pub read_run : Reader → Result (RunMeta × Reader)
unfolding read_list
read_run r = do
  (id, r1) ← u64 r
  (table_ids, r2) ← read_list u64 r1
  ok (record { id = id; table_ids = table_ids }, r2)

unfoldable pub read_pair : Reader → Result ((ℕ × ℕ) × Reader)
read_pair r = do (a, r1) ← u64 r; (b, r2) ← u64 r1; ok ((a, b), r2)

-- `String::from_utf8(r.len_prefixed()?.to_vec())`
unfoldable pub read_name : Reader → Result (List ℕ × Reader)
unfolding is_utf8
read_name r = do (name, r1) ← len_prefixed r; if is_utf8 name then ok (name, r1) else err corrupt

unfoldable pub read_parent : Reader → Result (Option (List ℕ × ℕ) × Reader)
read_parent r = do
  (tag, r1) ← u8 r
  if tag == 0
      then ok (none, r1)
      else (do (pid, r2) ← bytes r1 instance_id_len; (cut, r3) ← u64 r2; ok (some (pid, cut), r3))

unfoldable pub read_identity : Reader → Result (Option StoreIdentity × Reader)
unfolding read_name read_parent
read_identity r = do
  (tag, r1) ← u8 r
  if tag == 1
      then (do
        (name, r2) ← read_name r1
        (instance_id, r3) ← bytes r2 instance_id_len
        (parent, r4) ← read_parent r3
        ok (some (record { name = name; instance_id = instance_id; parent = parent }), r4))
      else ok (none, r1)

unfoldable pub read_fork : Reader → Result (Option PendingFork × Reader)
unfolding read_name
read_fork r = do
  (tag, r1) ← u8 r
  if tag == 1
      then (do
        (name, r2) ← read_name r1
        (parent, r3) ← bytes r2 instance_id_len
        (cut, r4) ← u64 r3
        ok (some (record { parent_instance_id = parent; cut_seqno = cut; name = name }), r4))
      else ok (none, r1)

unfoldable pub read_pin : Reader → Result (PinInfo × Reader)
unfolding read_name
read_pin r = do
  (name, r1) ← read_name r
  (seqno, r2) ← u64 r1
  (created, r3) ← u64 r2
  ok (record { name = name; seqno = seqno; created_unix_ms = created }, r3)

abbrev pub Identities : Type 0
Identities = Option StoreIdentity × Option PendingFork

-- A section that the format does not have is empty.
unfoldable pub read_identities : ℕ → Reader → Result (Identities × Reader)
unfolding read_identity read_fork
read_identities format r =
    if leb format_identity format
    then (do
      (identity, r1) ← read_identity r
      (pending_fork, r2) ← read_fork r1
      ok ((identity, pending_fork), r2))
    else ok ((none, none), r)

unfoldable pub read_pins : ℕ → Reader → Result (List PinInfo × Reader)
unfolding read_pin read_list
read_pins format r = if leb format_pins format then read_list read_pin r else ok ([], r)

unfoldable pub read_sections : ℕ → Reader → Result (ManifestData × Reader)
unfolding read_list read_run read_pair read_identities read_pins
read_sections format r = do
  (next_file_id, r1) ← u64 r
  (last_flushed_seqno, r2) ← u64 r1
  (wal_floor, r3) ← u64 r2
  (levels, r4) ← read_list (read_list read_run) r3
  (vlog_live, r5) ← read_list u64 r4
  (vlog_head, r6) ← u64 r5
  (vlog_retired, r7) ← read_list read_pair r6
  (discard, r8) ← read_list read_pair r7
  ((identity, pending_fork), r9) ← read_identities format r8
  (pins, r10) ← read_pins format r9
  ok (
    record {
      next_file_id = next_file_id;
      last_flushed_seqno = last_flushed_seqno;
      wal_floor = wal_floor;
      levels = levels;
      vlog_live = vlog_live;
      vlog_head = vlog_head;
      vlog_retired = vlog_retired;
      discard = discard;
      identity = identity;
      pending_fork = pending_fork;
      pins = pins;
    },
    r10,
  )

-- `decode` behind the checksum.
unfoldable pub read_body : Reader → Result ManifestData
unfolding read_sections
read_body r = do
  (magic, r1) ← u64 r
  if not (magic == manifest_magic) then err corrupt else (do
    (format, r2) ← u32 r1
    if not (leb format_base format && leb format format_pins)
        then err corrupt
        else (do (m, r3) ← read_sections format r2; ok m))

module _ (crc32 : List ℕ → ℕ) where
  unfoldable pub encode : ManifestData → List ℕ
  unfolding put_sections format_of
  encode m =
      let out = put_u32 (put_u64 [] manifest_magic) (format_of m) ++ put_sections [] m in
      put_u32 out (crc32 out)

  unfoldable pub decode : List ℕ → Result ManifestData
  unfolding read_body
  decode buf =
      let body_end = length buf - 4 in
      let body = take body_end buf in
      if ltb (length buf) 16
      then err corrupt
      else if not (crc32 body == from_le_bytes (drop body_end buf))
      then err corrupt
      else read_body (new body)
