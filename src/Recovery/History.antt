-- ===== src/Recovery/History.antt =====
-- crates/fluent31/src/db.rs: what the entries of the logs amount to, apart from the way they are replayed.
use fluent.Prelude.{
  ℕ, ◌+◌, max, ◌||◌, Bool, true, List, [], ◌∷◌, ◌++◌, length, Option, none, some, All, ◌≡◌, refl,
  ap, sym, ◌∙◌, arith,
}
use fluent.Result.{ok}
use fluent.Bytes.{bytes_eq}
use fluent.Bytes.Order.{bytes_eq_iff}
use fluent.Types.{put, delete, ValuePtr, inline, ptr, decode_repr, make_ikey}
use fluent.Batch.{EncEntry}
use fluent.Memtable.{Memtable}
use fluent.Memtable as Memtable
use fluent.Memtable.Skiplist.{SkipMap}
use fluent.Recovery.{YoungIndex, Replay, is_ref_durable, is_durable, are_durable, replay_entries}

abbrev pub Batches : Type 0
Batches = List (ℕ × List EncEntry)

-- Entries with their sequence numbers.
abbrev pub History : Type 0
History = List (ℕ × EncEntry)

-- The entries of a batch, numbered from its own number on.
unfoldable pub numbered : ℕ → List EncEntry → History
numbered seq [] = []
numbered seq (e ∷ es) = (seq, e) ∷ numbered (seq + 1) es

unfoldable pub numbered_all : Batches → History
unfolding numbered
numbered_all [] = []
numbered_all ((base, es) ∷ bs) = numbered base es ++ numbered_all bs

unfoldable pub numbered_logs : List (ℕ × Batches) → History
unfolding numbered_all
numbered_logs [] = []
numbered_logs ((wid, bs) ∷ logs) = numbered_all bs ++ numbered_logs logs

unfoldable pub greatest : ℕ → History → ℕ
greatest n [] = n
greatest n ((seq, e) ∷ h) = greatest (max n seq) h

module _ (crc32 : List ℕ → ℕ) (m : SkipMap) (young : ℕ → Option YoungIndex)
    (live retired : ℕ → Bool) where
  unfoldable pub insert_all : Memtable m → History → Memtable m
  insert_all mt [] = mt
  insert_all mt ((seq, e) ∷ h) =
      insert_all (Memtable.insert m mt (make_ikey e.key seq e.kind) e.repr) h

  abbrev R : Type 0
  R = Replay crc32 m young live retired

  abbrev state_of : Memtable m → ℕ → ℕ → Option (ℕ × ℕ) → R
  state_of mt top count torn = record {
    recovered = mt;
    max_seq = top;
    replayed_records = count;
    truncate_torn = torn;
  }

  -- After the replay of a history: its entries inserted, the greatest number, and the count.
  abbrev pub replayed : History → R → R
  replayed h r = record {
    recovered = insert_all r.recovered h;
    max_seq = greatest r.max_seq h;
    replayed_records = r.replayed_records + length h;
    truncate_torn = r.truncate_torn;
  }

  pub replayed_nil : (r : R) → replayed [] r ≡ r
  unfolding insert_all greatest
  replayed_nil r =
      let same : r.replayed_records + 0 ≡ r.replayed_records = omega arith in
      ap (λ (n : ℕ). state_of r.recovered r.max_seq n r.truncate_torn) same

  insert_all-append :
      (g h : History) (mt : Memtable m) → insert_all mt (g ++ h) ≡ insert_all (insert_all mt g) h
  unfolding insert_all
  insert_all-append [] h mt = refl
  insert_all-append ((seq, e) ∷ g) h mt =
      insert_all-append g h (Memtable.insert m mt (make_ikey e.key seq e.kind) e.repr)

  greatest-append : (g h : History) (n : ℕ) → greatest n (g ++ h) ≡ greatest (greatest n g) h
  unfolding greatest
  greatest-append [] h n = refl
  greatest-append ((seq, e) ∷ g) h n = greatest-append g h (max n seq)

  counted : (g h : History) (n : ℕ) → n + length (g ++ h) ≡ n + length g + length h
  counted [] h n = omega arith
  counted (x ∷ g) h n = omega (arith, counted g h n)

  pub replayed-append : (g h : History) (r : R) → replayed (g ++ h) r ≡ replayed h (replayed g r)
  replayed-append g h r =
      rw
        (
          insert_all-append g h r.recovered,
          greatest-append g h r.max_seq,
          counted g h r.replayed_records,
        )
        refl

  -- The replay of a batch is that of its entries, numbered.
  pub replay_entries_lem :
      (seq : ℕ) (es : List EncEntry) (r : R)
      → replay_entries crc32 m young live retired seq es r ≡ replayed (numbered seq es) r
  unfolding replay_entries numbered insert_all greatest
  replay_entries_lem seq [] r = sym (replayed_nil r)
  replay_entries_lem seq (e ∷ es) r =
      let mt : Memtable m = Memtable.insert m r.recovered (make_ikey e.key seq e.kind) e.repr in
      let one_more : r.replayed_records + 1 + length (numbered (seq + 1) es)
          ≡ r.replayed_records + length ((seq, e) ∷ numbered (seq + 1) es) =
        omega arith in
      replay_entries_lem (seq + 1) es
        (state_of mt (max r.max_seq seq) (r.replayed_records + 1) r.truncate_torn)
      ∙ ap
          (λ (n : ℕ).
            state_of (insert_all mt (numbered (seq + 1) es))
              (greatest (max r.max_seq seq) (numbered (seq + 1) es)) n r.truncate_torn)
          one_more

  -- A delete, a value in the log itself, a record of the key that a scan of a young file found, or one
  -- in a file that is live or retired.
  pub data IsDurable (e : EncEntry) : Type 0 where
    deletes : e.kind ≡ delete → IsDurable e
    inlined : (value : List ℕ) → e.kind ≡ put → decode_repr e.repr ≡ ok (inline value) → IsDurable e
    scanned :
        (p : ValuePtr) (index : YoungIndex)
        → e.kind ≡ put
        → decode_repr e.repr ≡ ok (ptr p)
        → young p.file ≡ some index
        → index p.offset ≡ some (p.len, e.key)
        → IsDurable e
    kept :
        (p : ValuePtr)
        → e.kind ≡ put
        → decode_repr e.repr ≡ ok (ptr p)
        → young p.file ≡ none
        → (live p.file || retired p.file) ≡ true
        → IsDurable e

  ref_scanned :
      (p : ValuePtr) (index : YoungIndex) (key : List ℕ)
      → young p.file ≡ some index
      → index p.offset ≡ some (p.len, key)
      → is_ref_durable crc32 m young live retired (ptr p) key ≡ ok true
  unfolding is_ref_durable
  ref_scanned p index key y at =
      let same : bytes_eq key key ≡ true = (bytes_eq_iff key key).1 refl in
      rw (is_ref_durable, y, at, same) (ground arith)

  ref_kept :
      (p : ValuePtr) (key : List ℕ)
      → young p.file ≡ none
      → (live p.file || retired p.file) ≡ true
      → is_ref_durable crc32 m young live retired (ptr p) key ≡ ok true
  unfolding is_ref_durable
  ref_kept p key y l = rw (is_ref_durable, y, l) refl

  entry_durable :
      (e : EncEntry)
      → IsDurable e
      → is_durable crc32 m young live retired e.kind e.key e.repr ≡ ok true
  unfolding is_durable
  entry_durable e (deletes k) = rw k refl
  entry_durable e (inlined value k d) = rw (k, d) (unfold is_ref_durable in refl)
  entry_durable e (scanned p index k d y at) = rw (k, d) (ref_scanned p index e.key y at)
  entry_durable e (kept p k d y l) = rw (k, d) (ref_kept p e.key y l)

  pub IsDurable-are_durable :
      (es : List EncEntry) → All IsDurable es → are_durable crc32 m young live retired es ≡ ok true
  unfolding are_durable
  IsDurable-are_durable [] h = refl
  IsDurable-are_durable (e ∷ es) (h, hs) = rw (entry_durable e h) (IsDurable-are_durable es hs)
