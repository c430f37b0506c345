-- ===== src/Recovery/Replayed.antt =====
-- crates/fluent31/src/db.rs, wal.rs, batch.rs: the replay of logs that writes left, the newest one cut by a
-- crash.
use mathlib.Core.List.{append-nil, append_assoc}
use fluent.Prelude.{
  ℕ, Bool, true, List, [], ◌∷◌, ◌++◌, length, Option, some, All, ◌≡◌, refl, ap, sym, ◌∙◌,
}
use fluent.Result.{ok}
use fluent.Batch.{EncEntry, encode_batch, decode_batch}
use fluent.Batch.RoundTrip.{IsBatch, decode-encode_batch}
use fluent.Wal.{clean, read_wal, append_record}
use fluent.Wal.Recovery.{append_all, torn_or_clean, read_wal_after_crash}
use fluent.Wal.Recovery as Log
use fluent.Memtable.Skiplist.{SkipMap}
use fluent.Recovery.{YoungIndex, Replay, replay_records, replay_wals}
use fluent.Recovery.History.{
  Batches, History, numbered, numbered_all, numbered_logs, replayed, replay_entries_lem,
  replayed-append, replayed_nil, IsDurable, IsDurable-are_durable,
}

abbrev pub payloads : Batches → List (List ℕ)
payloads [] = []
payloads ((base, es) ∷ bs) = encode_batch base es ∷ payloads bs

module _ (crc32 : List ℕ → ℕ) (m : SkipMap) (young : ℕ → Option YoungIndex)
    (live retired : ℕ → Bool) where
  abbrev R : Type 0
  R = Replay crc32 m young live retired

  -- A batch that fits its record, with values that became durable.
  pub record IsLogged (base : ℕ) (es : List EncEntry) : Type 0 where
    pub is_batch : IsBatch base es
    pub is_record : Log.IsRecord crc32 (encode_batch base es)
    pub durable : All (IsDurable crc32 m young live retired) es

  abbrev pub AreLogged : Batches → Type 0
  AreLogged = All (λ b. IsLogged b.0 b.1)

  -- The file that a log's appends leave.
  abbrev pub log_file : Batches → List ℕ
  log_file bs = append_all crc32 [] (payloads bs)

  abbrev pub files_of : List (ℕ × Batches) → List (ℕ × List ℕ)
  files_of [] = []
  files_of ((wid, bs) ∷ wals) = (wid, log_file bs) ∷ files_of wals

  payloads-IsRecord : (bs : Batches) → AreLogged bs → All (Log.IsRecord crc32) (payloads bs)
  payloads-IsRecord [] h = tt
  payloads-IsRecord ((base, es) ∷ bs) (h, hs) = (h.is_record, payloads-IsRecord bs hs)

  replay_records_lem :
      (bs : Batches) (r : R)
      → AreLogged bs
      → replay_records crc32 m young live retired (payloads bs) r
        ≡ ok (replayed crc32 m young live retired (numbered_all bs) r, true)
  unfolding replay_records numbered_all
  replay_records_lem [] r h =
      ap (λ (x : R). ok (x, true)) (sym (replayed_nil crc32 m young live retired r))
  replay_records_lem ((base, es) ∷ bs) r (h, hs) =
      let decoded : decode_batch (encode_batch base es) ≡ ok (base, es) =
        ap decode_batch (sym (append-nil (encode_batch base es)))
        ∙ decode-encode_batch base es [] h.is_batch in
      rw
        (
          decoded,
          IsDurable-are_durable crc32 m young live retired es h.durable,
          replay_entries_lem crc32 m young live retired base es r,
        )
        (replay_records_lem bs (replayed crc32 m young live retired (numbered base es) r) hs
          ∙ ap (λ (x : R). ok (x, true))
              (sym (
                replayed-append crc32 m young live retired (numbered base es) (numbered_all bs) r)))

  -- The record that the crash cut: its first bytes, its next byte, and the rest.
  module _ (p front : List ℕ) (x : ℕ) (back : List ℕ) (cut_record : Log.IsRecord crc32 p)
      (cut : append_record crc32 [] p ≡ front ++ x ∷ back) where
    split_start :
        (front : List ℕ)
        → append_record crc32 [] p ≡ front ++ x ∷ back
        → (y : ℕ) × (rest : List ℕ) × (append_record crc32 [] p ≡ y ∷ rest)
    split_start [] e = (x, back, e)
    split_start (b ∷ front) e = (b, front ++ x ∷ back, e)

    read_sealed :
        (bs : Batches) → AreLogged bs → read_wal crc32 (log_file bs) ≡ (payloads bs, clean)
    read_sealed bs h =
        let (y, rest, e) = split_start front cut in
        ap (read_wal crc32) (sym (append-nil (log_file bs)))
        ∙ read_wal_after_crash crc32 (payloads bs) p [] y rest (payloads-IsRecord bs h) cut_record e

    read_newest :
        (bs : Batches)
        → AreLogged bs
        → read_wal crc32 (log_file bs ++ front)
          ≡ (payloads bs, torn_or_clean (length (log_file bs)) front)
    read_newest bs h =
        read_wal_after_crash crc32 (payloads bs) p front x back (payloads-IsRecord bs h) cut_record
          cut

    abbrev pub truncated_to : ℕ → ℕ → List ℕ → R → R
    truncated_to wid valid_len [] r = r
    truncated_to wid valid_len (b ∷ front) r = record r { truncate_torn = some (wid, valid_len) }

    replay_newest :
        (front' : List ℕ) (wid : ℕ) (bs : Batches) (file : List ℕ) (r : R)
        → AreLogged bs
        → read_wal crc32 file ≡ (payloads bs, torn_or_clean (length (log_file bs)) front')
        → replay_wals crc32 m young live retired ((wid, file) ∷ []) r
          ≡ ok (
              truncated_to wid
                (length (log_file bs))
                front'
                (replayed crc32 m young live retired (numbered_all bs) r))
    unfolding replay_wals
    replay_newest [] wid bs file r h e = rw (e, replay_records_lem bs r h) refl
    replay_newest (b ∷ front') wid bs file r h e = rw (e, replay_records_lem bs r h) refl

    -- Replay of logs that whole appends of batches left, the newest one cut in the middle of
    -- one more append, with values that became durable, succeeds. Each entry of the sealed
    -- logs and then of the newest, in the order of the logs, of their batches and of the
    -- entries, is inserted in the memtable, under its kind and under the sequence number of
    -- its batch plus its place there; the greatest of these numbers is kept, and the entries
    -- are counted. The newest log, where torn bytes end it, is marked to be cut to its valid
    -- prefix.
    pub replay_wals-all :
        (sealed : List (ℕ × Batches)) (wid : ℕ) (bs : Batches) (r : R)
        → All (λ w. AreLogged w.1) sealed
        → AreLogged bs
        → replay_wals crc32 m young live retired
            (files_of sealed ++ (wid, log_file bs ++ front) ∷ [])
            r
          ≡ ok (
              truncated_to wid
                (length (log_file bs))
                front
                (replayed crc32 m young live retired (numbered_logs sealed ++ numbered_all bs) r))
    unfolding replay_wals numbered_logs
    replay_wals-all [] wid bs r hs h =
        replay_newest front wid bs (log_file bs ++ front) r h (read_newest bs h)
    replay_wals-all ((w, b) ∷ sealed) wid bs r (hb, hs) h =
        rw (read_sealed b hb, replay_records_lem b r hb)
          (replay_wals-all sealed wid bs (replayed crc32 m young live retired (numbered_all b) r) hs
              h
            ∙ ap (λ (x : R). ok (truncated_to wid (length (log_file bs)) front x))
                (sym (
                    replayed-append crc32 m young live retired (numbered_all b)
                      (numbered_logs sealed ++ numbered_all bs) r)
                  ∙ ap (λ (x : History). replayed crc32 m young live retired x r)
                      (sym
                        (append_assoc (numbered_all b) (numbered_logs sealed) (numbered_all bs)))))
