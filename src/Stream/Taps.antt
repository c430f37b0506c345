-- ===== src/Stream/Taps.antt =====
-- crates/fluent31/src/db.rs: what the loop of `offer` queues, and what the resolution makes of a queue.
use mathlib.Core.List.{append_assoc, append-nil}
use fluent.Prelude.{
  ℕ, suc, ◌+◌, ◌-◌, ◌<◌, ◌≤◌, if◌then◌else◌, List, [], ◌∷◌, ◌++◌, length, All, Option, ◌≡◌, sym,
  subst, ◌∙◌, inl, inr, Bool-cases, arith,
}
use fluent.Result.{Result}
use fluent.Batch.{EncEntry}
use fluent.Stream.{RawEntry, SubQueue, in_range, push_entries, last_seqno}

-- The entries of a commit in a range, with their sequence numbers from `seq` on.
unfoldable pub tap : List ℕ → Option (List ℕ) → ℕ → ℕ → List EncEntry → List RawEntry
tap lo hi commit_seqno seq [] = []
tap lo hi commit_seqno seq (e ∷ es) =
    let rest = tap lo hi commit_seqno (seq + 1) es in
    if in_range lo hi e.key
    then (record {
      key = e.key;
      seqno = seq;
      commit_seqno = commit_seqno;
      kind = e.kind;
      repr = e.repr;
    }
        ∷ rest)
    else rest

pub push_entries-tap :
    (lo : List ℕ) (hi : Option (List ℕ)) (c seq : ℕ) (es : List EncEntry) (q : SubQueue)
    → (push_entries lo hi c seq es q).0.entries ≡ q.entries ++ tap lo hi c seq es
unfolding push_entries tap
push_entries-tap lo hi c seq [] q = sym (append-nil q.entries)
push_entries-tap lo hi c seq (e ∷ es) q = elim (Bool-cases (in_range lo hi e.key)) [
  | inl inside ↦ rw inside (
      push_entries-tap lo hi c (seq + 1) es _
      ∙ append_assoc q.entries (_ ∷ []) (tap lo hi c (seq + 1) es))
  | inr outside ↦ rw outside (push_entries-tap lo hi c (seq + 1) es q)
]

-- The sequence numbers lie above `low` and not above `high`.
abbrev pub Within : ℕ → ℕ → List RawEntry → Type 0
Within low high = All (λ (r : RawEntry). (low < r.seqno) × (r.seqno ≤ high))

pub tap-Within :
    (lo : List ℕ) (hi : Option (List ℕ)) (c seq low : ℕ) (es : List EncEntry)
    → low < seq
    → Within low (seq + length es - 1) (tap lo hi c seq es)
unfolding tap
tap-Within lo hi c seq low [] h = tt
tap-Within lo hi c seq low (e ∷ es) h =
    let rest : Within low (seq + suc (length es) - 1) (tap lo hi c (seq + 1) es) =
      subst (λ n. Within low n (tap lo hi c (seq + 1) es)) (omega arith)
        (tap-Within lo hi c (seq + 1) low es (omega arith)) in
    elim (Bool-cases (in_range lo hi e.key)) [
      | inl inside ↦ rw inside ((h, omega arith), rest)
      | inr outside ↦ rw outside rest
    ]

pub Within-append :
    (low mid high : ℕ) (rs ss : List RawEntry)
    → mid ≤ high
    → Within low mid rs
    → Within low high ss
    → Within low high (rs ++ ss)
Within-append low mid high [] ss le hr hs = hs
Within-append low mid high (r ∷ rs) ss le ((above, below), hr) hs =
    ((above, omega arith), Within-append low mid high rs ss le hr hs)

pub Within-last :
    (resolve_repr : List ℕ → List ℕ → Result (List ℕ)) (low high : ℕ) (r : RawEntry)
    (rs : List RawEntry)
    → Within low high (r ∷ rs)
    → last_seqno resolve_repr r rs ≤ high
Within-last resolve_repr low high r [] (h, hs) = h.1
Within-last resolve_repr low high r (r' ∷ rs) (h, hs) = Within-last resolve_repr low high r' rs hs
