-- ===== src/Tests/Structure.antt =====
-- Runs of the installation, the manifest and the identity, on a store like the one that
-- crates/fluent31/src/manifest.rs tests.
use fluent.Prelude.{ℕ, ◌+◌, ◌≡◌, refl, arith, true, false, List, [], ◌∷◌, Option, none, some}
use fluent.Result.{ok}
use fluent.Bytes.{cmp_bytes}
use fluent.Version.{Run, TableHandle}
use fluent.Coding.{IsU32}
use fluent.Compaction.Install.{
  contains, at_level, retain, Job, tier, bottom_splice, install_manifest, install_version,
  deepen_manifest, deepen_version,
}
use fluent.Compaction.Install.Agrees.{names, install-names, install_version-tier}
use fluent.Identity.{PendingFork, Sections, resolve_identity, mint, validate_store_name}
use fluent.Identity.Resolved.{resolve_identity_twice}
use fluent.Manifest.{ManifestData, encode, decode}
use fluent.Manifest.Utf8.{is_utf8}
use fluent.Manifest.RoundTrip.{IsManifest, decode-encode_manifest}

abbrev crc : List ℕ → ℕ
crc l = 7

abbrev same_bytes : List ℕ → List ℕ
same_bytes l = l

abbrev table : ℕ → TableHandle
table id = record {
  id = id;
  size = 100;
  min_ukey = [];
  max_ukey = [];
  get = λ u q. ok none;
  may_contain_ukey = λ u. ok false;
}

abbrev a_run : ℕ → Run
a_run id = record { id = id; tables = table (id + 1) ∷ [] }

abbrev tier_job : Job
tier_job = record { level = 0; target = 1; inputs = a_run 10 ∷ a_run 8 ∷ []; kind = tier }

-- The run 3 lies at the back; its first and last tables are kept.
abbrev base_run : Run
base_run = record { id = 3; tables = table 4 ∷ table 5 ∷ table 6 ∷ [] }

abbrev splice_job : Job
splice_job = record {
  level = 1;
  target = 1;
  inputs = a_run 12 ∷ record { id = 3; tables = table 5 ∷ [] } ∷ [];
  kind = bottom_splice 3 (table 4 ∷ []) (table 6 ∷ []) 22;
}

abbrev before_splice : List (List Run)
before_splice = (a_run 14 ∷ []) ∷ (a_run 15 ∷ a_run 12 ∷ base_run ∷ []) ∷ []

-- A run came to the front while the job ran.
abbrev before_install : List (List Run)
before_install = (a_run 14 ∷ a_run 10 ∷ a_run 8 ∷ []) ∷ (a_run 3 ∷ []) ∷ []

abbrev named : ManifestData
named = record {
  next_file_id = 42;
  last_flushed_seqno = 1000;
  wal_floor = 7;
  levels = names before_install;
  vlog_live = 2 ∷ 13 ∷ [];
  vlog_head = 13;
  vlog_retired = (1, 900) ∷ [];
  discard = (2, 4096) ∷ [];
  identity = some (record {
    name = b'a' ∷ [];
    instance_id = 1 ∷ 2 ∷ 3 ∷ 4 ∷ 5 ∷ 6 ∷ 7 ∷ 8 ∷ 9 ∷ 10 ∷ 11 ∷ 12 ∷ 13 ∷ 14 ∷ 15 ∷ 16 ∷ [];
    parent = none;
  });
  pending_fork = none;
  pins = record { name = b'n' ∷ b'i' ∷ []; seqno = 990; created_unix_ms = 1700000 } ∷ [];
}

-- The splice keeps the tables 4 and 6 around the output's.
install-names_example :
    ((install_manifest splice_job
        (some (a_run 20))
        ((2, 10) ∷ [])
        (2 ∷ [])
        43
        (record named { levels = names before_splice })).levels
      ≡ names (install_version splice_job (some (a_run 20)) before_splice))
    × ((deepen_manifest 1 splice_job.inputs 43
          (record named { levels = names before_splice })).levels
        ≡ names (deepen_version 1 splice_job.inputs before_splice))
install-names_example =
    install-names splice_job (some (a_run 20)) ((2, 10) ∷ []) (2 ∷ []) 43
      (record named { levels = names before_splice }) before_splice refl

splice_run :
    install_version splice_job (some (a_run 20)) before_splice
    ≡ (a_run 14 ∷ [])
      ∷ (a_run 15 ∷ record { id = 22; tables = table 4 ∷ table 21 ∷ table 6 ∷ [] } ∷ [])
      ∷ []
unfolding install_version contains at_level retain
splice_run = refl

deepen_run :
    deepen_version 1 (a_run 12 ∷ base_run ∷ []) before_splice
    ≡ (a_run 14 ∷ []) ∷ (a_run 15 ∷ []) ∷ (a_run 12 ∷ base_run ∷ []) ∷ []
unfolding deepen_version contains at_level retain
deepen_run = refl

new_run : contains (10 ∷ 8 ∷ []) 14 ≡ false
unfolding contains
new_run = refl

install_version-tier_example :
    install_version tier_job (some (a_run 20)) before_install
    ≡ (a_run 14 ∷ []) ∷ (a_run 20 ∷ a_run 3 ∷ []) ∷ []
install_version-tier_example =
    install_version-tier [] [] (a_run 14 ∷ []) (a_run 10 ∷ a_run 8 ∷ []) (a_run 3 ∷ [])
      (some (a_run 20)) (new_run, tt)

crc-word : (l : List ℕ) → IsU32 (crc l)
crc-word l = omega arith

named-is_utf8 : (is_utf8 (b'a' ∷ []) ≡ true) × (is_utf8 (b'n' ∷ b'i' ∷ []) ≡ true)
unfolding is_utf8
named-is_utf8 = (refl, refl)

named-IsManifest : IsManifest named
named-IsManifest = record {
  next_file_id = omega arith;
  last_flushed_seqno = omega arith;
  wal_floor = omega arith;
  levels = omega arith;
  vlog_live = omega arith;
  vlog_head = omega arith;
  vlog_retired = omega arith;
  discard = omega arith;
  identity = ((omega arith, named-is_utf8.0), refl, tt);
  pending_fork = tt;
  pins = (omega arith, (((omega arith, named-is_utf8.1), omega arith, omega arith), tt));
}

decode-encode_manifest_example : decode crc (encode crc named) ≡ ok named
decode-encode_manifest_example = decode-encode_manifest crc named crc-word named-IsManifest

abbrev forked : Sections same_bytes
forked = (none, some (record { parent_instance_id = 1 ∷ []; cut_seqno = 7; name = b'f' ∷ [] }))

abbrev minted : Sections same_bytes
minted = (
  some (mint same_bytes (record { parent_instance_id = 1 ∷ []; cut_seqno = 7; name = b'f' ∷ [] })),
  none,
)

resolves : resolve_identity same_bytes forked (some (b'f' ∷ [])) ≡ ok minted
unfolding resolve_identity validate_store_name cmp_bytes
resolves = refl

resolve_identity_twice_example :
    ◌≡◌ {A = Option PendingFork} none none
    × (resolve_identity same_bytes minted (some (b'f' ∷ [])) ≡ ok minted)
    × (resolve_identity same_bytes minted none ≡ ok minted)
resolve_identity_twice_example =
    resolve_identity_twice same_bytes forked minted (some (b'f' ∷ [])) resolves
