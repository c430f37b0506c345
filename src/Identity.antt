-- ===== src/Identity.antt =====
-- crates/fluent31/src/identity.rs, and `resolve_identity` of crates/fluent31/src/db.rs on the two sections
-- of the manifest that it changes. SHA-256 is a parameter; a name is the list of its bytes.
pub mod Resolved
use fluent.Prelude.{
  ℕ, ◌+◌, ◌==◌, leb, if◌then◌else◌, Bool, true, false, ◌&&◌, ◌||◌, not, List, [], ◌∷◌, ◌++◌, length,
  take, Option, none, some,
}
use fluent.Result.{Result, ok, err, invalid_argument, ◌>>=◌}
use fluent.Coding.{to_le_bytes}
use fluent.Bytes.{bytes_eq}

abbrev pub instance_id_len : ℕ
instance_id_len = 16

pub record StoreIdentity : Type 0 where
  pub name : List ℕ
  pub instance_id : List ℕ
  pub parent : Option (List ℕ × ℕ)

pub record PendingFork : Type 0 where
  pub parent_instance_id : List ℕ
  pub cut_seqno : ℕ
  pub name : List ℕ

abbrev pub root_domain : List ℕ
root_domain =
    b'f' ∷ b'l' ∷ b'u' ∷ b'e' ∷ b'n' ∷ b't' ∷ b'3' ∷ b'1' ∷ b'.' ∷ b'i' ∷ b'd' ∷ b'e' ∷ b'n' ∷ b't'
    ∷ b'i' ∷ b't' ∷ b'y' ∷ b'.' ∷ b'v' ∷ b'1' ∷ []

abbrev pub fork_domain : List ℕ
fork_domain =
    b'f' ∷ b'l' ∷ b'u' ∷ b'e' ∷ b'n' ∷ b't' ∷ b'3' ∷ b'1' ∷ b'.' ∷ b'f' ∷ b'o' ∷ b'r' ∷ b'k' ∷ b'.'
    ∷ b'v' ∷ b'1' ∷ []

-- What `h16` feeds the hash: each part behind its length.
unfoldable pub hash_parts : List (List ℕ) → List ℕ
hash_parts [] = []
hash_parts (p ∷ ps) = to_le_bytes 8 (length p) ++ (p ++ hash_parts ps)

abbrev pub is_alphanumeric : ℕ → Bool
is_alphanumeric b = leb b'0' b && leb b b'9' || leb b'A' b && leb b b'Z' || leb b'a' b && leb b b'z'

unfoldable pub all_in_charset : List ℕ → Bool
all_in_charset [] = true
all_in_charset (b ∷ name) =
    (is_alphanumeric b || b == b'.' || b == b'_' || b == b'-') && all_in_charset name

abbrev pub starts_with_dot : List ℕ → Bool
starts_with_dot [] = false
starts_with_dot (b ∷ name) = b == b'.'

unfoldable pub validate_store_name : List ℕ → Result (Unit {0})
unfolding all_in_charset
validate_store_name name =
    if not (length name == 0)
      && leb (length name) 64
      && all_in_charset name
      && not (starts_with_dot name)
    then ok tt
    else err invalid_argument

module _ (sha256 : List ℕ → List ℕ) where
  unfoldable pub h16 : List ℕ → List (List ℕ) → List ℕ
  unfolding hash_parts
  h16 domain parts = take instance_id_len (sha256 (hash_parts (domain ∷ parts)))

  unfoldable pub derive_root : List ℕ → List ℕ
  derive_root name = h16 root_domain (name ∷ [])

  unfoldable pub derive_fork : List ℕ → ℕ → List ℕ → List ℕ
  derive_fork parent cut_seqno name = h16 fork_domain (parent ∷ to_le_bytes 8 cut_seqno ∷ name ∷ [])

  -- `StoreIdentity::root`
  unfoldable pub root_identity : List ℕ → StoreIdentity
  root_identity name = record { name = name; instance_id = derive_root name; parent = none }

  -- `PendingFork::mint`
  unfoldable pub mint : PendingFork → StoreIdentity
  mint pf = record {
    name = pf.name;
    instance_id = derive_fork pf.parent_instance_id pf.cut_seqno pf.name;
    parent = some (pf.parent_instance_id, pf.cut_seqno);
  }

  abbrev pub Sections : Type 0
  Sections = Option StoreIdentity × Option PendingFork

  abbrev pub differs : Option (List ℕ) → List ℕ → Bool
  differs none name = false
  differs (some req) name = not (bytes_eq req name)

  -- The last `match`, where no fork is pending.
  unfoldable pub match_identity : Option StoreIdentity → Option (List ℕ) → Result Sections
  unfolding root_identity
  match_identity (some id) requested =
      if differs requested id.name then err invalid_argument else ok (some id, none)
  match_identity none (some req) = ok (some (root_identity req), none)
  match_identity none none = ok (none, none)

  abbrev pub check_requested : Option (List ℕ) → Result (Unit {0})
  check_requested none = ok tt
  check_requested (some name) = validate_store_name name

  unfoldable pub resolve_identity : Sections → Option (List ℕ) → Result Sections
  unfolding match_identity mint
  resolve_identity (identity, pending_fork) requested = do
    checked ← check_requested requested
    elim pending_fork [
      | some pf ↦
          if differs requested pf.name then err invalid_argument else ok (some (mint pf), none)
      | none ↦ match_identity identity requested
    ]
