-- ===== src/Manifest/Framed.antt =====
-- crates/fluent31/src/manifest.rs: a writer and a reader that fit together, and lists of such values behind
-- their count.
use mathlib.Core.List.{append_assoc, append-nil}
use native.Mathlib.Nat.{mod-eq_of_lt}
use fluent.Prelude.{ℕ, ◌≡◌, refl, ap, ◌∙◌, sym, List, [], ◌∷◌, ◌++◌, length, All}
use fluent.Result.{Result}
use fluent.Coding.{Reader, IsU64, u64, put_u64, put_uvarint, to_le_bytes}
use fluent.Coding.Reads.{rest, Reads, u64-Reads}
use fluent.Coding.Varint.{encoded, put_uvarint_append, uvarint-Reads}
use fluent.Manifest.{put_each, put_list, read_n, read_list}

-- `put` appends bytes of its own, from which `read` yields the value that fits.
pub record Framed {ℓ} {A : Type ℓ} (put : List ℕ → A → List ℕ) (read : Reader → Result (A × Reader))
    (Fits : A → Type 0) : Type ℓ where
  pub bytes_of : A → List ℕ
  pub puts : (p : List ℕ) (x : A) → Fits x → put p x ≡ p ++ bytes_of x
  pub reads :
      (r : Reader) (x : A) (post : List ℕ)
      → Fits x
      → rest r ≡ bytes_of x ++ post
      → Reads (read r) x post

pub u64-Framed : Framed put_u64 u64 IsU64
unfolding put_u64
u64-Framed = record {
  bytes_of = to_le_bytes 8;
  puts = λ p x h. refl;
  reads = λ r x post h e. u64-Reads r x post h e;
}

-- A list that a vector holds.
abbrev pub AreAll {ℓ} : {A : Type ℓ} → (A → Type 0) → List A → Type 0
AreAll Fits xs = IsU64 (length xs) × All Fits xs

module _ {ℓ} {A : Type ℓ} (put : List ℕ → A → List ℕ) (read : Reader → Result (A × Reader))
    (Fits : A → Type 0) (f : Framed put read Fits) where
  items : List A → List ℕ
  items [] = []
  items (x ∷ xs) = f.bytes_of x ++ items xs

  put_each_append : (p : List ℕ) (xs : List A) → All Fits xs → put_each put p xs ≡ p ++ items xs
  unfolding put_each items
  put_each_append p [] h = sym (append-nil p)
  put_each_append p (x ∷ xs) (h, hs) =
      put_each_append (put p x) xs hs
      ∙ ap (λ (l : List ℕ). l ++ items xs) (f.puts p x h)
      ∙ append_assoc p (f.bytes_of x) (items xs)

  read_n-Reads :
      (xs : List A) (r : Reader) (post : List ℕ)
      → All Fits xs
      → rest r ≡ items xs ++ post
      → Reads (read_n read (length xs) r) xs post
  unfolding read_n items
  read_n-Reads [] r post h e = (r, refl, e)
  read_n-Reads (x ∷ xs) r post (h, hs) e =
      let (r1, e1, h1) =
        f.reads r x (items xs ++ post) h (e ∙ append_assoc (f.bytes_of x) (items xs) post) in
      let (r2, e2, h2) = read_n-Reads xs r1 post hs h1 in (r2, rw (e1, e2) refl, h2)

  put_list_append :
      (p : List ℕ) (xs : List A)
      → AreAll Fits xs
      → put_list put p xs ≡ p ++ (encoded (length xs) ++ items xs)
  unfolding put_list
  put_list_append p xs (n, h) =
      put_each_append _ xs h
      ∙ ap (λ (n : ℕ). put_uvarint p n ++ items xs) (mod-eq_of_lt n)
      ∙ ap (λ (l : List ℕ). l ++ items xs) (put_uvarint_append p (length xs))
      ∙ append_assoc p (encoded (length xs)) (items xs)

  read_list-Reads :
      (r : Reader) (xs : List A) (post : List ℕ)
      → AreAll Fits xs
      → rest r ≡ (encoded (length xs) ++ items xs) ++ post
      → Reads (read_list read r) xs post
  unfolding read_list
  read_list-Reads r xs post (n, h) e =
      let (r1, e1, h1) =
        uvarint-Reads r (length xs) (items xs ++ post) n
          (e ∙ append_assoc (encoded (length xs)) (items xs) post) in
      let (r2, e2, h2) = read_n-Reads xs r1 post h h1 in (r2, rw e1 e2, h2)

  pub list-Framed : Framed (put_list put) (read_list read) (AreAll Fits)
  list-Framed = record {
    bytes_of = λ xs. encoded (length xs) ++ items xs;
    puts = put_list_append;
    reads = read_list-Reads;
  }
