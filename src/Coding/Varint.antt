-- ===== src/Coding/Varint.antt =====
-- crates/fluent31/src/coding.rs: `put_uvarint` and `Reader::uvarint` as arithmetic, and length-prefixed
-- bytes.
use mathlib.Core.Logic.{dif_pos, dif_neg}
use mathlib.Core.WellFounded.{Acc}
use mathlib.Core.List.{append_assoc}
use native.Mathlib.Bridge.{le_prop}
use native.Mathlib.Decide.{dec_lt}
use native.Mathlib.Nat.{
  pow-suc, mod-eq_of_lt, mul-lt-mul_of_pos_left, mul-le-mul_right, div-add-mod,
}
use native.Mathlib.Numerals.{towards_suc}
use fluent.Prelude.{
  ℕ, inl, inr, zero, suc, ◌+◌, ◌-◌, ◌*◌, ◌/◌, ◌%◌, ◌^◌, ◌≤◌, ◌<◌, ◌≡◌, refl, sym, ap, ◌∙◌, arith,
  List, [], ◌∷◌, ◌++◌, length, length-append, length-drop, subst, ltb, ◌==◌, ◌&&◌, if◌then◌else◌,
  le→ltb, false, lt_wf, bit_or, bit_and,
}
use fluent.Prelude.Bits.{bit_and_0x7f, bit_or_0x80, bit_or_above}
use fluent.Result.{Result-cases, ok, err, corrupt}
use fluent.Coding.{
  Reader, u8, uvarint, uvarint_loop, len_prefixed, IsU64, IsByte, put_uvarint, put_uvarint_loop,
  put_len_prefixed, shift_shrinks,
}
use fluent.Coding.Reads.{rest, Reads, Reads-bind, bytes-Reads, u8-Reads}

more_eq :
    (dst : List ℕ) (v : ℕ) (smaller : (m : ℕ) → m < v → Acc ◌<◌ m) (h : 127 < v)
    → put_uvarint_loop dst v (Acc.intro v smaller)
      ≡ put_uvarint_loop
          (dst ++ (v % 128 + 128) ∷ [])
          (v / 128)
          (smaller (v / 128) (shift_shrinks v h))
unfolding put_uvarint_loop
more_eq dst v smaller h =
    rw (dif_pos (dec_lt 127 v) le_prop h, bit_or_0x80 (v % 256) (omega arith))
      (ap
        (λ (t : ℕ).
          put_uvarint_loop (dst ++ (t + 128) ∷ []) (v / 128)
            (smaller (v / 128) (shift_shrinks v h)))
        (omega arith))

last_eq :
    (dst : List ℕ) (v : ℕ) (w : Acc ◌<◌ v) → v < 128 → put_uvarint_loop dst v w ≡ dst ++ v ∷ []
unfolding put_uvarint_loop
last_eq dst v (Acc.intro _ smaller) h =
    rw (dif_neg (dec_lt 127 v) (λ p. omega arith)) (ap (λ (t : ℕ). dst ++ t ∷ []) (omega arith))

-- The bytes do not depend on the proof of termination, and come behind those of `dst`.
loop_append :
    (dst : List ℕ) (v : ℕ) (w u : Acc ◌<◌ v)
    → put_uvarint_loop dst v w ≡ dst ++ put_uvarint_loop [] v u
loop_append dst v (Acc.intro _ s) (Acc.intro _ t) = elim (dec_lt 127 v) [
  | yes h ↦
      more_eq dst v s h
      ∙ loop_append (dst ++ (v % 128 + 128) ∷ []) (v / 128) (s (v / 128) (shift_shrinks v h))
          (t (v / 128) (shift_shrinks v h))
      ∙ append_assoc dst ((v % 128 + 128) ∷ [])
          (put_uvarint_loop [] (v / 128) (t (v / 128) (shift_shrinks v h)))
      ∙ ap (λ (l : List ℕ). dst ++ l)
          (sym (
            more_eq [] v t h
            ∙ loop_append ((v % 128 + 128) ∷ []) (v / 128) (t (v / 128) (shift_shrinks v h))
                (t (v / 128) (shift_shrinks v h))))
  | no n ↦
      let small : v < 128 = omega arith in
      last_eq dst v (Acc.intro v s) small
      ∙ ap (λ (l : List ℕ). dst ++ l) (sym (last_eq [] v (Acc.intro v t) small))
]

-- What `put_uvarint` appends.
abbrev pub encoded : ℕ → List ℕ
encoded v = put_uvarint [] v

pub put_uvarint_append : (dst : List ℕ) (v : ℕ) → put_uvarint dst v ≡ dst ++ encoded v
unfolding put_uvarint
put_uvarint_append dst v = loop_append dst v (lt_wf.apply v) (lt_wf.apply v)

pub encoded_last : (v : ℕ) → v < 128 → encoded v ≡ v ∷ []
unfolding put_uvarint
encoded_last v h = last_eq [] v (lt_wf.apply v) h

pub encoded_more : (v : ℕ) → 127 < v → encoded v ≡ (v % 128 + 128) ∷ encoded (v / 128)
unfolding put_uvarint
encoded_more v h = go (lt_wf.apply v)
  where
    go :
        (w : Acc ◌<◌ v)
        → put_uvarint_loop [] v w
          ≡ (v % 128 + 128) ∷ put_uvarint_loop [] (v / 128) (lt_wf.apply (v / 128))
    go (Acc.intro _ s) =
        more_eq [] v s h
        ∙ loop_append ((v % 128 + 128) ∷ []) (v / 128) (s (v / 128) (shift_shrinks v h))
            (lt_wf.apply (v / 128))

-- One round of the reader's loop on a byte `b`, with the shift still inside the word.
round :
    (k b acc shift : ℕ) (r : Reader) (tail : List ℕ)
    → IsByte b
    → acc < 2 ^ shift
    → b % 128 * 2 ^ shift < 2 ^ 64
    → rest r ≡ b ∷ tail
    → (r' : Reader) × (rest r' ≡ tail)
      × (uvarint_loop (suc k) r acc shift ≡ (
          if shift == 63 && ltb 1 b
          then err corrupt
          else if ltb b 0x80
          then ok (acc + b % 128 * 2 ^ shift, r')
          else if ltb 63 (shift + 7)
          then err corrupt
          else uvarint_loop k r' (acc + b % 128 * 2 ^ shift) (shift + 7)))
unfolding uvarint_loop
round k b acc shift r tail hb ha hs h =
    let (r', e, h') = u8-Reads r b tail h in (r', h', rw (e, joined) refl)
  where
    joined : bit_or acc (bit_and b 0x7f * 2 ^ shift % 2 ^ 64) ≡ acc + b % 128 * 2 ^ shift
    joined = rw (bit_and_0x7f b hb, mod-eq_of_lt hs) (bit_or_above shift acc (b % 128) ha)

last_round :
    (k v acc shift : ℕ) (r : Reader) (post : List ℕ)
    → v < 128
    → (shift ≡ 63 → v < 2)
    → acc < 2 ^ shift
    → v * 2 ^ shift < 2 ^ 64
    → rest r ≡ v ∷ post
    → Reads (uvarint_loop (suc k) r acc shift) (acc + v * 2 ^ shift) post
last_round k v acc shift r post small top ha hs h =
    let (r', h', e) = round k v acc shift r post (omega arith) ha fits h in
    (r', e ∙ ground (arith, same), h')
  where
    same : v % 128 ≡ v
    same = mod-eq_of_lt small

    fits : v % 128 * 2 ^ shift < 2 ^ 64
    fits = rw same hs

more_round :
    (k b acc shift : ℕ) (r : Reader) (tail : List ℕ)
    → b < 128
    → shift + 7 ≤ 63
    → acc < 2 ^ shift
    → b * 2 ^ shift < 2 ^ 64
    → rest r ≡ (b + 128) ∷ tail
    → (r' : Reader) × (rest r' ≡ tail)
      × (uvarint_loop (suc k) r acc shift ≡ uvarint_loop k r' (acc + b * 2 ^ shift) (shift + 7))
more_round k b acc shift r tail small room ha hs h =
    let (r', h', e) = round k (b + 128) acc shift r tail (omega arith) ha fits h in
    (r', h', e ∙ ground (arith, same))
  where
    same : (b + 128) % 128 ≡ b
    same = omega arith

    fits : (b + 128) % 128 * 2 ^ shift < 2 ^ 64
    fits = rw same hs

scaled : (x m s : ℕ) → x < m → 0 < s → s * m ≡ 2 ^ 64 → x * s < 2 ^ 64
scaled x m s h pos e = omega (arith, mul-lt-mul_of_pos_left {k = s} h pos)

shift_seven : (s : ℕ) → 2 ^ (s + 7) ≡ 128 * 2 ^ s
shift_seven s = simp towards_suc (omega arith)

power : (k s : ℕ) → 2 ^ s * (2 * 128 ^ suc k) ≡ 2 ^ 64 → 2 ^ (s + 7) * (2 * 128 ^ k) ≡ 2 ^ 64
power k s h = rw shift_seven (omega (arith, h, ap (λ (t : ℕ). 2 ^ s * t) (pow-suc 128 k)))

room : (b acc s : ℕ) → b < 128 → acc < 2 ^ s → acc + b * 2 ^ s < 2 ^ (s + 7)
room b acc s hb ha = rw shift_seven (omega (arith, mul-le-mul_right (2 ^ s) hb))

regroup : (v acc s : ℕ) → acc + v % 128 * 2 ^ s + v / 128 * 2 ^ (s + 7) ≡ acc + v * 2 ^ s
regroup v acc s = rw shift_seven (omega (arith, ap (λ (t : ℕ). t * 2 ^ s) (div-add-mod v 128)))

-- With `k` rounds to go the shift is 63 - 7 * k, and what is left of the value fits the word.
loop-Reads :
    (k v acc shift : ℕ) (r : Reader) (post : List ℕ)
    → shift + 7 * k ≡ 63
    → 2 ^ shift * (2 * 128 ^ k) ≡ 2 ^ 64
    → v < 2 * 128 ^ k
    → acc < 2 ^ shift
    → rest r ≡ encoded v ++ post
    → Reads (uvarint_loop (suc k) r acc shift) (acc + v * 2 ^ shift) post
loop-Reads zero v acc shift r post hs hp hv ha h =
    last_round 0 v acc shift r post (omega arith) (λ _. omega arith) ha
      (scaled v (2 * 128 ^ 0) (2 ^ shift) hv (omega arith) hp)
      (rw (encoded_last v (omega arith)) at h)
loop-Reads (suc k) v acc shift r post hs hp hv ha h = elim (dec_lt 127 v) [
  | no n ↦
      last_round (suc k) v acc shift r post (omega arith) (λ e. absurd (omega arith)) ha
        (scaled v (2 * 128 ^ suc k) (2 ^ shift) hv (omega arith) hp)
        (rw (encoded_last v (omega arith)) at h)
  | yes big ↦
      let (r', h', e) =
        more_round (suc k) (v % 128) acc shift r (encoded (v / 128) ++ post) (omega arith)
          (omega arith) ha
          (scaled (v % 128) (2 * 128 ^ suc k) (2 ^ shift) (omega arith) (omega arith) hp)
          (rw (encoded_more v big) at h) in
      let (r'', e', h'') =
        loop-Reads k (v / 128) (acc + v % 128 * 2 ^ shift) (shift + 7) r' post (omega arith)
          (power k shift hp) (omega (arith, pow-suc 128 k))
          (room (v % 128) acc shift (omega arith) ha) h' in
      (r'', e ∙ e' ∙ ap (λ (t : ℕ). ok (t, r'')) (regroup v acc shift), h'')
]

-- `uvarint` reads back the u64 that `put_uvarint` wrote, and leaves what follows.
pub uvarint-Reads :
    (r : Reader) (v : ℕ) (post : List ℕ)
    → IsU64 v
    → rest r ≡ encoded v ++ post
    → Reads (uvarint r) v post
unfolding uvarint
uvarint-Reads r v post hv h =
    subst (λ (t : ℕ). Reads (uvarint_loop 10 r 0 0) t post) (omega arith)
      (loop-Reads 9 v 0 0 r post (omega arith) (omega arith) (omega arith) (omega arith) h)

pub put_len_prefixed_append :
    (dst xs : List ℕ)
    → IsU64 (length xs)
    → put_len_prefixed dst xs ≡ dst ++ (encoded (length xs) ++ xs)
unfolding put_len_prefixed
put_len_prefixed_append dst xs h =
    ap (λ (n : ℕ). put_uvarint dst n ++ xs) (mod-eq_of_lt h)
    ∙ ap (λ (l : List ℕ). l ++ xs) (put_uvarint_append dst (length xs))
    ∙ append_assoc dst (encoded (length xs)) xs

pub len_prefixed-Reads :
    (r : Reader) (xs post : List ℕ)
    → IsU64 (length xs)
    → rest r ≡ (encoded (length xs) ++ xs) ++ post
    → Reads (len_prefixed r) xs post
unfolding len_prefixed
len_prefixed-Reads r xs post hx h =
    Reads-bind (uvarint r) _ (length xs) (xs ++ post) xs post
      (uvarint-Reads r (length xs) (xs ++ post) hx (h ∙ append_assoc (encoded (length xs)) xs post))
      λ r' e.
        let (r'', e', h') = bytes-Reads r' xs post e in (r'', ground (arith, within r' e, e'), h')
  where
    within : (r' : Reader) → rest r' ≡ xs ++ post → ltb (length r'.buf - r'.pos) (length xs) ≡ false
    within r' e =
        le→ltb _ _
          (omega (arith, length-drop r'.pos r'.buf, ap {B = ℕ} length e, length-append xs post))

suc_rounds : (k more : ℕ) → suc k + more ≡ suc (k + more)
suc_rounds k more = omega arith

-- The bound on the rounds is never met: `shift > 63` or a byte below 0x80 ends the loop before.
uvarint_loop_rounds :
    (k more v shift : ℕ) (r : Reader)
    → shift + 7 * k ≡ 63
    → uvarint_loop (suc k + more) r v shift ≡ uvarint_loop (suc k) r v shift
unfolding uvarint_loop
uvarint_loop_rounds zero more v shift r h =
    rw (suc_rounds 0 more)
      (elim (Result-cases (u8 r)) [ inl ((b, r'), e) ↦ rw e (ground arith) | inr (x, e) ↦ rw e ])
uvarint_loop_rounds (suc k) more v shift r h =
    rw (suc_rounds (suc k) more) (elim (Result-cases (u8 r)) [
      | inl ((b, r'), e) ↦ rw e (
          ground (
            arith,
            uvarint_loop_rounds k more (bit_or v (bit_and b 0x7f * 2 ^ shift % 2 ^ 64)) (shift + 7)
                r' (omega arith),
          ))
      | inr (x, e) ↦ rw e
    ])

-- However many more rounds the loop is allowed, `uvarint` answers the same.
pub uvarint_rounds : (r : Reader) (more : ℕ) → uvarint_loop (10 + more) r 0 0 ≡ uvarint r
unfolding uvarint
uvarint_rounds r more = uvarint_loop_rounds 9 more 0 0 r (omega arith)
