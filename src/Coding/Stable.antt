-- ===== src/Coding/Stable.antt =====
-- crates/fluent31/src/coding.rs: a read that succeeds looks at nothing behind what it takes, and a read
-- that fails reports corruption. So a decoder that succeeds on a prefix succeeds on the whole.
use fluent.Prelude.{
  ℕ, zero, suc, ◌+◌, ◌≤◌, ◌≡◌, ◌⊎◌, refl, ap, ◌∙◌, sym, arith, List, [], ◌∷◌, ◌++◌, length, take,
  drop, length-append, length-drop, Bool, true, false, if◌then◌else◌, ltb, ◌==◌, ◌&&◌, Bool-cases,
  inl, inr, bit_and, bit_or, ◌*◌, ◌%◌, ◌^◌, ltb-false, get_or,
}
use mathlib.Core.Path.{subst, fun_ext}
use fluent.Result.{Result-cases, Result, Error, ok, err, ◌>>=◌, corrupt, corruption}
use fluent.Coding.Reads.{rest}
use fluent.Coding.{
  Reader, bytes, u8, u32, u64, uvarint, uvarint_loop, len_prefixed, from_le_bytes, remaining, new,
}

abbrev pub Op {ℓ} : Type ℓ → Type ℓ
Op A = Reader → Result (A × Reader)

-- The reader with more input behind its own.
abbrev pub extend : Reader → List ℕ → Reader
extend r more = record r { buf = r.buf ++ more }

-- On a reader whose position is in its buffer: what a success says, and what a failure is.
pub record Stable {ℓ} {A : Type ℓ} (f : Op A) : Type ℓ where
  pub extends :
      (r r' : Reader) (v : A) (more : List ℕ)
      → r.pos ≤ length r.buf
      → f r ≡ ok (v, r')
      → (f (extend r more) ≡ ok (v, extend r' more))
        × (r'.buf ≡ r.buf)
        × (r.pos ≤ r'.pos)
        × (r'.pos ≤ length r'.buf)
  pub fails : (r : Reader) (e : Error) → f r ≡ err e → e ≡ corruption

take-append_le : (n : ℕ) (xs ys : List ℕ) → n ≤ length xs → take n (xs ++ ys) ≡ take n xs
take-append_le zero xs ys h = refl
take-append_le (suc n) [] ys h = absurd (omega arith)
take-append_le (suc n) (x ∷ xs) ys h = ap (λ t. x ∷ t) (take-append_le n xs ys (omega arith))

take-drop-append :
    (p n : ℕ) (xs ys : List ℕ) → p + n ≤ length xs → take n (drop p (xs ++ ys)) ≡ take n (drop p xs)
take-drop-append zero n xs ys h = take-append_le n xs ys (omega arith)
take-drop-append (suc p) n [] ys h = absurd (omega arith)
take-drop-append (suc p) n (x ∷ xs) ys h = take-drop-append p n xs ys (omega arith)

pub bytes-Stable : (n : ℕ) → Stable (λ r. bytes r n)
unfolding bytes
bytes-Stable n = record {
  extends = λ r r' v more fits e. extends r r' v more fits e (Bool-cases (ltb (remaining r) n));
  fails = λ r e h. ground arith;
}
  where
    extends :
        (r r' : Reader) (v more : List ℕ)
        → r.pos ≤ length r.buf
        → bytes r n ≡ ok (v, r')
        → (ltb (remaining r) n ≡ true) ⊎ (ltb (remaining r) n ≡ false)
        → (bytes (extend r more) n ≡ ok (v, extend r' more))
          × (r'.buf ≡ r.buf)
          × (r.pos ≤ r'.pos)
          × (r'.pos ≤ length r'.buf)
    extends r r' v more fits e (inl short) = absurd (ground (arith, short, e))
    extends r r' v more fits e (inr full) =
        let room : r.pos + n ≤ length r.buf = omega (arith, ltb-false _ _ full) in
        ground (arith, full, e, take-drop-append r.pos n r.buf more room, length-append r.buf more)

pub ok-Stable {ℓ} : {A : Type ℓ} (a : A) → Stable (λ (r : Reader). ok (a, r))
ok-Stable a = record { extends = λ r r' v more fits e. ground arith; fails = λ r e h. cc }

pub corrupt-Stable {ℓ} : {A : Type ℓ} → Stable {A = A} (λ (r : Reader). err corruption)
corrupt-Stable = record { extends = λ r r' v more fits e. cc; fails = λ r e h. cc }

err-injective {ℓ} : {A : Type ℓ} {x y : Error} → ◌≡◌ {A = Result A} (err x) (err y) → x ≡ y
err-injective e = cc

pub Stable-bind {ℓ κ} :
    {A : Type ℓ} {B : Type κ} (f : Op A) (g : A → Op B)
    → Stable f
    → ((a : A) → Stable (g a))
    → Stable (λ r. f r >>= λ x. g x.0 x.1)
Stable-bind f g sf sg = record {
  extends = λ r r' v more fits e. elim (Result-cases (f r)) [
    | inl ((a, r1), e1) ↦
        let (p1, b1, l1, h1) = sf.extends r r1 a more fits e1 in
        let (p2, b2, l2, h2) = (sg a).extends r1 r' v more h1 (rw e1 at e) in
        (rw p1 p2, b2 ∙ b1, omega arith, h2)
    | inr (x, e1) ↦ cc (e1, e)
  ];
  fails = λ r x h. elim (Result-cases (f r)) [
    | inl ((a, r1), e1) ↦ (sg a).fails r1 x (rw e1 at h)
    | inr (y, e1) ↦ sym (err-injective (rw e1 at h)) ∙ sf.fails r y e1
  ];
}

pub Stable-if {ℓ} :
    {A : Type ℓ} (b : Bool) (f g : Op A)
    → Stable f
    → Stable g
    → Stable (λ r. if b then f r else g r)
Stable-if true f g sf sg = sf
Stable-if false f g sf sg = sg

-- A check of what was read, before the reads that follow.
pub Stable-check {ℓ κ} :
    {A : Type ℓ} {B : Type κ} (m : Result A) (g : A → Op B)
    → ((e : Error) → m ≡ err e → e ≡ corruption)
    → ((a : A) → Stable (g a))
    → Stable (λ r. m >>= λ a. g a r)
Stable-check (ok a) g only sg = sg a
Stable-check (err x) g only sg = record {
  extends = λ r r' v more fits e. cc;
  fails = λ r e h. sym (err-injective h) ∙ only x refl;
}

pub u8-Stable : Stable u8
unfolding u8
u8-Stable = Stable-bind (λ r. bytes r 1) _ (bytes-Stable 1) (λ b. ok-Stable (get_or b 0 0))

pub u32-Stable : Stable u32
unfolding u32
u32-Stable = Stable-bind (λ r. bytes r 4) _ (bytes-Stable 4) (λ b. ok-Stable (from_le_bytes b))

pub u64-Stable : Stable u64
unfolding u64
u64-Stable = Stable-bind (λ r. bytes r 8) _ (bytes-Stable 8) (λ b. ok-Stable (from_le_bytes b))

uvarint_loop-Stable : (rounds v shift : ℕ) → Stable (λ r. uvarint_loop rounds r v shift)
unfolding uvarint_loop
uvarint_loop-Stable zero v shift = corrupt-Stable
uvarint_loop-Stable (suc rounds) v shift =
    Stable-bind u8
      (λ b r'.
        let v' = bit_or v (bit_and b 0x7f * 2 ^ shift % 2 ^ 64) in
        if shift == 63 && ltb 1 b
        then err corrupt
        else if ltb b 0x80
        then ok (v', r')
        else if ltb 63 (shift + 7)
        then err corrupt
        else uvarint_loop rounds r' v' (shift + 7))
      u8-Stable
      λ b.
        let v' = bit_or v (bit_and b 0x7f * 2 ^ shift % 2 ^ 64) in
        Stable-if (shift == 63 && ltb 1 b) _ _ corrupt-Stable (
          Stable-if (ltb b 0x80) _ _ (ok-Stable v') (
            Stable-if (ltb 63 (shift + 7)) _ _ corrupt-Stable
              (uvarint_loop-Stable rounds v' (shift + 7))))

pub uvarint-Stable : Stable uvarint
unfolding uvarint
uvarint-Stable = uvarint_loop-Stable 10 0 0

twice : (r : Reader) (n : ℕ) → (if ltb (remaining r) n then err corrupt else bytes r n) ≡ bytes r n
unfolding bytes
twice r n = ground arith

-- The length test of `len_prefixed` is the one that `bytes` makes again.
len_prefixed_lem : (r : Reader) → len_prefixed r ≡ (uvarint r >>= λ x. bytes x.1 x.0)
unfolding len_prefixed
len_prefixed_lem r = elim (Result-cases (uvarint r)) [
  | inl ((n, r'), e) ↦ rw e (twice r' n)
  | inr (x, e) ↦ rw e
]

pub len_prefixed-Stable : Stable len_prefixed
len_prefixed-Stable =
    subst Stable (sym (fun_ext len_prefixed_lem))
      (Stable-bind uvarint (λ n r. bytes r n) uvarint-Stable bytes-Stable)

snd_injective {ℓ} :
    {A : Type ℓ} {u v : A} {r s : Reader}
    → ◌≡◌ {A = Result (A × Reader)} (ok (u, r)) (ok (v, s))
    → r ≡ s
snd_injective e = cc

left_over :
    (r r' : Reader) (x : ℕ) (back : List ℕ)
    → r.pos ≤ length r.buf
    → extend r (x ∷ back) ≡ r'
    → rest r' ≡ []
    → ⊥
left_over r r' x back h e done = omega (
  arith,
  length-drop r'.pos r'.buf,
  ap {B = ℕ} length done,
  ap (λ (s : Reader). length s.buf) e,
  ap (λ (s : Reader). s.pos) e,
  length-append r.buf (x ∷ back),
)

-- A decoder that takes all of an input fails on each of its proper prefixes.
pub truncated {ℓ} :
    {A : Type ℓ} (f : Op A) (front : List ℕ) (x : ℕ) (back : List ℕ) (v : A) (r' : Reader)
    → Stable f
    → f (new (front ++ (x ∷ back))) ≡ ok (v, r')
    → rest r' ≡ []
    → f (new front) ≡ err corruption
truncated f front x back v r' sf e done = elim (Result-cases (f (new front))) [
  | inl ((u, r1), e1) ↦
      let (p, b, l, h) = sf.extends (new front) r1 u (x ∷ back) (omega arith) e1 in
      absurd (left_over r1 r' x back h (snd_injective (sym p ∙ e)) done)
  | inr (y, e1) ↦ rw (← (sf.fails (new front) y e1)) e1
]
