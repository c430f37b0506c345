-- ===== src/Iter/Pick.antt =====
-- crates/fluent31/src/iter.rs: the scan of `pick` finds the child at the next entry.
use mathlib.Core.Path.{subst}
use fluent.Prelude.{
  ℕ, suc, ◌+◌, ◌≡◌, refl, ap, ◌∙◌, arith, Bool, true, false, Bool-cases, inl, inr, List, [], ◌∷◌,
  ◌++◌, length, All, Option, none, some, get_elem?, set,
}
use fluent.Types.{cmp_ikey}
use fluent.Types.Ikey.{cmp_ikey-flip}
use fluent.Iter.{Entry, InternalIterator, better, pick_round, pick_loop}
use fluent.Iter.Walk.{Walk, Before}

pub set-middle {ℓ} :
    {A : Type ℓ} (xs : List A) (y : A) (ys : List A) (z : A)
    → (get_elem? (xs ++ (y ∷ ys)) (length xs) ≡ some y)
      × (set (xs ++ (y ∷ ys)) (length xs) z ≡ xs ++ (z ∷ ys))
set-middle [] y ys z = (refl, refl)
set-middle (x ∷ xs) y ys z = let (p, q) = set-middle xs y ys z in (p, ap (λ l. x ∷ l) q)

abbrev pub All2 {ℓ κ} : {A : Type ℓ} {B : Type κ} → (A → B → Type 0) → List A → List B → Type 0
All2 R [] [] = Unit
All2 R [] (y ∷ ys) = ⊥
All2 R (x ∷ xs) [] = ⊥
All2 R (x ∷ xs) (y ∷ ys) = R x y × All2 R xs ys

module _ (I : InternalIterator) (reverse : Bool) (w : Walk I reverse) where
  -- Each child stands before the list at its place.
  abbrev pub Stand : List I.State → List (List Entry) → Type 0
  Stand cs ls = All2 w.Ahead cs ls

  -- The entry comes before the first of the list.
  abbrev pub BeforeHead : Entry → List Entry → Type 0
  BeforeHead e [] = Unit
  BeforeHead e (x ∷ l) = Before reverse e.0 x.0

  -- No entry yet, or one that the given entry comes before.
  abbrev Worse : Entry → Option (ℕ × I.State) → Type 0
  Worse e none = Unit
  Worse e (some (b, c)) = Before reverse e.0 (I.ikey c)

  earlier : (a b : List ℕ) → Before reverse a b → better reverse (cmp_ikey a b) ≡ true
  earlier a b h = ground (arith, h)

  later : (a b : List ℕ) → Before reverse a b → better reverse (cmp_ikey b a) ≡ false
  later a b h = ground (arith, h, cmp_ikey-flip a b)

  round-Worse :
      (e : Entry) (i : ℕ) (c : I.State) (l : List Entry) (best : Option (ℕ × I.State))
      → w.Ahead c l
      → BeforeHead e l
      → Worse e best
      → Worse e (pick_round I reverse i c best)
  unfolding pick_round
  round-Worse e i c [] none a h k = rw (w.ended c a) tt
  round-Worse e i c [] (some (b, best)) a h k = rw (w.ended c a) k
  round-Worse e i c (x ∷ l) none a h k = let (v, key, _) = w.here c x l a in rw (v, key) h
  round-Worse e i c (x ∷ l) (some (b, best)) a h k =
      let (v, key, _) = w.here c x l a in
      elim (Bool-cases (better reverse (cmp_ikey (I.ikey c) (I.ikey best)))) [
        | inl wins ↦ rw (v, wins, key) h
        | inr loses ↦ rw (v, loses) k
      ]

  -- The child at the entry wins over what is worse, and keeps against what comes later.
  round_wins :
      (e : Entry) (es : List Entry) (i : ℕ) (c : I.State) (best : Option (ℕ × I.State))
      → w.Ahead c (e ∷ es)
      → Worse e best
      → pick_round I reverse i c best ≡ some (i, c)
  unfolding pick_round
  round_wins e es i c none a k = let (v, key, _) = w.here c e es a in rw v refl
  round_wins e es i c (some (b, best)) a k =
      let (v, key, _) = w.here c e es a in rw (v, key, earlier e.0 (I.ikey best) k) refl

  round_keeps :
      (e : Entry) (i j : ℕ) (c d : I.State) (l : List Entry)
      → I.ikey c ≡ e.0
      → w.Ahead d l
      → BeforeHead e l
      → pick_round I reverse j d (some (i, c)) ≡ some (i, c)
  unfolding pick_round
  round_keeps e i j c d [] key a h = rw (w.ended d a) refl
  round_keeps e i j c d (x ∷ l) key a h =
      let (v, key', _) = w.here d x l a in rw (v, key, key', later e.0 x.0 h) refl

  loop_keeps :
      (e : Entry) (i j : ℕ) (c : I.State) (cs : List I.State) (ls : List (List Entry))
      → I.ikey c ≡ e.0
      → Stand cs ls
      → All (BeforeHead e) ls
      → pick_loop I reverse j cs (some (i, c)) ≡ some (i, c)
  unfolding pick_loop
  loop_keeps e i j c [] ls key st h = refl
  loop_keeps e i j c (d ∷ cs) [] key st h = absurd st
  loop_keeps e i j c (d ∷ cs) (l ∷ ls) key (a, st) (b, h) =
      rw (round_keeps e i j c d l key a b) (loop_keeps e i (suc j) c cs ls key st h)

  pub Stand-split :
      (cs : List I.State) (pre : List (List Entry)) (l : List Entry) (post : List (List Entry))
      → Stand cs (pre ++ (l ∷ post))
      → (before : List I.State) × (c : I.State) × (after : List I.State) × (cs
          ≡ before ++ (c ∷ after))
        × (length before ≡ length pre)
        × Stand before pre
        × w.Ahead c l
        × Stand after post
  Stand-split [] [] l post st = absurd st
  Stand-split [] (x ∷ pre) l post st = absurd st
  Stand-split (c ∷ cs) [] l post (a, st) = ([], c, cs, refl, refl, tt, a, st)
  Stand-split (c ∷ cs) (x ∷ pre) l post (a, st) =
      let (before, d, after, split, len, p, q, r) = Stand-split cs pre l post st in
      (c ∷ before, d, after, ap (λ (k : List I.State). c ∷ k) split, ap suc len, (a, p), q, r)

  pub Stand-join :
      (before : List I.State) (c : I.State) (after : List I.State) (pre : List (List Entry))
      (l : List Entry) (post : List (List Entry))
      → Stand before pre
      → w.Ahead c l
      → Stand after post
      → Stand (before ++ (c ∷ after)) (pre ++ (l ∷ post))
  Stand-join [] c after [] l post p a r = (a, r)
  Stand-join [] c after (x ∷ pre) l post p a r = absurd p
  Stand-join (b ∷ before) c after [] l post p a r = absurd p
  Stand-join (b ∷ before) c after (x ∷ pre) l post (p, ps) a r =
      (p, Stand-join before c after pre l post ps a r)

  pub loop_finds :
      (e : Entry) (es : List Entry) (i : ℕ) (before : List I.State) (c : I.State)
      (after : List I.State) (pre post : List (List Entry)) (best : Option (ℕ × I.State))
      → Stand before pre
      → w.Ahead c (e ∷ es)
      → Stand after post
      → All (BeforeHead e) pre
      → All (BeforeHead e) post
      → Worse e best
      → pick_loop I reverse i (before ++ (c ∷ after)) best ≡ some (i + length before, c)
  unfolding pick_loop
  loop_finds e es i [] c after [] post best st a st' h h' k =
      let (v, key, _) = w.here c e es a in
      rw (round_wins e es i c best a k, pick_loop)
        (loop_keeps e i (suc i) c after post key st' h' ∙ ap (λ (n : ℕ). some (n, c)) (omega arith))
  loop_finds e es i [] c after (x ∷ pre) post best st a st' h h' k = absurd st
  loop_finds e es i (b ∷ before) c after [] post best st a st' h h' k = absurd st
  loop_finds e es i (b ∷ before) c after (l ∷ pre) post best (at_b, st) a st' (hb, h) h' k =
      loop_finds e es (suc i) before c after pre post (pick_round I reverse i b best) st a st' h h'
        (round-Worse e i b l best at_b hb k)
      ∙ ap (λ (n : ℕ). some (n, c)) (omega arith)

  pub loop_none :
      (i : ℕ) (cs : List I.State) (ls : List (List Entry))
      → Stand cs ls
      → All (λ l. l ≡ []) ls
      → pick_loop I reverse i cs none ≡ none
  unfolding pick_loop pick_round
  loop_none i [] ls st h = refl
  loop_none i (c ∷ cs) [] st h = absurd st
  loop_none i (c ∷ cs) (l ∷ ls) (a, st) (z, h) =
      rw (w.ended c (subst (w.Ahead c) z a)) (loop_none (suc i) cs ls st h)
