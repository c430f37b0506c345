-- ===== src/Block/Cursor.antt =====
-- crates/fluent31/src/block.rs: where the cursor of a block stands after its operations.
use mathlib.Core.Path.{subst}
use fluent.Prelude.{
  ℕ, zero, suc, ◌-◌, ◌≡◌, refl, ap, ◌∙◌, sym, arith, ltb, ◌==◌, false, Bool-cases, inl, inr,
  if◌then◌else◌, Ordering, List, [], ◌∷◌, ◌++◌, length, All, ltb→lt,
}
use fluent.Result.{ok}
use fluent.Bytes.{is_eq, is_gt}
use fluent.Types.{cmp_ikey}
use fluent.Types.Ikey.{cmp_ikey-flip}
use fluent.OrderedMap.{IsSorted}
use fluent.Memtable.Skiplist.{ikey_order, cmp_ikey_eq}
use fluent.Block.{Block, BlockIter, entry, seek_to_first, seek_for_prev, valid, next, prev}
use fluent.Block.Built.{Entry, Fits, IsEntry, block_of, entry-built}
use fluent.Block.Search.{
  first_not_below, first_not_below-le, lower_bound-built, split_at, All-middle,
}

-- The number of entries at the head of the list that are not above the target.
unfoldable pub not_above : List ℕ → List Entry → ℕ
not_above t [] = 0
not_above t (e ∷ es) = let rest = not_above t es in if is_gt (cmp_ikey e.0 t) then 0 else suc rest

none_not_above :
    (t : List ℕ) (b : Entry) (es : List Entry)
    → cmp_ikey b.0 t ≡ Ordering.eq
    → All (λ x. cmp_ikey b.0 x.0 ≡ Ordering.lt) es
    → not_above t es ≡ 0
unfolding not_above
none_not_above t b [] h k = refl
none_not_above t b (e ∷ es) h k = ground (arith, h, k.0, cmp_ikey_eq b.0 t e.0, cmp_ikey-flip t e.0)

-- Only an entry equal to the target lies between the two bounds.
bounds_meet :
    (t : List ℕ) (before : List Entry) (e : Entry) (after : List Entry)
    → IsSorted ikey_order (before ++ (e ∷ after))
    → length before ≡ first_not_below t (before ++ (e ∷ after))
    → not_above t (before ++ (e ∷ after))
      ≡ (if is_eq (cmp_ikey e.0 t) then suc (length before) else length before)
unfolding not_above first_not_below
bounds_meet t [] e after h k = ground (arith, k, none_not_above t e after, h.0)
bounds_meet t (b ∷ before) e after h k = ground (arith, k, bounds_meet t before e after h.1)

bounds_end :
    (t : List ℕ) (es : List Entry) → length es ≡ first_not_below t es → not_above t es ≡ length es
unfolding not_above first_not_below
bounds_end t [] k = refl
bounds_end t (e ∷ es) k = ground (arith, k, bounds_end t es)

-- `seek_for_prev` on a block built in order: the last entry not above the target, or an invalid
-- cursor where every entry is.
pub seek_for_prev-built :
    (es : List Entry) (pos : ℕ) (t : List ℕ)
    → Fits es
    → IsSorted ikey_order es
    → seek_for_prev (record { block = block_of es; pos = pos }) t
      ≡ ok (record {
        block = block_of es;
        pos = if not_above t es == 0 then length es else not_above t es - 1;
      })
unfolding seek_for_prev
seek_for_prev-built es pos t h sorted =
    rw (lower_bound-built es t h sorted)
      (elim (Bool-cases (ltb (first_not_below t es) (length es))) [
        | inr done ↦ rw done (ground (arith, done, first_not_below-le t es, bounds_end t es))
        | inl more ↦
            let (before, e, after, split, len) =
              split_at (first_not_below t es) es (ltb→lt _ _ more) in
            rw (more, found before e after split len)
              (ground (arith, meet before e after split len, len))
      ])
  where
    found :
        (before : List Entry) (e : Entry) (after : List Entry)
        → es ≡ before ++ (e ∷ after)
        → length before ≡ first_not_below t es
        → entry (block_of es) (first_not_below t es) ≡ ok e
    found before e after split len =
        ap (entry (block_of es)) (sym len)
        ∙ ap (λ (l : List Entry). entry (block_of l) (length before)) split
        ∙ entry-built before e after (subst Fits split h)
            (All-middle IsEntry before e after (subst Fits split h).are_entries)

    meet :
        (before : List Entry) (e : Entry) (after : List Entry)
        → es ≡ before ++ (e ∷ after)
        → length before ≡ first_not_below t es
        → not_above t es ≡ (if is_eq (cmp_ikey e.0 t) then suc (length before) else length before)
    meet before e after split len =
        ap (not_above t) split
        ∙ bounds_meet t before e after (subst (IsSorted ikey_order) split sorted)
            (len ∙ ap (first_not_below t) split)

-- The cursor after `n` steps forward.
unfoldable pub advance : ℕ → BlockIter → BlockIter
advance zero it = it
advance (suc n) it = next (advance n it)

advance_lem :
    (b : Block) (n pos : ℕ)
    → advance n (seek_to_first (record { block = b; pos = pos })) ≡ record { block = b; pos = n }
unfolding advance seek_to_first next
advance_lem b zero pos = refl
advance_lem b (suc n) pos =
    ap next (advance_lem b n pos) ∙ ap (λ (k : ℕ). record { block = b; pos = k }) (omega arith)

-- From the first entry, `n` steps lead to entry `n`, where the cursor is valid exactly below the
-- count; a step back after one more step is at entry `n` again, and a step back from the first entry
-- makes the cursor invalid.
pub walk_lem :
    (b : Block) (n pos : ℕ)
    → (advance n (seek_to_first (record { block = b; pos = pos })) ≡ record { block = b; pos = n })
      × (valid (advance n (seek_to_first (record { block = b; pos = pos }))) ≡ ltb n b.count)
      × (valid (prev (seek_to_first (record { block = b; pos = pos }))) ≡ false)
      × (prev (next (advance n (seek_to_first (record { block = b; pos = pos }))))
          ≡ record { block = b; pos = n })
walk_lem b n pos = (
  advance_lem b n pos,
  ap valid (advance_lem b n pos) ∙ unfold valid in refl,
  unfold seek_to_first prev valid in ground arith,
  ap (λ (it : BlockIter). prev (next it)) (advance_lem b n pos)
      ∙ unfold prev next in ap (λ (k : ℕ). record { block = b; pos = k }) (ground arith),
)
