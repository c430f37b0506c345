-- ===== src/Iter/Merge.antt =====
-- crates/fluent31/src/iter.rs: the merge of cursors is a cursor over the merged entries.
use mathlib.Core.Path.{subst}
use fluent.Prelude.{
  All-map, ℕ, ◌≡◌, refl, ap, ◌∙◌, sym, arith, Bool, true, false, if◌then◌else◌, List, [], ◌∷◌, ◌++◌,
  map, length, All, none, some, set,
}
use fluent.Result.{Result, ok}
use fluent.Iter.{
  Entry, InternalIterator, MergeIterator, pick_loop, index_of, pick, each, seek_children,
  move_current, at_current, merge,
}
use fluent.Iter.Walk.{Walk, Before, Sorted, from, from-Sorted}
use fluent.Iter.Interleave.{Interleaves, done, take, All-split, Interleaves-All, Interleaves-from}
use fluent.Iter.Pick.{
  set-middle, All2, Stand, BeforeHead, Stand-split, Stand-join, loop_finds, loop_none,
}

empty_lists : {ls : List (List Entry)} → Interleaves ls [] → All (λ l. l ≡ []) ls
empty_lists (done h) = h

taken :
    {ls : List (List Entry)} {e : Entry} {l : List Entry}
    → Interleaves ls (e ∷ l)
    → (pre : List (List Entry)) × (es : List Entry) × (post : List (List Entry)) × (ls
        ≡ pre ++ ((e ∷ es) ∷ post))
      × Interleaves (pre ++ (es ∷ post)) l
taken (take pre e es post i) = (pre, es, post, refl, i)

-- One definition for both directions.
module _ (I : InternalIterator) where
  merge_step :
      (reverse : Bool) (it : MergeIterator I)
      → move_current I (λ s. if reverse then I.prev s else I.next s) it
        ≡ (if reverse then (merge I).prev it else (merge I).next it)
  merge_step true it = refl
  merge_step false it = refl

  merge_start :
      (reverse : Bool) (it : MergeIterator I)
      → seek_children I (λ s. if reverse then I.seek_to_last s else I.seek_to_first s) it
        ≡ (if reverse then (merge I).seek_to_last it else (merge I).seek_to_first it)
  merge_start true it = refl
  merge_start false it = refl

  merge_target :
      (reverse : Bool) (it : MergeIterator I) (t : List ℕ)
      → seek_children I (λ s. if reverse then I.seek_for_prev s t else I.seek s t) it
        ≡ (if reverse then (merge I).seek_for_prev it t else (merge I).seek it t)
  merge_target true it t = refl
  merge_target false it t = refl

module _ (I : InternalIterator) where
  part_at :
      (part : I.State → List ℕ) (it : MergeIterator I) (before : List I.State) (c : I.State)
      (after : List I.State)
      → it.children ≡ before ++ (c ∷ after)
      → it.cur ≡ some (length before)
      → at_current I part it ≡ part c
  unfolding at_current
  part_at part it before c after split current =
      let (at, _) = set-middle before c after c in rw (current, split, at_current, at) refl

  move_at :
      (op : I.State → Result I.State) (it : MergeIterator I) (before : List I.State) (c : I.State)
      (after : List I.State) (c' : I.State)
      → it.children ≡ before ++ (c ∷ after)
      → it.cur ≡ some (length before)
      → op c ≡ ok c'
      → move_current I op it ≡ ok (pick I (record it { children = before ++ (c' ∷ after) }))
  unfolding move_current
  move_at op it before c after c' split current moved =
      let (at, put) = set-middle before c after c' in
      rw (current, split, move_current, at, moved)
        (ap (λ (cs : List I.State). ok (pick I (record it { children = cs })))
          (ap (λ (cs : List I.State). set cs (length before) c') split ∙ put))

module _ (I : InternalIterator) (reverse : Bool) (w : Walk I reverse) where
  -- The children stand before lists of which this sorted one is an interleaving.
  pub record Merged (it : MergeIterator I) (l : List Entry) : Type 0 where
    pub lists : List (List Entry)
    pub stand : Stand I reverse w it.children lists
    pub woven : Interleaves lists l
    pub sorted : Sorted reverse l
    pub direction : it.reverse ≡ reverse
    pub picked : it.cur ≡ index_of I (pick_loop I reverse 0 it.children none)

  record Current (it : MergeIterator I) (e : Entry) (l : List Entry) : Type 0 where
    before : List I.State
    child : I.State
    after : List I.State
    pre : List (List Entry)
    es : List Entry
    post : List (List Entry)
    split : it.children ≡ before ++ (child ∷ after)
    current : it.cur ≡ some (length before)
    stand_before : Stand I reverse w before pre
    ahead : w.Ahead child (e ∷ es)
    stand_after : Stand I reverse w after post
    woven : Interleaves (pre ++ (es ∷ post)) l

  heads :
      (e : Entry) (ls : List (List Entry))
      → All (All (λ x. Before reverse e.0 x.0)) ls
      → All (BeforeHead I reverse w e) ls
  heads e ls h = All-map _ (BeforeHead I reverse w e) ls head h
    where
      head : (l : List Entry) → All (λ x. Before reverse e.0 x.0) l → BeforeHead I reverse w e l
      head [] h = tt
      head (x ∷ l) h = h.0

  Merged-Current :
      (it : MergeIterator I) (e : Entry) (l : List Entry) → Merged it (e ∷ l) → Current it e l
  Merged-Current it e l m =
      let (pre, es, post, lists, woven) = taken m.woven in
      let (before, c, after, split, len, p, a, r) =
        Stand-split I reverse w it.children pre (e ∷ es) post
          (subst (λ (ls : List (List Entry)). Stand I reverse w it.children ls) lists m.stand) in
      let (early, _, late) =
        All-split (All (λ x. Before reverse e.0 x.0)) pre es post
          (Interleaves-All (λ x. Before reverse e.0 x.0) (pre ++ (es ∷ post)) l woven m.sorted.0) in
      record {
        before = before;
        child = c;
        after = after;
        pre = pre;
        es = es;
        post = post;
        split = split;
        current =
            m.picked
            ∙ ap (λ (cs : List I.State). index_of I (pick_loop I reverse 0 cs none)) split
            ∙ ap (index_of I) (
                loop_finds I reverse w e es 0 before c after pre post none p a r (heads e pre early)
                  (heads e post late) tt)
            ∙ ap some (omega arith);
        stand_before = p;
        ahead = a;
        stand_after = r;
        woven = woven;
      }

  Merged-ended : (it : MergeIterator I) → Merged it [] → (merge I).valid it ≡ false
  Merged-ended it m =
      rw (m.picked, loop_none I reverse w 0 it.children m.lists m.stand (empty_lists m.woven)) refl

  Merged-here :
      (it : MergeIterator I) (e : Entry) (l : List Entry)
      → Merged it (e ∷ l)
      → ((merge I).valid it ≡ true) × ((merge I).ikey it ≡ e.0) × ((merge I).value it ≡ e.1)
  Merged-here it e l m =
      let c = Merged-Current it e l m in
      let (_, key, value) = w.here c.child e c.es c.ahead in
      (
        rw c.current refl,
        part_at I I.ikey it c.before c.child c.after c.split c.current ∙ key,
        part_at I I.value it c.before c.child c.after c.split c.current ∙ value,
      )

  abbrev step_op : I.State → Result I.State
  step_op s = if reverse then I.prev s else I.next s

  move_lem :
      (it : MergeIterator I) (e : Entry) (l : List Entry)
      → Merged it (e ∷ l)
      → (it' : MergeIterator I) × (move_current I step_op it ≡ ok it') × Merged it' l
  unfolding pick
  move_lem it e l m =
      let c = Merged-Current it e l m in
      let (child', moved, ahead) = w.step c.child e c.es c.ahead in
      let children' = c.before ++ (child' ∷ c.after) in
      (
        pick I (record it { children = children' }),
        move_at I step_op it c.before c.child c.after child' c.split c.current moved,
        record {
          lists = c.pre ++ (c.es ∷ c.post);
          stand =
              Stand-join I reverse w c.before child' c.after c.pre c.es c.post c.stand_before ahead
                c.stand_after;
          woven = c.woven;
          sorted = m.sorted.1;
          direction = m.direction;
          picked = ap (λ (b : Bool). index_of I (pick_loop I b 0 children' none)) m.direction;
        },
      )

  pub record MergedOver (it : MergeIterator I) (l : List Entry) : Type 0 where
    pub lists : List (List Entry)
    pub over : All2 w.Over it.children lists
    pub woven : Interleaves lists l
    pub sorted : Sorted reverse l
    pub direction : it.reverse ≡ reverse

  each_stands :
      (op : I.State → Result I.State) (cut : List Entry → List Entry) (cs : List I.State)
      (ls : List (List Entry))
      → ((s : I.State) (l : List Entry)
          → w.Over s l
          → (s' : I.State) × (op s ≡ ok s') × w.Ahead s' (cut l))
      → All2 w.Over cs ls
      → (cs' : List I.State) × (each I op cs ≡ ok cs') × Stand I reverse w cs' (map cut ls)
  unfolding each
  each_stands op cut [] [] law h = ([], refl, tt)
  each_stands op cut [] (l ∷ ls) law h = absurd h
  each_stands op cut (c ∷ cs) [] law h = absurd h
  each_stands op cut (c ∷ cs) (l ∷ ls) law (h, hs) =
      let (c', e, a) = law c l h in
      let (cs', es, as') = each_stands op cut cs ls law hs in (c' ∷ cs', rw (e, es) refl, (a, as'))

  seek_lem :
      (op : I.State → Result I.State) (cut : List Entry → List Entry) (it : MergeIterator I)
      (ls : List (List Entry)) (l : List Entry)
      → ((s : I.State) (x : List Entry)
          → w.Over s x
          → (s' : I.State) × (op s ≡ ok s') × w.Ahead s' (cut x))
      → All2 w.Over it.children ls
      → Interleaves (map cut ls) l
      → Sorted reverse l
      → it.reverse ≡ reverse
      → (it' : MergeIterator I) × (seek_children I op it ≡ ok it') × Merged it' l
  unfolding seek_children pick
  seek_lem op cut it ls l law over woven sorted direction =
      let (cs', e, stand) = each_stands op cut it.children ls law over in
      (
        pick I (record it { children = cs' }),
        rw e refl,
        record {
          lists = map cut ls;
          stand = stand;
          woven = woven;
          sorted = sorted;
          direction = direction;
          picked = ap (λ (b : Bool). index_of I (pick_loop I b 0 cs' none)) direction;
        },
      )

  map-id : (ls : List (List Entry)) → map (λ l. l) ls ≡ ls
  map-id [] = refl
  map-id (l ∷ ls) = ap (λ (x : List (List Entry)). l ∷ x) (map-id ls)

  -- A merge of cursors keeps their promises over the merged entries.
  pub merge-Walk : Walk (merge I) reverse
  merge-Walk = record {
    Ahead = Merged;
    ended = Merged-ended;
    here = Merged-here;
    step = λ it e l m.
        let (it', moved, m') = move_lem it e l m in
        (it', sym (merge_step I reverse it) ∙ moved, m');
    Over = MergedOver;
    seek_start = λ it l m.
        let (it', moved, m') =
          seek_lem (λ s. if reverse then I.seek_to_last s else I.seek_to_first s) (λ x. x) it
            m.lists l w.seek_start m.over
            (subst (λ (ls : List (List Entry)). Interleaves ls l) (sym (map-id m.lists)) m.woven)
            m.sorted m.direction in
        (it', sym (merge_start I reverse it) ∙ moved, m');
    seek_target = λ it l t m.
        let (it', moved, m') =
          seek_lem (λ s. if reverse then I.seek_for_prev s t else I.seek s t) (from reverse t) it
            m.lists (from reverse t l) (λ s x. w.seek_target s x t) m.over
            (Interleaves-from reverse t m.lists l m.woven m.sorted)
            (from-Sorted reverse t l m.sorted) m.direction in
        (it', sym (merge_target I reverse it t) ∙ moved, m');
  }

  pub merge-Over : (it : MergeIterator I) (l : List Entry) → MergedOver it l → merge-Walk.Over it l
  unfolding merge-Walk
  merge-Over it l m = m
