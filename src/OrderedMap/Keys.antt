-- ===== src/OrderedMap/Keys.antt =====
-- Byte strings as the keys of a `BTreeMap`.
use fluent.Prelude.{ap, List, ℕ}
use fluent.Bytes.{cmp_bytes}
use fluent.Bytes.Order.{cmp_bytes_refl, cmp_bytes-eq, cmp_bytes-flip, cmp_bytes_trans}
use fluent.OrderedMap.{Order}

abbrev pub bytes_order : Order (List ℕ)
bytes_order = record {
  cmp = cmp_bytes;
  cmp_refl = cmp_bytes_refl;
  cmp_flip = cmp_bytes-flip;
  cmp_trans = cmp_bytes_trans;
  cmp_eq = λ a b c h. ap (λ (k : List ℕ). cmp_bytes k c) (cmp_bytes-eq a b h);
}
