-- ===== src/Manifest/Utf8.antt =====
-- What the code uses of `String::from_utf8`: whether bytes are well-formed UTF-8 (RFC 3629).
use fluent.Prelude.{
  ℕ, leb, if◌then◌else◌, Bool, true, false, ◌&&◌, List, [], ◌∷◌, Option, none, some,
}

-- The ranges of the bytes that are still to come in a sequence that this byte starts.
abbrev continuation : ℕ × ℕ
continuation = (0x80, 0xbf)

unfoldable pub starts : ℕ → Option (List (ℕ × ℕ))
starts b =
    if leb b 0x7f
    then some []
    else if leb 0xc2 b && leb b 0xdf
    then some (continuation ∷ [])
    else if leb b 0xe0 && leb 0xe0 b
    then some ((0xa0, 0xbf) ∷ continuation ∷ [])
    else if leb b 0xed && leb 0xed b
    then some ((0x80, 0x9f) ∷ continuation ∷ [])
    else if leb 0xe1 b && leb b 0xef
    then some (continuation ∷ continuation ∷ [])
    else if leb b 0xf0 && leb 0xf0 b
    then some ((0x90, 0xbf) ∷ continuation ∷ continuation ∷ [])
    else if leb 0xf1 b && leb b 0xf3
    then some (continuation ∷ continuation ∷ continuation ∷ [])
    else if leb b 0xf4 && leb 0xf4 b
    then some ((0x80, 0x8f) ∷ continuation ∷ continuation ∷ [])
    else none

unfoldable pub utf8_after : List (ℕ × ℕ) → List ℕ → Bool
unfolding starts
utf8_after [] [] = true
utf8_after (range ∷ ranges) [] = false
utf8_after ((lo, hi) ∷ ranges) (b ∷ bs) = leb lo b && leb b hi && utf8_after ranges bs
utf8_after [] (b ∷ bs) = elim (starts b) [ none ↦ false | some ranges ↦ utf8_after ranges bs ]

unfoldable pub is_utf8 : List ℕ → Bool
unfolding utf8_after
is_utf8 bs = utf8_after [] bs
