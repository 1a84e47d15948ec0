-- ===== src/Identifier/Utf8.antt =====
-- unicode/utf8.ValidString of the Go library, as its documentation defines well-formed UTF-8
-- (RFC 3629): no surrogates, no overlong forms, nothing above U+10FFFF.
use dagworker.Base.{
  ℕ, Bool, true, false, ◌&&◌, Option, none, some, List, [], ◌∷◌, ltb, leb, ◌==◌, if◌then◌else◌,
  Text,
}

abbrev Range : Type 0
Range = ℕ × ℕ

abbrev continuation : Range
continuation = (0x80, 0xbf)

-- The bytes that must follow a lead byte, each by its range.
lead : ℕ → Option (List Range)
lead b =
    if ltb b 0x80
    then some []
    else if ltb b 0xc2
    then none
    else if ltb b 0xe0
    then some (continuation ∷ [])
    else if b == 0xe0
    then some ((0xa0, 0xbf) ∷ continuation ∷ [])
    else if b == 0xed
    then some ((0x80, 0x9f) ∷ continuation ∷ [])
    else if ltb b 0xf0
    then some (continuation ∷ continuation ∷ [])
    else if b == 0xf0
    then some ((0x90, 0xbf) ∷ continuation ∷ continuation ∷ [])
    else if ltb b 0xf4
    then some (continuation ∷ continuation ∷ continuation ∷ [])
    else if b == 0xf4
    then some ((0x80, 0x8f) ∷ continuation ∷ continuation ∷ [])
    else none

-- Reads the text with the ranges that are still due.
scan : List Range → Text → Bool
scan [] [] = true
scan (r ∷ due) [] = false
scan ((lo, hi) ∷ due) (b ∷ bs) = leb lo b && leb b hi && scan due bs
scan [] (b ∷ bs) = elim (lead b) [ none ↦ false | some due ↦ scan due bs ]

unfoldable pub valid_utf8 : Text → Bool
unfolding lead scan
valid_utf8 s = scan [] s
