-- ===== src/Payload/Utf8.antt =====
-- `std::str::from_utf8`: which byte strings are UTF-8, as the automaton of the standard's table of
-- well-formed sequences.
use moe_assets_updater_next.Prelude.{
  ℕ, ◌≤◌, ◌≡◌, Bool, true, false, ◌&&◌, List, [], ◌∷◌, arith, leb, ltb, if◌then◌else◌, All,
}

-- Between two characters, with one to three bytes of `0x80..=0xbf` to come, or after a lead byte
-- whose second byte is restricted further.
pub data Utf8 : Type 0 where
  start one two three after_e0 after_ed after_f0 after_f4 bad : Utf8

abbrev within : ℕ → ℕ → ℕ → Bool
within lo hi b = leb lo b && leb b hi

lead : ℕ → Utf8
lead b =
    if ltb b 0x80
    then start
    else if within 0xc2 0xdf b
    then one
    else if leb 0xe0 b && leb b 0xe0
    then after_e0
    else if within 0xe1 0xec b
    then two
    else if within 0xed 0xed b
    then after_ed
    else if within 0xee 0xef b
    then two
    else if within 0xf0 0xf0 b
    then after_f0
    else if within 0xf1 0xf3 b
    then three
    else if within 0xf4 0xf4 b
    then after_f4
    else bad

unfoldable pub utf8_step : Utf8 → ℕ → Utf8
unfolding lead
utf8_step start b = lead b
utf8_step one b = if within 0x80 0xbf b then start else bad
utf8_step two b = if within 0x80 0xbf b then one else bad
utf8_step three b = if within 0x80 0xbf b then two else bad
utf8_step after_e0 b = if within 0xa0 0xbf b then one else bad
utf8_step after_ed b = if within 0x80 0x9f b then one else bad
utf8_step after_f0 b = if within 0x90 0xbf b then two else bad
utf8_step after_f4 b = if within 0x80 0x8f b then two else bad
utf8_step bad b = bad

unfoldable pub utf8_from : Utf8 → List ℕ → Bool
unfolding utf8_step
utf8_from start [] = true
utf8_from one [] = false
utf8_from two [] = false
utf8_from three [] = false
utf8_from after_e0 [] = false
utf8_from after_ed [] = false
utf8_from after_f0 [] = false
utf8_from after_f4 [] = false
utf8_from bad [] = false
utf8_from state (b ∷ bs) = utf8_from (utf8_step state b) bs

unfoldable pub is_utf8 : List ℕ → Bool
unfolding utf8_from
is_utf8 = utf8_from start

-- ASCII text is UTF-8.
pub is_utf8_ascii : (bs : List ℕ) → All (λ b. b ≤ 0x7f) bs → is_utf8 bs ≡ true
unfolding is_utf8
is_utf8_ascii [] h = ground arith
is_utf8_ascii (b ∷ bs) h = ground (arith, is_utf8_ascii bs h.1)
