-- ===== src/Text/Utf8.antt =====
-- `std::str::from_utf8`: whether bytes are UTF-8, by the table of well-formed sequences.
use ldk_server.Prelude.{
  ℕ, zero, suc, ◌≡◌, refl, Bool, true, false, ◌&&◌, Option, none, some, List, [], ◌∷◌, arith, all,
  ltb, leb, ◌==◌, if◌then◌else◌,
}

-- How many bytes of a character are still to come, and the bounds of the next one.
abbrev Expected : Type 0
Expected = ℕ × ℕ × ℕ

abbrev at_start : Expected
at_start = (0, 128, 191)

-- what is expected after the first byte of a character
abbrev after_first : ℕ → Option Expected
after_first b =
    if ltb b 128
    then some at_start
    else if leb 194 b && leb b 223
    then some (1, 128, 191)
    else if b == 224
    then some (2, 160, 191)
    else if b == 237
    then some (2, 128, 159)
    else if leb 225 b && leb b 239
    then some (2, 128, 191)
    else if b == 240
    then some (3, 144, 191)
    else if leb 241 b && leb b 243
    then some (3, 128, 191)
    else if b == 244
    then some (3, 128, 143)
    else none

abbrev after_byte : Expected → ℕ → Option Expected
after_byte (zero, low, high) b = after_first b
after_byte (suc n, low, high) b = if leb low b && leb b high then some (n, 128, 191) else none

unfoldable pub scan : Option Expected → List ℕ → Bool
scan none s = false
scan (some (zero, low, high)) [] = true
scan (some (suc n, low, high)) [] = false
scan (some e) (b ∷ s) = scan (after_byte e b) s

unfoldable pub is_utf8 : List ℕ → Bool
unfolding scan
is_utf8 s = scan (some at_start) s

-- ASCII is UTF-8.
pub is_utf8-ascii : (s : List ℕ) → all (λ b. ltb b 128) s ≡ true → is_utf8 s ≡ true
unfolding is_utf8 scan
is_utf8-ascii [] h = refl
is_utf8-ascii (b ∷ s) h = ground (arith, h, is_utf8-ascii s)
