-- ===== src/Prelude/Text.antt =====
-- The functions of Go's `strings` that the handlers call. White space is Unicode's. Of the case
-- maps the ASCII part is exact, with the four other letters that Go maps into ASCII; a letter that
-- maps to a letter outside ASCII is left as it is, and no text that the code compares holds one.
use Prim.Native.Nat.{ℕ, ◌-◌}
use Prim.Native.Char.{Char, code}
use Prim.Native.String.{String, [], ◌∷◌, char_at}
use mathlib.Core.Path.{◌≡◌, refl}
use mathlib.Core.Logic.{inl, inr}
use mathlib.Core.Bool.{Bool, false, ◌&&◌, ◌||◌}
use native.Mathlib.Omega.{arith}
use xpace.Prelude.Tests.{leb, nat_beq, if◌then◌else◌, Bool-cases}

unfoldable pub is_space : ℕ → Bool
is_space c =
    (leb 9 c && leb c 13)
    || nat_beq c 32
    || nat_beq c 0x85
    || nat_beq c 0xa0
    || nat_beq c 0x1680
    || (leb 0x2000 c && leb c 0x200a)
    || nat_beq c 0x2028
    || nat_beq c 0x2029
    || nat_beq c 0x202f
    || nat_beq c 0x205f
    || nat_beq c 0x3000

trim_left : String → String
unfolding is_space
trim_left [] = []
trim_left (c ∷ s) = let rest = trim_left s in if is_space (code c) then rest else c ∷ s

abbrev pub is_empty : String → Bool
is_empty [] = Bool.true
is_empty (c ∷ s) = Bool.false

trim_right : String → String
unfolding is_space
trim_right [] = []
trim_right (c ∷ s) =
    let rest = trim_right s in if is_space (code c) && is_empty rest then [] else c ∷ rest

-- strings.TrimSpace
unfoldable pub trim_space : String → String
unfolding trim_left trim_right
trim_space s = trim_right (trim_left s)

abbrev pub has_space : String → Bool
has_space [] = false
has_space (c ∷ s) = is_space (code c) || has_space s

trim_left-solid : (s : String) → has_space s ≡ false → trim_left s ≡ s
unfolding trim_left
trim_left-solid [] h = refl
trim_left-solid (c ∷ s) h = ground arith

trim_right-solid : (s : String) → has_space s ≡ false → trim_right s ≡ s
unfolding trim_right
trim_right-solid [] h = refl
trim_right-solid (c ∷ s) h = elim (Bool-cases (is_space (code c))) [
  | inl e ↦ absurd (ground arith)
  | inr e ↦ rw (e, trim_right-solid s (ground arith)) refl
]

pub trim_space-solid : (s : String) → has_space s ≡ false → trim_space s ≡ s
unfolding trim_space
trim_space-solid s h = rw (trim_left-solid s h) (trim_right-solid s h)

upper_char : Char → Char
upper_char c =
    if leb b'a' (code c) && leb (code c) b'z'
    then char_at "ABCDEFGHIJKLMNOPQRSTUVWXYZ" (code c - b'a')
    else if nat_beq (code c) 0x131
    then "I"
    else if nat_beq (code c) 0x17f
    then "S"
    else c

lower_char : Char → Char
lower_char c =
    if leb b'A' (code c) && leb (code c) b'Z'
    then char_at "abcdefghijklmnopqrstuvwxyz" (code c - b'A')
    else if nat_beq (code c) 0x130
    then "i"
    else if nat_beq (code c) 0x212a
    then "k"
    else c

-- strings.ToUpper
unfoldable pub to_upper : String → String
unfolding upper_char
to_upper [] = []
to_upper (c ∷ s) = upper_char c ∷ to_upper s

-- strings.ToLower
unfoldable pub to_lower : String → String
unfolding lower_char
to_lower [] = []
to_lower (c ∷ s) = lower_char c ∷ to_lower s

-- The first characters of a text, as a slice of its runes.
unfoldable pub take_runes : ℕ → String → String
take_runes ℕ.zero s = []
take_runes (ℕ.suc n) [] = []
take_runes (ℕ.suc n) (c ∷ s) = c ∷ take_runes n s

unfoldable pub is_prefix : String → String → Bool
is_prefix [] s = Bool.true
is_prefix (c ∷ p) [] = false
is_prefix (c ∷ p) (d ∷ s) = nat_beq (code c) (code d) && is_prefix p s

-- strings.Contains, with the text that is looked for first.
unfoldable pub contains : String → String → Bool
unfolding is_prefix
contains p [] = is_empty p
contains p (c ∷ s) = is_prefix p (c ∷ s) || contains p s
