-- ===== src/Common/Text.antt =====
-- Python's `str` where the code walks characters: `lower` and `in`.
use Prim.Native.Nat.{ℕ, ◌+◌}
use Prim.Native.Char.{code}
use Prim.Native.String.{String}
use mathlib.Core.Bool.{Bool, true, false, ◌&&◌, ◌||◌}
use mathlib.Core.List.{List, [], ◌∷◌, ◌++◌}
use ops_monitor.Common.Tests.{◌==◌, leb, if◌then◌else◌}

-- The code points of a text.
abbrev pub codes : String → List ℕ
codes String.[] = []
codes (String.◌∷◌ c s) = code c ∷ codes s

-- `str.lower` on one character: the ASCII letters, and the two other characters whose lower case
-- holds an ASCII letter (İ and the Kelvin sign). Any other character is kept: Python may map it, to
-- a character outside ASCII that no text searched for here holds.
unfoldable pub lower_char : ℕ → List ℕ
lower_char c =
    if leb b'A' c && leb c b'Z'
    then (c + 32) ∷ []
    else if c == 0x130
    then b'i' ∷ 0x307 ∷ []
    else if c == 0x212a
    then b'k' ∷ []
    else c ∷ []

unfoldable pub lower : List ℕ → List ℕ
unfolding lower_char
lower [] = []
lower (c ∷ s) = lower_char c ++ lower s

unfoldable pub is_prefix : List ℕ → List ℕ → Bool
is_prefix [] s = true
is_prefix (c ∷ t) [] = false
is_prefix (c ∷ t) (d ∷ s) = c == d && is_prefix t s

-- `t in s`
unfoldable pub contains : List ℕ → List ℕ → Bool
unfolding is_prefix
contains t [] = is_prefix t []
contains t (c ∷ s) = is_prefix t (c ∷ s) || contains t s
