-- ===== src/Dhp1.antt =====
-- internal/dhp1/dhp1.go, with the `unicode.IsSpace` that it rests on.
use deadhorse.Common.{Bool, [], false, leb, true, ℕ, ◌&&◌, ◌==◌, ◌||◌, ◌∷◌}
use deadhorse.Common.Assoc.{Str}

-- `ModeReal` and `ModePeek`.
abbrev pub mode_text : Bool → Str
mode_text false = b'R' ∷ []
mode_text true = b'P' ∷ []

-- `unicode.IsSpace`: the white space of Latin-1, and the Unicode property White_Space beyond.
unfoldable pub is_space : ℕ → Bool
is_space r =
    (leb 9 r && leb r 13)
    || r == 0x20
    || r == 0x85
    || r == 0xa0
    || r == 0x1680
    || (leb 0x2000 r && leb r 0x200a)
    || r == 0x2028
    || r == 0x2029
    || r == 0x202f
    || r == 0x205f
    || r == 0x3000

abbrev pub pipe : ℕ
pipe = b'|'

unfoldable pub is_key_delimiter : ℕ → Bool
unfolding is_space
is_key_delimiter r = is_space r || r == pipe
