-- ===== src/Prelude/Numbers.antt =====
-- str::parse for an unsigned integer, of at most a given value.
use Prim.Native.Nat.{ℕ, ◌+◌, ◌-◌, ◌*◌}
use mathlib.Core.Bool.{not, ◌&&◌}
use mathlib.Core.List.{[], ◌∷◌}
use mcp_komodo_rs.Prelude.Tests.{ltb, leb, ◌==◌, if◌then◌else◌}
use mcp_komodo_rs.Prelude.Lists.{is_empty}
use mcp_komodo_rs.Prelude.Results.{Result, ok, err}
use mcp_komodo_rs.Prelude.Text.{Text, text}

-- The Display of ParseIntError.
abbrev pub empty_number : Text
empty_number = text "cannot parse integer from empty string"

abbrev pub invalid_digit : Text
invalid_digit = text "invalid digit found in string"

abbrev pub pos_overflow : Text
pos_overflow = text "number too large to fit in target type"

-- The digits of a number, from the left, onto those before them.
unfoldable pub parse_digits : ℕ → ℕ → Text → Result Text ℕ
parse_digits largest value [] = ok value
parse_digits largest value (c ∷ s) =
    let next = value * 10 + (c - b'0') in
    let rest = parse_digits largest next s in
    if not (leb b'0' c && leb c b'9')
    then err invalid_digit
    else if ltb largest next
    then err pos_overflow
    else rest

-- `str::parse` to an unsigned integer
unfoldable pub parse : ℕ → Text → Result Text ℕ
unfolding parse_digits
parse largest [] = err empty_number
parse largest (c ∷ s) =
    if c == b'+'
    then if is_empty s then err invalid_digit else parse_digits largest 0 s
    else parse_digits largest 0 (c ∷ s)
