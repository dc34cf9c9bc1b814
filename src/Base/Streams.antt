-- ===== src/Base/Streams.antt =====
-- The text functions of the C++ library that the program calls: `std::getline` with a delimiter,
-- `>>` into a string, `find` with `substr`, and `std::stoi`.

use agent_pulse.Base.Tests.{ltb, leb, ◌==◌, if◌then◌else◌, value_or}
use agent_pulse.Base.Int.{ℤ, pos, negsuc, sub_ℕ}
use agent_pulse.Base.Texts.{Text}
use Prim.Native.Nat.{ℕ, zero, suc, ◌+◌, ◌-◌, ◌*◌, ◌/◌, ◌%◌}
use mathlib.Core.Bool.{Bool, true, false, ◌&&◌, ◌||◌}
use mathlib.Core.Option.{Option, none, some}
use mathlib.Core.List.{List, [], ◌∷◌, ◌++◌}

-- Repeated `getline(ss, token, d)`: the texts between the delimiters. `open` is the token being
-- read, if a byte of it was seen; a delimiter at the very end opens no further token.
unfoldable pub getlines : ℕ → Option Text → Text → List Text
getlines d none [] = []
getlines d (some tok) [] = tok ∷ []
getlines d tok (c ∷ cs) = elim (c == d) [
  | true ↦ value_or tok [] ∷ getlines d none cs
  | false ↦ getlines d (some (value_or tok [] ++ c ∷ [])) cs
]

-- `isspace` of the "C" locale.
abbrev pub is_space : ℕ → Bool
is_space c = c == b' ' || (leb 9 c && leb c 13)

-- Repeated `ss >> p`: the maximal runs of bytes that are no white space.
unfoldable pub words : Option Text → Text → List Text
words none [] = []
words (some w) [] = w ∷ []
words none (c ∷ cs) = words (if is_space c then none else some (c ∷ [])) cs
words (some w) (c ∷ cs) = elim (is_space c) [
  | true ↦ w ∷ words none cs
  | false ↦ words (some (w ++ c ∷ [])) cs
]

-- `s.find(c)` with the two `substr` around it: the text before the first `c` and the text after.
unfoldable pub cut : ℕ → Text → Option (Text × Text)
cut c [] = none
cut c (x ∷ xs) =
    if x == c
    then some ([], xs)
    else elim (cut c xs) [ none ↦ none | some (a, b) ↦ some (x ∷ a, b) ]

abbrev pub is_digit : ℕ → Bool
is_digit c = leb b'0' c && leb c b'9'

-- The value of the leading digits, `none` if there is none.
unfoldable pub digits_value : Option ℕ → Text → Option ℕ
digits_value acc [] = acc
digits_value acc (c ∷ cs) = elim (is_digit c) [
  | true ↦ digits_value (some (value_or acc 0 * 10 + (c - b'0'))) cs
  | false ↦ acc
]

abbrev pub int_max : ℕ
int_max = 2147483647

-- A magnitude with its sign, `none` outside of `int`.
unfoldable pub to_int : Bool → Option ℕ → Option ℤ
to_int negative none = none
to_int true (some n) = if leb n (int_max + 1) then some (sub_ℕ 0 n) else none
to_int false (some n) = if leb n int_max then some (pos n) else none

unfoldable pub stoi_sign : Text → Option ℤ
unfolding to_int digits_value
stoi_sign [] = none
stoi_sign (c ∷ cs) =
    if c == b'-'
    then to_int true (digits_value none cs)
    else if c == b'+'
    then to_int false (digits_value none cs)
    else to_int false (digits_value none (c ∷ cs))

-- `std::stoi`: white space is skipped, what follows the digits is ignored, and `none` stands for
-- the exceptions `invalid_argument` and `out_of_range`.
unfoldable pub stoi : Text → Option ℤ
unfolding stoi_sign
stoi [] = none
stoi (c ∷ cs) = if is_space c then stoi cs else stoi_sign (c ∷ cs)

unfoldable pub decimal_digits : ℕ → ℕ → Text
decimal_digits zero n = []
decimal_digits (suc fuel) n =
    let high = decimal_digits fuel (n / 10) in
    if ltb n 10 then (b'0' + n) ∷ [] else high ++ (b'0' + n % 10) ∷ []

-- `std::to_string`; each round divides by ten, so `n + 1` rounds are enough.
unfoldable pub decimal : ℕ → Text
unfolding decimal_digits
decimal n = decimal_digits (suc n) n

unfoldable pub to_string : ℤ → Text
unfolding decimal
to_string (pos n) = decimal n
to_string (negsuc n) = b'-' ∷ decimal (suc n)
