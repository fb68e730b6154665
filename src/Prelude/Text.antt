-- ===== src/Prelude/Text.antt =====
-- Python's `str` methods that the program uses, on ASCII texts.
use Prim.Native.Char.{Char, code}
use Prim.Native.Nat.{ℕ, zero, suc, ◌+◌, ◌/◌, ◌%◌, ◌*◌, ◌-◌}
use Prim.Native.String.{String, [], ◌∷◌, ◌++◌}
use mathlib.Core.Bool.{Bool, true, false, ◌&&◌, ◌||◌}
use agent_workflow_superviso.Prelude.Equality.{◌==◌, nat_eq, if◌then◌else◌}
use agent_workflow_superviso.Prelude.Compare.{leb}

-- `str.translate` for one character, from one alphabet to another.
unfoldable pub translate : String → String → Char → Char
translate [] _ c = c
translate (a ∷ as') [] c = c
translate (a ∷ as') (b ∷ bs) c =
    let rest = translate as' bs c in if code a == code c then b else rest

unfoldable pub map_chars : (Char → Char) → String → String
map_chars f [] = []
map_chars f (c ∷ s) = f c ∷ map_chars f s

abbrev lower_letters : String
lower_letters = "abcdefghijklmnopqrstuvwxyz"

abbrev upper_letters : String
upper_letters = "ABCDEFGHIJKLMNOPQRSTUVWXYZ"

-- `s.upper()`
unfoldable pub upper : String → String
unfolding map_chars translate
upper = map_chars (translate lower_letters upper_letters)

-- `s.casefold()`, and `s.lower()`
unfoldable pub casefold : String → String
unfolding map_chars translate
casefold = map_chars (translate upper_letters lower_letters)

-- The whitespace of `str.strip`, and of `\s`, among ASCII: 9 to 13, 28 to 31 and 32.
unfoldable pub is_space : Char → Bool
is_space c = (leb 9 (code c) && leb (code c) 13) || (leb 28 (code c) && leb (code c) 32)

unfoldable pub is_digit : Char → Bool
is_digit c = leb b'0' (code c) && leb (code c) b'9'

unfoldable pub drop_while : (Char → Bool) → String → String
drop_while p [] = []
drop_while p (c ∷ s) = let rest = drop_while p s in if p c then rest else c ∷ s

unfoldable pub reverse_onto : String → String → String
reverse_onto [] acc = acc
reverse_onto (c ∷ s) acc = reverse_onto s (c ∷ acc)

unfoldable pub reverse : String → String
unfolding reverse_onto
reverse s = reverse_onto s []

-- `s.strip()`, or `s.strip(chars)` for the characters of `p`
unfoldable pub strip_by : (Char → Bool) → String → String
unfolding drop_while reverse
strip_by p s = reverse (drop_while p (reverse (drop_while p s)))

unfoldable pub strip : String → String
unfolding strip_by is_space
strip = strip_by is_space

unfoldable pub is_empty : String → Bool
is_empty [] = true
is_empty (c ∷ s) = false

unfoldable pub all_chars : (Char → Bool) → String → Bool
all_chars p [] = true
all_chars p (c ∷ s) = p c && all_chars p s

-- The value of a text of decimal digits, as `int` reads it.
unfoldable pub int_from : ℕ → String → ℕ
int_from acc [] = acc
int_from acc (c ∷ s) = int_from (acc * 10 + (code c - 48)) s

digit_char : ℕ → String
digit_char n =
    if n == 0
    then "0"
    else if n == 1
    then "1"
    else if n == 2
    then "2"
    else if n == 3
    then "3"
    else if n == 4
    then "4"
    else if n == 5
    then "5"
    else if n == 6
    then "6"
    else if n == 7
    then "7"
    else if n == 8
    then "8"
    else "9"

-- `str(n)`; the fuel is the number itself, one more than its digits at least.
digits_onto : ℕ → ℕ → String → String
digits_onto zero n acc = acc
digits_onto (suc fuel) n acc =
    let longer = digit_char (n % 10) ++ acc in
    let rest = digits_onto fuel (n / 10) longer in if n / 10 == 0 then longer else rest

unfoldable pub str : ℕ → String
unfolding digits_onto digit_char
str n = digits_onto (suc n) n ""
