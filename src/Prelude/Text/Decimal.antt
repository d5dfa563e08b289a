-- ===== src/Prelude/Text/Decimal.antt =====
-- Decimal text: `std::to_string` and `atoi`.
use projects_cpp.Prelude.{
  ℕ, zero, suc, ◌+◌, ◌-◌, ◌*◌, ◌/◌, ◌%◌, Bool, true, false, ◌&&◌, ◌||◌, Option, none, some, List,
  [], ◌∷◌, ◌++◌, ltb, leb, ◌==◌, if◌then◌else◌,
}
use projects_cpp.Prelude.Int.{ℤ, pos, negsuc}

abbrev pub Text : Type 0
Text = List ℕ

abbrev pub is_digit : ℕ → Bool
is_digit c = leb b'0' c && leb c b'9'

-- `==` of two strings.
abbrev pub text_eq : Text → Text → Bool
text_eq [] [] = true
text_eq [] (d ∷ t) = false
text_eq (c ∷ s) [] = false
text_eq (c ∷ s) (d ∷ t) = (c == d) && text_eq s t

-- isspace of the C locale
abbrev pub is_space : ℕ → Bool
is_space c = c == 32 || (leb 9 c && leb c 13)

-- The decimal digits of `n`; the fuel bounds their number.
unfoldable pub digits_from : ℕ → ℕ → Text
digits_from zero n = []
digits_from (suc f) n =
    let front = digits_from f (n / 10) in
    if ltb n 10 then (n + 48) ∷ [] else front ++ (n % 10 + 48) ∷ []

unfoldable pub digits : ℕ → Text
digits n = digits_from (suc n) n

unfoldable pub to_string : ℤ → Text
to_string (pos n) = digits n
to_string (negsuc n) = b'-' ∷ digits (suc n)

-- Digits are read up to the first character that is none.
unfoldable pub scan : ℕ → Text → ℕ
scan acc [] = acc
scan acc (c ∷ s) = let rest = scan (acc * 10 + (c - 48)) s in if is_digit c then rest else acc

abbrev pub negate : ℕ → ℤ
negate zero = pos 0
negate (suc n) = negsuc n

unfoldable pub atoi : Text → ℤ
atoi [] = pos 0
atoi (c ∷ s) =
    let rest = atoi s in
    if is_space c
    then rest
    else if c == b'-'
    then negate (scan 0 s)
    else if c == b'+'
    then pos (scan 0 s)
    else pos (scan 0 (c ∷ s))

-- A number starts with a digit.
abbrev pub number : (ℕ → ℤ) → Text → Option ℤ
number sign [] = none
number sign (c ∷ s) = if is_digit c then some (sign (scan 0 (c ∷ s))) else none

-- `stoi`; `none` is the exception where there is no number.
unfoldable pub stoi : Text → Option ℤ
stoi [] = none
stoi (c ∷ s) =
    let rest = stoi s in
    if is_space c
    then rest
    else if c == b'-'
    then number negate s
    else if c == b'+'
    then number pos s
    else number pos (c ∷ s)
