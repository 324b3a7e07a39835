-- ===== src/Python/Numbers.antt =====
-- `int(text, base)`: white space around it, a sign, the prefix `0x` in base 16, digits with single
-- underscores between them, decimal digits of any script, and at most 4300 digits in base 10.
use Prim.Native.Char.{Char, code}
use mathlib.Core.Option
use vista_authen.Prelude.{
  ℕ, ◌+◌, ◌-◌, ◌*◌, String, Bool, true, false, not, ◌&&◌, ◌||◌, Option, none, some, List, [], ◌∷◌,
  ◌==◌, ℕ_eq, leb, ltb, length, if◌then◌else◌,
}
use vista_authen.Prelude.Int.{ℤ, pos, neg_ℕ}
use vista_authen.Python.Strings.{strip_by, is_space}

-- the zeros of the runs of decimal digits (Unicode 15.0, as in Python 3.12)
abbrev digit_zeros : List ℕ
digit_zeros =
    48 ∷ 1632 ∷ 1776 ∷ 1984 ∷ 2406 ∷ 2534 ∷ 2662 ∷ 2790 ∷ 2918 ∷ 3046 ∷ 3174 ∷ 3302 ∷ 3430 ∷ 3558
    ∷ 3664 ∷ 3792 ∷ 3872 ∷ 4160 ∷ 4240 ∷ 6112 ∷ 6160 ∷ 6470 ∷ 6608 ∷ 6784 ∷ 6800 ∷ 6992 ∷ 7088
    ∷ 7232 ∷ 7248 ∷ 42528 ∷ 43216 ∷ 43264 ∷ 43472 ∷ 43504 ∷ 43600 ∷ 44016 ∷ 65296 ∷ 66720 ∷ 68912
    ∷ 69734 ∷ 69872 ∷ 69942 ∷ 70096 ∷ 70384 ∷ 70736 ∷ 70864 ∷ 71248 ∷ 71360 ∷ 71472 ∷ 71904 ∷ 72016
    ∷ 72784 ∷ 73040 ∷ 73120 ∷ 73552 ∷ 92768 ∷ 92864 ∷ 93008 ∷ 120782 ∷ 120792 ∷ 120802 ∷ 120812
    ∷ 120822 ∷ 123200 ∷ 123632 ∷ 124144 ∷ 125264 ∷ 130032 ∷ []

digit_in : List ℕ → ℕ → Option ℕ
digit_in [] c = none
digit_in (z ∷ zs) c =
    let rest = digit_in zs c in if leb z c && ltb c (z + 10) then some (c - z) else rest

-- the value of a digit in bases up to 16
unfoldable pub digit_value : ℕ → ℕ → Option ℕ
unfolding digit_in
digit_value base c =
    let small = digit_in digit_zeros c in
    let letter : Option ℕ =
      if leb b'a' c && leb c b'f'
      then some (c - 87)
      else if leb b'A' c && leb c b'F'
      then some (c - 55)
      else none in
    let value : Option ℕ = elim small [ some d ↦ some d | none ↦ letter ] in
    elim value [ none ↦ none | some d ↦ if ltb d base then some d else none ]

-- The digits of a text, most significant first. `after` says that a digit came last, so that an
-- underscore may follow.
unfoldable pub digits_of : ℕ → Bool → String → Option (List ℕ)
unfolding digit_value
digits_of base after String.[] = if after then some [] else none
digits_of base after (String.◌∷◌ ch s) =
    let c = code ch in
    let skip : Option (List ℕ) = digits_of base false s in
    let rest : Option (List ℕ) = digits_of base true s in
    if c == b'_' then (if after then skip else none) else elim (digit_value base c) [
      | none ↦ none
      | some d ↦ elim rest [ none ↦ none | some ds ↦ some (d ∷ ds) ]
    ]

unfoldable pub number_of : ℕ → ℕ → List ℕ → ℕ
number_of base acc [] = acc
number_of base acc (d ∷ ds) = number_of base (acc * base + d) ds

unfoldable pub too_long : ℕ → List ℕ → Bool
too_long base ds = base == 10 && ltb 4300 (length ds)

-- `0x` in front of the digits, which one underscore may follow
abbrev drop_underscore : String → String
drop_underscore String.[] = String.[]
drop_underscore (String.◌∷◌ ch s) = if code ch == b'_' then s else String.◌∷◌ ch s

abbrev pub without_prefix : ℕ → String → String
without_prefix base String.[] = String.[]
without_prefix base (String.◌∷◌ a String.[]) = String.◌∷◌ a String.[]
without_prefix base (String.◌∷◌ a (String.◌∷◌ b s)) =
    if base == 16 && code a == b'0' && (code b == b'x' || code b == b'X')
    then drop_underscore s
    else String.◌∷◌ a (String.◌∷◌ b s)

-- the digits after a sign and, in base 16, after the prefix
unfoldable pub unsigned : ℕ → String → Option ℕ
unfolding digits_of number_of too_long
unsigned base s = elim (digits_of base false (without_prefix base s)) [
  | none ↦ none
  | some ds ↦ if too_long base ds then none else some (number_of base 0 ds)
]

unfoldable pub signed : ℕ → String → Option ℤ
unfolding unsigned
signed base String.[] = none
signed base (String.◌∷◌ ch s) =
    if code ch == b'-'
    then Option.map neg_ℕ (unsigned base s)
    else if code ch == b'+'
    then Option.map pos (unsigned base s)
    else Option.map pos (unsigned base (String.◌∷◌ ch s))

-- `int` does not take the four separators 28 to 31 for white space.
unfoldable pub int_space : Char → Bool
unfolding is_space
int_space ch = let c = code ch in is_space ch && not (leb 28 c && leb c 31)

-- `int(text, base)`, `none` for ValueError
unfoldable pub parse_int : ℕ → String → Option ℤ
unfolding signed strip_by int_space
parse_int base s = signed base (strip_by int_space s)
