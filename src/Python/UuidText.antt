-- ===== src/Python/UuidText.antt =====
-- `uuid.UUID(text)`, `UUID.hex` and `str(uuid)`.
use Prim.Native.Char.{Char, code}
use Prim.Native.String.{◌++◌}
use vista_authen.Prelude.{
  ℕ, zero, suc, ◌/◌, ◌%◌, ◌^◌, String, Bool, ◌||◌, Option, none, some, ◌==◌, ℕ_eq, ltb,
  if◌then◌else◌,
}
use vista_authen.Prelude.Int.{ℤ, pos, negsuc}
use vista_authen.Models.{Uuid}
use vista_authen.Python.Strings.{str_len, strip_by, remove}
use vista_authen.Python.Numbers.{parse_int}

-- the character at a place of a text, `0` past its end
abbrev pub char_of : ℕ → String → Char
char_of n String.[] = "0"
char_of zero (String.◌∷◌ c s) = c
char_of (suc n) (String.◌∷◌ c s) = char_of n s

unfoldable pub hex_digit : ℕ → Char
hex_digit d = char_of d "0123456789abcdef"

-- the last `k` hexadecimal digits of `n`, in front of `rest`
unfoldable pub hex_digits : ℕ → ℕ → String → String
unfolding hex_digit
hex_digits zero n rest = rest
hex_digits (suc k) n rest = hex_digits k (n / 16) (String.◌∷◌ (hex_digit (n % 16)) rest)

-- `u.hex`
unfoldable pub hex : Uuid → String
unfolding hex_digits
hex u = hex_digits 32 u ""

-- `str(u)`
unfoldable pub str_uuid : Uuid → String
unfolding hex_digits
str_uuid u =
    hex_digits 8 (u / 2 ^ 96) ""
    ++ "-"
    ++ hex_digits 4 (u / 2 ^ 80) ""
    ++ "-"
    ++ hex_digits 4 (u / 2 ^ 64) ""
    ++ "-"
    ++ hex_digits 4 (u / 2 ^ 48) ""
    ++ "-"
    ++ hex_digits 12 u ""

unfoldable pub is_brace : Char → Bool
is_brace c = code c == b'{' || code c == b'}'

-- what is left of a UUID's text when its decoration is taken off
unfoldable pub bare : String → String
unfolding remove strip_by is_brace
bare s = remove "-" (strip_by is_brace (remove "uuid:" (remove "urn:" s)))

abbrev pub in_range : ℤ → Option Uuid
in_range (pos n) = if ltb n (2 ^ 128) then some n else none
in_range (negsuc n) = none

unfoldable pub uuid_of_bare : String → Option Uuid
unfolding parse_int
uuid_of_bare s =
    if str_len s == 32 then elim (parse_int 16 s) [ none ↦ none | some z ↦ in_range z ] else none

-- `uuid.UUID(text)`, `none` for ValueError
unfoldable pub parse_uuid : String → Option Uuid
unfolding bare uuid_of_bare
parse_uuid s = uuid_of_bare (bare s)
