-- ===== src/Python/RoundTrip.antt =====
-- `uuid.UUID` reads back what `str` prints.
use Prim.Native.Char.{Char, code}
use Prim.Native.String.{◌++◌}
use Prim.Native.String.append
use Prim.Native.String.count
use mathlib.Core.Option
use vista_authen.Prelude.{
  ℕ, ◌+◌, ◌/◌, ◌^◌, ◌<◌, ◌≡◌, refl, sym, ap, ◌∙◌, String, Bool, true, false, not, ◌&&◌, ◌||◌, arith,
  ◌==◌, ℕ_eq, Option, none, some, List, [], if◌then◌else◌,
}
use vista_authen.Prelude.Int.{ℤ, pos}
use vista_authen.Models.{Uuid}
use vista_authen.Python.Strings.{str_len, strip_by, remove, is_space}
use vista_authen.Python.Numbers.{
  digits_of, number_of, without_prefix, unsigned, signed, parse_int, too_long, int_space,
}
use vista_authen.Python.UuidText.{
  hex_digits, hex, str_uuid, is_brace, bare, in_range, uuid_of_bare, parse_uuid,
}
use vista_authen.Python.Stripping.{
  all_chars, all_chars-append, all_chars_weaken, strip_none, remove_none, remove-append,
}
use vista_authen.Python.Hex.{
  is_hex, all_chars-hex_digits, count-hex_digits, append-hex_digits, shift, hex_digits-hex_digits,
  values, digits_of-hex_digits, number_of-values, else_branch,
}

-- the characters of a printed UUID
abbrev is_printed : Char → Bool
is_printed c = is_hex c || code c == b'-'

module _ (s : String) (h : all_chars is_printed s ≡ true) where
  strip-printed : strip_by is_brace s ≡ s
  unfolding is_brace
  strip-printed = strip_none is_brace s (all_chars_weaken is_printed _ s (λ c k. ground arith) h)

  remove-printed : (b : String) → remove (String.◌∷◌ "u" b) s ≡ s
  remove-printed b = remove_none "u" b s (all_chars_weaken is_printed _ s (λ c k. ground arith) h)

  bare-printed : bare s ≡ remove "-" s
  unfolding bare
  bare-printed =
      ap (λ t. remove "-" (strip_by is_brace (remove "uuid:" t))) (remove-printed "rn:")
      ∙ ap (λ t. remove "-" (strip_by is_brace t)) (remove-printed "uid:")
      ∙ ap (remove "-") strip-printed

remove-hex_digits : (k n : ℕ) → remove "-" (hex_digits k n "") ≡ hex_digits k n ""
remove-hex_digits k n = remove_none "-" "" _ (
    all_chars_weaken is_hex (λ c. not (code "-" == code c)) (hex_digits k n "")
      (λ c h. ground arith) (all_chars-hex_digits k n "" refl))

-- a group of digits with its dash
remove-group :
    (k n : ℕ) (t : String)
    → remove "-" (hex_digits k n "" ++ "-" ++ t) ≡ hex_digits k n (remove "-" t)
unfolding remove
remove-group k n t =
    remove-append "-" (hex_digits k n "") ("-" ++ t)
    ∙ ap (λ l. l ++ remove "-" ("-" ++ t)) (remove-hex_digits k n)
    ∙ ap (λ r. hex_digits k n "" ++ r) (remove-append "-" "-" t ∙ append.nil (remove "-" t))
    ∙ append-hex_digits k n "" (remove "-" t)
    ∙ ap (hex_digits k n) (append.nil (remove "-" t))

join : (j k n q : ℕ) → shift j n ≡ q → hex_digits k q (hex_digits j n "") ≡ hex_digits (j + k) n ""
join j k n q h =
    ap (λ m. hex_digits k m (hex_digits j n "")) (sym h) ∙ hex_digits-hex_digits j k n ""

digits : (k n : ℕ) → all_chars is_printed (hex_digits k n "") ≡ true
digits k n =
    all_chars_weaken is_hex is_printed (hex_digits k n "") (λ c h. ground arith)
      (all_chars-hex_digits k n "" refl)

group :
    (k n : ℕ) (t : String)
    → all_chars is_printed t ≡ true
    → all_chars is_printed (hex_digits k n "" ++ "-" ++ t) ≡ true
group k n t h =
    all_chars-append is_printed (hex_digits k n "") ("-" ++ t) (digits k n)
      (all_chars-append is_printed "-" t refl h)

remove-str_uuid : (u : Uuid) → remove "-" (str_uuid u) ≡ hex u
unfolding str_uuid hex
remove-str_uuid u =
    remove-group 8 (u / 2 ^ 96) _
    ∙ ap (hex_digits 8 (u / 2 ^ 96)) (
        remove-group 4 (u / 2 ^ 80) _
        ∙ ap (hex_digits 4 (u / 2 ^ 80)) (
            remove-group 4 (u / 2 ^ 64) _
            ∙ ap (hex_digits 4 (u / 2 ^ 64)) (
                remove-group 4 (u / 2 ^ 48) _
                ∙ ap (hex_digits 4 (u / 2 ^ 48)) (remove-hex_digits 12 u)
                ∙ join 12 4 u (u / 2 ^ 48) (omega arith))
            ∙ join 16 4 u (u / 2 ^ 64) (omega arith))
        ∙ join 20 4 u (u / 2 ^ 80) (omega arith))
    ∙ join 24 8 u (u / 2 ^ 96) (omega arith)

all_chars-str_uuid : (u : Uuid) → all_chars is_printed (str_uuid u) ≡ true
unfolding str_uuid
all_chars-str_uuid u = group 8 (u / 2 ^ 96) _ (
    group 4 (u / 2 ^ 80) _
      (group 4 (u / 2 ^ 64) _ (group 4 (u / 2 ^ 48) (hex_digits 12 u "") (digits 12 u))))

-- a text of digits only, read in base 16
module _ (c : Char) (s : String) (h : all_chars is_hex (String.◌∷◌ c s) ≡ true) where
  signed-hex : signed 16 (String.◌∷◌ c s) ≡ Option.map pos (unsigned 16 (String.◌∷◌ c s))
  unfolding signed
  signed-hex =
      else_branch (code c == b'-') _ _ (ground arith)
      ∙ else_branch (code c == b'+') _ _ (ground arith)

  digits_of-hex : digits_of 16 false (String.◌∷◌ c s) ≡ digits_of 16 true (String.◌∷◌ c s)
  unfolding digits_of
  digits_of-hex =
      else_branch (code c == b'_') _ _ (ground arith)
      ∙ sym (else_branch (code c == b'_') _ _ (ground arith))

without_prefix-hex : (s : String) → all_chars is_hex s ≡ true → without_prefix 16 s ≡ s
without_prefix-hex String.[] h = refl
without_prefix-hex (String.◌∷◌ a String.[]) h = refl
without_prefix-hex (String.◌∷◌ a (String.◌∷◌ b s)) h =
    else_branch (code a == b'0' && (code b == b'x' || code b == b'X')) _ _ (ground arith)

parse_int-hex :
    (s : String)
    → all_chars is_hex s ≡ true
    → 0 < str_len s
    → parse_int 16 s ≡ Option.map pos (unsigned 16 s)
unfolding parse_int int_space is_space
parse_int-hex String.[] h l = absurd (omega (arith, count.nil))
parse_int-hex (String.◌∷◌ c s) h l =
    ap (signed 16) (
      strip_none int_space (String.◌∷◌ c s)
        (all_chars_weaken is_hex (λ c. not (int_space c)) (String.◌∷◌ c s) (λ c k. ground arith) h))
    ∙ signed-hex c s h

digits_of-nonempty :
    (s : String)
    → all_chars is_hex s ≡ true
    → 0 < str_len s
    → digits_of 16 false s ≡ digits_of 16 true s
digits_of-nonempty String.[] h l = absurd (omega (arith, count.nil))
digits_of-nonempty (String.◌∷◌ c s) h l = digits_of-hex c s h

-- what `unsigned` makes of the digits
abbrev numbered : Option (List ℕ) → Option ℕ
numbered o = elim o [
  | none ↦ none
  | some ds ↦ if too_long 16 ds then none else some (number_of 16 0 ds)
]

unsigned-hex :
    (s : String) → all_chars is_hex s ≡ true → unsigned 16 s ≡ numbered (digits_of 16 false s)
unfolding unsigned
unsigned-hex s h = ap (λ t. numbered (digits_of 16 false t)) (without_prefix-hex s h)

-- what `uuid_of_bare` makes of a length and a number
abbrev ranged : ℕ → Option ℤ → Option Uuid
ranged l o = if l == 32 then elim o [ none ↦ none | some z ↦ in_range z ] else none

ranged-some : (l : ℕ) (u : Uuid) → l ≡ 32 → u < 16 ^ 32 → ranged l (some (pos u)) ≡ some u
ranged-some l u h small = ground arith

module _ (u : Uuid) (small : u < 16 ^ 32) where
  count-hex : str_len (hex u) ≡ 32
  unfolding hex
  count-hex = count-hex_digits 32 u "" ∙ ap (λ l. 32 + l) count.nil

  all_chars-hex : all_chars is_hex (hex u) ≡ true
  unfolding hex
  all_chars-hex = all_chars-hex_digits 32 u "" refl

  digits_of-hex_uuid : digits_of 16 true (hex u) ≡ some (values 32 u [])
  unfolding hex digits_of
  digits_of-hex_uuid = digits_of-hex_digits 32 u "" [] refl

  unsigned-hex_uuid : unsigned 16 (hex u) ≡ some u
  unfolding too_long number_of
  unsigned-hex_uuid =
      unsigned-hex (hex u) all_chars-hex
      ∙ ap numbered
          (digits_of-nonempty (hex u) all_chars-hex (omega (arith, count-hex)) ∙ digits_of-hex_uuid)
      ∙ ap (λ n. some n) (number_of-values 32 u 0 [] small refl)

  -- The value of a UUID's hexadecimal digits is the UUID.
  uuid_of_bare-hex : uuid_of_bare (hex u) ≡ some u
  unfolding uuid_of_bare
  uuid_of_bare-hex =
      let read : parse_int 16 (hex u) ≡ Option.map pos (unsigned 16 (hex u)) =
        parse_int-hex (hex u) all_chars-hex (omega (arith, count-hex)) in
      ap (ranged (str_len (hex u))) (read ∙ ap (Option.map pos) unsigned-hex_uuid)
      ∙ ranged-some _ u count-hex small

  -- `uuid.UUID` reads back what `str` prints of a UUID of 128 bits.
  pub parse_uuid-str_uuid : parse_uuid (str_uuid u) ≡ some u
  unfolding parse_uuid
  parse_uuid-str_uuid =
      ap uuid_of_bare (bare-printed (str_uuid u) (all_chars-str_uuid u) ∙ remove-str_uuid u)
      ∙ uuid_of_bare-hex
