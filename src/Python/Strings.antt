-- ===== src/Python/Strings.antt =====
-- Python's `str`: length, truth value, `strip`, `split` and a prefix slice. A text is a list of
-- code points.
use Prim.Native.Char.{Char, code}
use Prim.Native.String
use vista_authen.Prelude.{
  ◌-◌, ℕ, zero, suc, String, Bool, true, false, not, ◌&&◌, ◌||◌, Option, none, some, List, [], ◌∷◌,
  ◌==◌, ℕ_eq, leb, if◌then◌else◌,
}

-- `len(s)`
abbrev pub str_len : String → ℕ
str_len s = String.count s

abbrev pub is_empty : String → Bool
is_empty String.[] = true
is_empty (String.◌∷◌ c s) = false

-- the truth value of a `str | None`
abbrev pub truthy : Option String → Bool
truthy none = false
truthy (some s) = not (is_empty s)

-- `str.isspace` of one character
unfoldable pub is_space : Char → Bool
is_space ch =
    let c = code ch in
    leb 9 c && leb c 13
    || leb 28 c && leb c 32
    || c == 133
    || c == 160
    || c == 5760
    || leb 8192 c && leb c 8202
    || c == 8232
    || c == 8233
    || c == 8239
    || c == 8287
    || c == 12288

unfoldable pub lstrip : (Char → Bool) → String → String
lstrip p String.[] = String.[]
lstrip p (String.◌∷◌ c s) = let rest = lstrip p s in if p c then rest else String.◌∷◌ c s

unfoldable pub rstrip : (Char → Bool) → String → String
rstrip p String.[] = String.[]
rstrip p (String.◌∷◌ c s) =
    let rest = rstrip p s in if is_empty rest && p c then String.[] else String.◌∷◌ c rest

-- `s.strip(chars)`
unfoldable pub strip_by : (Char → Bool) → String → String
unfolding lstrip rstrip
strip_by p s = rstrip p (lstrip p s)

-- `s.strip()`
unfoldable pub strip : String → String
unfolding strip_by is_space
strip = strip_by is_space

-- `not s.strip()`
abbrev pub is_blank : String → Bool
is_blank s = is_empty (strip s)

-- `s[:n]`
unfoldable pub prefix : ℕ → String → String
prefix n String.[] = String.[]
prefix zero (String.◌∷◌ c s) = String.[]
prefix (suc n) (String.◌∷◌ c s) = String.◌∷◌ c (prefix n s)

abbrev onto_head : Char → List String → List String
onto_head c [] = String.◌∷◌ c String.[] ∷ []
onto_head c (p ∷ ps) = String.◌∷◌ c p ∷ ps

-- `s.split(sep)`, for a separator of one character
unfoldable pub split : ℕ → String → List String
split sep String.[] = String.[] ∷ []
split sep (String.◌∷◌ c s) =
    let rest = split sep s in if code c == sep then String.[] ∷ rest else onto_head c rest

-- `s.startswith(pattern)`
abbrev pub starts : String → String → Bool
starts String.[] s = true
starts (String.◌∷◌ p ps) String.[] = false
starts (String.◌∷◌ p ps) (String.◌∷◌ c s) = code p == code c && starts ps s

-- `s.replace(pattern, "")`, with `skip` characters of a match still to be dropped
unfoldable pub remove_from : ℕ → String → String → String
remove_from skip pattern String.[] = String.[]
remove_from skip pattern (String.◌∷◌ c s) =
    let found = skip == 0 && starts pattern (String.◌∷◌ c s) in
    let rest = remove_from (if found then str_len pattern - 1 else skip - 1) pattern s in
    if found || not (skip == 0) then rest else String.◌∷◌ c rest

unfoldable pub remove : String → String → String
unfolding remove_from
remove = remove_from 0
