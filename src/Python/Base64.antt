-- ===== src/Python/Base64.antt =====
-- `base64.b64decode(text)`: characters outside the alphabet are skipped, and what follows a full
-- padding is ignored.
use Prim.Native.Char.{code}
use vista_authen.Prelude.{
  ℕ, ◌+◌, ◌-◌, ◌*◌, ◌/◌, ◌%◌, String, Bool, true, ◌&&◌, Option, none, some, List, [], ◌∷◌, ◌==◌,
  ℕ_eq, leb, ltb, if◌then◌else◌,
}

unfoldable pub sextet : ℕ → Option ℕ
sextet c =
    if leb b'A' c && leb c b'Z'
    then some (c - 65)
    else if leb b'a' c && leb c b'z'
    then some (c - 71)
    else if leb b'0' c && leb c b'9'
    then some (c + 4)
    else if c == b'+'
    then some 62
    else if c == b'/'
    then some 63
    else none

-- the byte that a character completes
unfoldable pub emit : ℕ → ℕ → ℕ → List ℕ → List ℕ
emit quad left v rest =
    if quad == 0
    then rest
    else if quad == 1
    then (left * 4 + v / 16) ∷ rest
    else if quad == 2
    then (left * 16 + v / 4) ∷ rest
    else (left * 64 + v) ∷ rest

-- the bits of a character that are left over
unfoldable pub leftover : ℕ → ℕ → ℕ
leftover quad v =
    if quad == 0 then v else if quad == 1 then v % 16 else if quad == 2 then v % 4 else 0

-- `quad` characters of a group have been read, `left` holds their unused bits, and `pads` counts `=`.
unfoldable pub a2b : ℕ → ℕ → ℕ → String → Option (List ℕ)
unfolding sextet emit leftover
a2b quad left pads String.[] = if quad == 0 then some [] else none
a2b quad left pads (String.◌∷◌ ch s) =
    let c = code ch in
    let pads' = if leb 2 quad then pads + 1 else pads in
    let padded : Option (List ℕ) = a2b quad left pads' s in
    let skipped : Option (List ℕ) = a2b quad left pads s in
    if c == b'='
    then (if leb 2 quad && leb 4 (quad + pads') then some [] else padded)
    else elim (sextet c) [
      | none ↦ skipped
      | some v ↦ elim (a2b ((quad + 1) % 4) (leftover quad v) 0 s) [
        | none ↦ none
        | some rest ↦ some (emit quad left v rest)
      ]
    ]

abbrev is_ascii : String → Bool
is_ascii String.[] = true
is_ascii (String.◌∷◌ c s) = ltb (code c) 128 && is_ascii s

-- `none` for ValueError
unfoldable pub b64decode : String → Option (List ℕ)
unfolding a2b
b64decode s = if is_ascii s then a2b 0 0 0 s else none
