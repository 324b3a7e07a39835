-- ===== src/Python/Tests.antt =====
-- Runs of the text functions, with the values that Python gives.
use vista_authen.Prelude.{◌≡◌, refl, some, none, [], ◌∷◌}
use vista_authen.Prelude.Int.{neg_ℕ}
use vista_authen.Python.Strings.{split, strip}
use vista_authen.Python.UuidText.{str_uuid, parse_uuid}
use vista_authen.Python.Numbers.{parse_int}
use vista_authen.Python.Base64.{b64decode}

split_keeps_empty : split b'|' "V1|a||b" ≡ "V1" ∷ "a" ∷ "" ∷ "b" ∷ []
unfolding split
split_keeps_empty = refl

strip_ends : strip "  +1 2 " ≡ "+1 2"
unfolding strip
strip_ends = refl

int_underscore : parse_int 10 " -1_200 " ≡ some (neg_ℕ 1200)
unfolding parse_int
int_underscore = refl

int_two_underscores : parse_int 10 "1__200" ≡ none
unfolding parse_int
int_two_underscores = refl

uuid_printed : str_uuid 0x6bb9d19b9339427f904abf8961cee5fc ≡ "6bb9d19b-9339-427f-904a-bf8961cee5fc"
unfolding str_uuid
uuid_printed = refl

uuid_parsed :
    parse_uuid "{urn:uuid:6bb9d19b-9339-427f-904a-bf8961cee5fc}"
    ≡ some 0x6bb9d19b9339427f904abf8961cee5fc
unfolding parse_uuid
uuid_parsed = refl

uuid_too_short : parse_uuid "6bb9d19b-9339-427f-904a" ≡ none
unfolding parse_uuid
uuid_too_short = refl

base64_padded : b64decode "TWE=" ≡ some (77 ∷ 97 ∷ [])
unfolding b64decode
base64_padded = refl

base64_incomplete : b64decode "TWE" ≡ none
unfolding b64decode
base64_incomplete = refl
