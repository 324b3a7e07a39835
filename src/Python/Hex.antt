-- ===== src/Python/Hex.antt =====
-- Hexadecimal digits, printed and read back.
use Prim.Native.Char.{Char, code}
use Prim.Native.String.{◌++◌}
use Prim.Native.Nat.pow
use Prim.Native.String.append
use Prim.Native.String.count
use vista_authen.Prelude.{
  ℕ, zero, suc, ◌+◌, ◌/◌, ◌%◌, ◌^◌, ◌<◌, ◌≡◌, refl, ap, ◌∙◌, String, Bool, true, false, ◌&&◌, ◌||◌,
  arith, ◌==◌, ℕ_eq, leb, Option, none, some, List, ◌∷◌, if◌then◌else◌,
}
use vista_authen.Python.Strings.{str_len}
use vista_authen.Python.Numbers.{digit_value, digits_of, number_of}
use vista_authen.Python.UuidText.{hex_digit, hex_digits}
use vista_authen.Python.Stripping.{all_chars}

-- the digits that `hex_digits` writes
abbrev pub is_hex : Char → Bool
is_hex c = leb b'0' (code c) && leb (code c) b'9' || leb b'a' (code c) && leb (code c) b'f'

-- what reading needs of the digit `d`
abbrev ReadsAs : ℕ → Type 0
ReadsAs d = (is_hex (hex_digit d) ≡ true) × (digit_value 16 (code (hex_digit d)) ≡ some d)

abbrev is_some_of : ℕ → Option ℕ → Bool
is_some_of d none = false
is_some_of d (some e) = e == d

abbrev reads : ℕ → Bool
reads d = is_hex (hex_digit d) && is_some_of d (digit_value 16 (code (hex_digit d)))

abbrev all_below : (ℕ → Bool) → ℕ → Bool
all_below p zero = true
all_below p (suc k) = p k && all_below p k

all_below_at : (p : ℕ → Bool) (k d : ℕ) → all_below p k ≡ true → d < k → p d ≡ true
all_below_at p zero d h l = absurd (omega arith)
all_below_at p (suc k) d h l = ground (arith, all_below_at p k d)

is_some_of_facts : (d : ℕ) (o : Option ℕ) → is_some_of d o ≡ true → o ≡ some d
is_some_of_facts d none h = absurd (cc)
is_some_of_facts d (some e) h = ap (λ n. some n) (ground arith)

all_read : all_below reads 16 ≡ true
unfolding hex_digit digit_value
all_read = refl

hex_digit-ReadsAs : (d : ℕ) → d < 16 → ReadsAs d
hex_digit-ReadsAs d h =
    let r : reads d ≡ true = all_below_at reads 16 d all_read h in
    (ground arith, is_some_of_facts d _ (ground arith))

last_digit : (n : ℕ) → ReadsAs (n % 16)
last_digit n = hex_digit-ReadsAs (n % 16) (omega arith)

pub all_chars-hex_digits :
    (k n : ℕ) (rest : String)
    → all_chars is_hex rest ≡ true
    → all_chars is_hex (hex_digits k n rest) ≡ true
unfolding hex_digits
all_chars-hex_digits zero n rest h = h
all_chars-hex_digits (suc k) n rest h =
    all_chars-hex_digits k (n / 16) _ (ground (arith, (last_digit n).0))

pub count-hex_digits : (k n : ℕ) (rest : String) → str_len (hex_digits k n rest) ≡ k + str_len rest
unfolding hex_digits
count-hex_digits zero n rest = omega arith
count-hex_digits (suc k) n rest =
    count-hex_digits k (n / 16) _ ∙ ap (λ l. k + l) (count.cons _ rest) ∙ omega arith

pub append-hex_digits : (k n : ℕ) (s t : String) → hex_digits k n s ++ t ≡ hex_digits k n (s ++ t)
unfolding hex_digits
append-hex_digits zero n s t = refl
append-hex_digits (suc k) n s t =
    append-hex_digits k (n / 16) _ t ∙ ap (hex_digits k (n / 16)) (append.cons _ s t)

-- `n` without its last `j` digits
abbrev pub shift : ℕ → ℕ → ℕ
shift zero n = n
shift (suc j) n = shift j (n / 16)

pub hex_digits-hex_digits :
    (j k n : ℕ) (rest : String)
    → hex_digits k (shift j n) (hex_digits j n rest) ≡ hex_digits (j + k) n rest
unfolding hex_digits
hex_digits-hex_digits zero k n rest =
    let same : k ≡ 0 + k = omega arith in ap (λ l. hex_digits l n rest) same
hex_digits-hex_digits (suc j) k n rest =
    let same : suc (j + k) ≡ suc j + k = omega arith in
    hex_digits-hex_digits j k (n / 16) _ ∙ ap (λ l. hex_digits l n rest) same

-- the digits of `n` in front of `ds`
abbrev pub values : ℕ → ℕ → List ℕ → List ℕ
values zero n ds = ds
values (suc k) n ds = values k (n / 16) (n % 16 ∷ ds)

-- a digit in front of the others
abbrev onto : Option ℕ → Option (List ℕ) → Option (List ℕ)
onto o rest = elim o [ none ↦ none | some d ↦ elim rest [ none ↦ none | some ds ↦ some (d ∷ ds) ] ]

onto-some :
    (o : Option ℕ) (rest : Option (List ℕ)) (d : ℕ) (ds : List ℕ)
    → o ≡ some d
    → rest ≡ some ds
    → onto o rest ≡ some (d ∷ ds)
onto-some o rest d ds p q = ap (λ u. onto u rest) p ∙ ap (onto (some d)) q

pub else_branch : {A : Type 0} (u : Bool) (x y : A) → u ≡ false → (if u then x else y) ≡ y
else_branch u x y h = ground arith

digits_of-cons :
    (b : Bool) (d : ℕ) (s : String) (ds : List ℕ)
    → ReadsAs d
    → digits_of 16 true s ≡ some ds
    → digits_of 16 b (String.◌∷◌ (hex_digit d) s) ≡ some (d ∷ ds)
unfolding digits_of
digits_of-cons b d s ds r h =
    else_branch (code (hex_digit d) == b'_') _ _ (ground (arith, r.0))
    ∙ onto-some (digit_value 16 (code (hex_digit d))) (digits_of 16 true s) d ds r.1 h

pub digits_of-hex_digits :
    (k n : ℕ) (s : String) (ds : List ℕ)
    → digits_of 16 true s ≡ some ds
    → digits_of 16 true (hex_digits k n s) ≡ some (values k n ds)
unfolding hex_digits
digits_of-hex_digits zero n s ds h = h
digits_of-hex_digits (suc k) n s ds h =
    digits_of-hex_digits k (n / 16) _ _ (digits_of-cons true (n % 16) s ds (last_digit n) h)

pub number_of-values :
    (k n acc : ℕ) (ds : List ℕ)
    → n < 16 ^ k
    → acc ≡ 0
    → number_of 16 acc (values k n ds) ≡ number_of 16 n ds
unfolding number_of
number_of-values zero n acc ds h z = ap (λ m. number_of 16 m ds) (omega arith)
number_of-values (suc k) n acc ds h z =
    number_of-values k (n / 16) acc (n % 16 ∷ ds) (omega (arith, pow.suc 16 k)) z
    ∙ ap (λ m. number_of 16 m ds) (omega arith)
