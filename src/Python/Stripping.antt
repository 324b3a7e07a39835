-- ===== src/Python/Stripping.antt =====
-- What `strip` and `replace` leave of a text that has none of the characters that they look for.
use Prim.Native.Char.{Char, code}
use Prim.Native.String.{◌++◌}
use Prim.Native.String.append
use Prim.Native.String.count
use vista_authen.Prelude.{
  suc, ◌≡◌, refl, sym, ap, String, Bool, true, false, not, ◌&&◌, arith, ◌∙◌, ◌==◌, ℕ_eq,
  if◌then◌else◌,
}
use vista_authen.Python.Strings.{lstrip, rstrip, strip_by, remove, str_len}

-- every character passes a test
abbrev pub all_chars : (Char → Bool) → String → Bool
all_chars p String.[] = true
all_chars p (String.◌∷◌ c s) = p c && all_chars p s

pub all_chars-append :
    (p : Char → Bool) (s t : String)
    → all_chars p s ≡ true
    → all_chars p t ≡ true
    → all_chars p (s ++ t) ≡ true
all_chars-append p String.[] t h k = ap (all_chars p) (append.nil t) ∙ k
all_chars-append p (String.◌∷◌ c s) t h k =
    ap (all_chars p) (append.cons c s t) ∙ ground (arith, all_chars-append p s t)

pub all_chars_weaken :
    (p q : Char → Bool) (s : String)
    → ((c : Char) → p c ≡ true → q c ≡ true)
    → all_chars p s ≡ true
    → all_chars q s ≡ true
all_chars_weaken p q String.[] f h = refl
all_chars_weaken p q (String.◌∷◌ c s) f h = ground (arith, f c, all_chars_weaken p q s f)

lstrip_none : (p : Char → Bool) (s : String) → all_chars (λ c. not (p c)) s ≡ true → lstrip p s ≡ s
unfolding lstrip
lstrip_none p String.[] h = refl
lstrip_none p (String.◌∷◌ c s) h = ground arith

rstrip_none : (p : Char → Bool) (s : String) → all_chars (λ c. not (p c)) s ≡ true → rstrip p s ≡ s
unfolding rstrip
rstrip_none p String.[] h = refl
rstrip_none p (String.◌∷◌ c s) h = ground (arith, rstrip_none p s)

pub strip_none :
    (p : Char → Bool) (s : String) → all_chars (λ c. not (p c)) s ≡ true → strip_by p s ≡ s
unfolding strip_by
strip_none p s h = ap (rstrip p) (lstrip_none p s h) ∙ rstrip_none p s h

-- a pattern that begins with a character which the text has not
pub remove_none :
    (a : Char) (b s : String)
    → all_chars (λ c. not (code a == code c)) s ≡ true
    → remove (String.◌∷◌ a b) s ≡ s
unfolding remove
remove_none a b String.[] h = refl
remove_none a b (String.◌∷◌ c s) h = ground (arith, remove_none a b s)

-- the pattern of one character
abbrev pub single : Char → String
single a = String.◌∷◌ a String.[]

count-single : (a : Char) → str_len (single a) ≡ 1
count-single a = count.cons a String.[] ∙ ap suc count.nil

remove-cons :
    (a c : Char) (s : String)
    → remove (single a) (String.◌∷◌ c s)
      ≡ (if code a == code c then remove (single a) s else String.◌∷◌ c (remove (single a) s))
unfolding remove
remove-cons a c s = ground (arith, count-single a)

if-append :
    (b : Bool) (c : Char) (r s t : String)
    → r ≡ s ++ t
    → (if b then r else String.◌∷◌ c r) ≡ (if b then s else String.◌∷◌ c s) ++ t
if-append true c r s t h = h
if-append false c r s t h = ap (String.◌∷◌ c) h ∙ sym (append.cons c s t)

pub remove-append :
    (a : Char) (s t : String)
    → remove (single a) (s ++ t) ≡ remove (single a) s ++ remove (single a) t
remove-append a String.[] t =
    ap (remove (single a)) (append.nil t)
    ∙ sym (
        ap (λ r. r ++ remove (single a) t) (remove_none a String.[] String.[] refl)
        ∙ append.nil (remove (single a) t))
remove-append a (String.◌∷◌ c s) t =
    ap (remove (single a)) (append.cons c s t)
    ∙ remove-cons a c (s ++ t)
    ∙ if-append (code a == code c) c _ _ _ (remove-append a s t)
    ∙ ap (λ r. r ++ remove (single a) t) (sym (remove-cons a c s))
