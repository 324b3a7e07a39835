-- ===== src/Limiter/Keys.antt =====
-- app/core/limiter.py: a call is counted for the checker whose valid token it carries, and otherwise
-- for its address.
use Prim.Native.String.{◌++◌}
use vista_authen.Prelude.{
  ◌≡◌, refl, sym, ap, subst, ◌∙◌, String, Bool, true, false, Option, none, some, [], ◌∷◌, ◌⊎◌, inl,
  inr, if◌then◌else◌,
}
use vista_authen.Models.{Json, Details}
use vista_authen.Session.{World, Result, ok, raised}
use vista_authen.Session.Wp.{Wp, wp-pure, wp-call, wp-if}
use vista_authen.Config.{Settings}
use vista_authen.Externals.{Externals}
use vista_authen.Security.{lookup}
use vista_authen.Deps.{is_kind}
use vista_authen.Python.Strings.{is_empty, split, starts}
use vista_authen.Limiter.{
  Caller, second, checker_key, payload_key, key_or_address, header_key, get_checker_rate_limit_key,
}
use vista_authen.Permissions.Identity.{is_kind_facts, wp-decode}

-- claims of a checker with the subject `s`
abbrev AreChecker : Option Details → String → Type 0
AreChecker o s =
    (claims : Details) × (o ≡ some claims)
    × (lookup "type" claims ≡ some (Json.text "checker"))
    × (lookup "sub" claims ≡ some (Json.text s))
    × (is_empty s ≡ false)

-- The header holds a token that decodes, at the next reading of the clock, to the claims of a checker
-- with the subject `s`.
abbrev pub Carries : Externals → Settings → World → Option String → String → Type 0
Carries x cfg w authorization s =
    (header : String) × (authorization ≡ some header)
    × (starts "Bearer " header ≡ true)
    × AreChecker
        (x.jwt_decode (w.clock 0) (second (split b' ' header)) cfg.jwt_secret
          (cfg.jwt_algorithm ∷ []))
        s

-- what the key is
abbrev pub Counts : Externals → Settings → World → Caller → Result String → World → Type 0
Counts x cfg w caller (raised e) v = ⊥
Counts x cfg w caller (ok key) v =
    (v.db ≡ w.db)
    × (((s : String) × Carries x cfg w caller.authorization s × (key ≡ "checker:" ++ s))
        ⊎ (((s : String) → Carries x cfg w caller.authorization s → ⊥)
            × (key ≡ "ip:" ++ caller.address)))

-- the same of `payload_key`
abbrev Keys : (String → Type 0) → Option String → Type 0
Keys P none = (s : String) → P s → ⊥
Keys P (some key) = (s : String) × P s × (key ≡ "checker:" ++ s)

subject :
    (claims : Details) (o : Option Json) (s : String)
    → lookup "sub" claims ≡ o
    → AreChecker (some claims) s
    → (o ≡ some (Json.text s)) × (is_empty s ≡ false)
subject claims o s sub (others, same, kind, names, full) =
    let is : claims ≡ others = cc in (sym sub ∙ ap (lookup "sub") is ∙ names, full)

empty_subject : (s : String) → some (Json.text String.[]) ≡ some (Json.text s) → is_empty s ≡ true
empty_subject s h = let is : String.[] ≡ s = cc in ap is_empty (sym is)

checker_key-Keys :
    (claims : Details) (o : Option Json)
    → lookup "type" claims ≡ some (Json.text "checker")
    → lookup "sub" claims ≡ o
    → Keys (AreChecker (some claims)) (checker_key o)
unfolding checker_key
checker_key-Keys claims none kind sub = λ s c. absurd (cc ((subject claims _ s sub c).0))
checker_key-Keys claims (some (Json.text String.[])) kind sub =
    λ s c. let (same, full) = subject claims _ s sub c in absurd (cc (empty_subject s same, full))
checker_key-Keys claims (some (Json.text (String.◌∷◌ c s))) kind sub =
    (_, (claims, refl, kind, sub, refl), refl)
checker_key-Keys claims (some Json.null) kind sub =
    λ s c. absurd (cc ((subject claims _ s sub c).0))
checker_key-Keys claims (some (Json.bool b)) kind sub =
    λ s c. absurd (cc ((subject claims _ s sub c).0))
checker_key-Keys claims (some (Json.num n)) kind sub =
    λ s c. absurd (cc ((subject claims _ s sub c).0))
checker_key-Keys claims (some (Json.date d)) kind sub =
    λ s c. absurd (cc ((subject claims _ s sub c).0))

other_kind :
    (claims : Details) (s : String)
    → is_kind "checker" (lookup "type" claims) ≡ false
    → AreChecker (some claims) s
    → ⊥
other_kind claims s other (others, same, kind, names, full) =
    let is : claims ≡ others = cc in
    let yes_kind : is_kind "checker" (lookup "type" claims) ≡ true =
      ap (is_kind "checker") (ap (lookup "type") is ∙ kind) in
    absurd (cc)

if-Keys :
    (P : String → Type 0) (b : Bool) (key : Option String)
    → (b ≡ true → Keys P key)
    → (b ≡ false → (s : String) → P s → ⊥)
    → Keys P (if b then key else none)
if-Keys P true key h k = h refl
if-Keys P false key h k = k refl

payload_key-Keys : (o : Option Details) → Keys (AreChecker o) (payload_key o)
unfolding payload_key
payload_key-Keys none = λ s c. absurd (cc)
payload_key-Keys (some claims) =
    if-Keys (AreChecker (some claims)) (is_kind "checker" (lookup "type" claims)) _
      (λ is. checker_key-Keys claims _ (is_kind_facts "checker" _ is) refl)
      (λ other s c. other_kind claims s other c)

Keys-map :
    (P Q : String → Type 0) (key : Option String)
    → ((s : String) → P s → Q s)
    → ((s : String) → Q s → P s)
    → Keys P key
    → Keys Q key
Keys-map P Q none f g k = λ s q. k s (g s q)
Keys-map P Q (some key) f g (s, p, same) = (s, f s p, same)

Keys-or_address :
    (P : String → Type 0) (key : Option String) (address : String)
    → Keys P key
    → ((s : String) × P s × (key_or_address key address ≡ "checker:" ++ s))
      ⊎ (((s : String) → P s → ⊥) × (key_or_address key address ≡ "ip:" ++ address))
unfolding key_or_address
Keys-or_address P none address k = inr (k, refl)
Keys-or_address P (some key) address k = inl k

module _ (x : Externals) (cfg : Settings) where
  -- the claims in the token of a header
  abbrev decoded : World → String → Option Details
  decoded w header =
      x.jwt_decode (w.clock 0) (second (split b' ' header)) cfg.jwt_secret (cfg.jwt_algorithm ∷ [])

  carried :
      (w : World) (header s : String)
      → Carries x cfg w (some header) s
      → (starts "Bearer " header ≡ true) × AreChecker (decoded w header) s
  carried w header s (held, same, bearer, are) =
      let is : header ≡ held = cc in
      subst (λ h. (starts "Bearer " h ≡ true) × AreChecker (decoded w h) s) (sym is) (bearer, are)

  -- what `header_key` answers
  abbrev Finds : World → Option String → Result (Option String) → World → Type 0
  Finds w authorization (raised e) v = ⊥
  Finds w authorization (ok key) v = (v.db ≡ w.db) × Keys (Carries x cfg w authorization) key

  header_key-Finds :
      (authorization : Option String) (w : World)
      → Wp (header_key x cfg authorization) w (Finds w authorization)
  unfolding header_key
  header_key-Finds none w = wp-pure none (refl, λ s c. absurd (cc (c.1)))
  header_key-Finds (some header) w =
      wp-if (starts "Bearer " header)
        (λ bearer. wp-decode x cfg (second (split b' ' header)) _ (λ o decodes.
          wp-pure (payload_key o) (
            refl,
            Keys-map (AreChecker o) (Carries x cfg w (some header)) (payload_key o)
                (λ s are. (header, refl, bearer, subst (λ d. AreChecker d s) (sym decodes) are))
                (λ s c. subst (λ d. AreChecker d s) decodes (carried w header s c).1)
                (payload_key-Keys o),
          )))
        (λ other.
          wp-pure none (refl, λ s c. let (bearer, are) = carried w header s c in absurd (cc)))

  get_checker_rate_limit_key-Wp :
      (caller : Caller) (w : World)
      → Wp (get_checker_rate_limit_key x cfg caller) w (Counts x cfg w caller)
  unfolding get_checker_rate_limit_key
  get_checker_rate_limit_key-Wp caller w =
      wp-call _ _ (header_key-Finds caller.authorization w)
        (λ key v found. wp-pure (key_or_address key caller.address) (
          found.0,
          Keys-or_address (Carries x cfg w caller.authorization) key caller.address found.1,
        ))
        (λ e v never. absurd never)

  -- The key of a call is that of the checker whose token the header carries, and that of the caller's
  -- address where the header carries no valid token of a checker. Finding it never raises, and changes
  -- no table.
  pub get_checker_rate_limit_key-Counts :
      (caller : Caller) (w : World)
      → Counts x cfg w caller
          (get_checker_rate_limit_key x cfg caller w).0
          (get_checker_rate_limit_key x cfg caller w).1
  get_checker_rate_limit_key-Counts caller w = (get_checker_rate_limit_key-Wp caller w).at
