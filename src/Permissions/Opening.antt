-- ===== src/Permissions/Opening.antt =====
-- app/core/deps.py: a token that the library opens says who it was made for.
use vista_authen.Prelude.{
  ℕ, suc, ◌+◌, ◌*◌, ◌≤◌, ◌≡◌, ◌≢◌, refl, sym, ap, subst, ◌∙◌, String, true, false, not, arith, ◌==◌,
  String_eq, eq_self, some, [], ◌∷◌,
}
use text.Mathlib.TextEquality.{eq_iff}
use vista_authen.Models.{Uuid, Json, Details, aware}
use vista_authen.Session.{M, World, Result, ok, raised, require, raise_if, ◌>>=◌, ◌>>◌}
use vista_authen.Session.Wp.{Wp, wp-raise_if, wp-require}
use vista_authen.Config.{Settings}
use vista_authen.Externals.{Externals}
use vista_authen.Security.{lookup, update, minute, decode_access_token}
use vista_authen.Python.UuidText.{str_uuid}
use vista_authen.Rows.{admin_keyed}
use vista_authen.Deps.{is_kind, claimed, unauthorized}
use vista_authen.Routes.Staff.{claims}
use vista_authen.Permissions.Identity.{wp-decode}

-- What `jwt.decode` makes of a token that `jwt.encode` has made, with the same secret and algorithm,
-- until the claim `exp` has passed: every other claim comes back as it was.
pub record Opens (x : Externals) (cfg : Settings) (token : String) (sent : Details) (now : ℕ)
    : Type 0 where
  pub received : Details
  pub decodes : x.jwt_decode now token cfg.jwt_secret (cfg.jwt_algorithm ∷ []) ≡ some received
  pub unchanged : (key : String) → key ≢ "exp" → lookup key received ≡ lookup key sent

pub one : {A : Type 0} {a b : A} → some a ≡ some b → a ≡ b
one h = cc

pub from_ok : {A : Type 0} {a b : A} → (ok a ≡ ok b) → a ≡ b
from_ok h = cc

distinct : (s t : String) → (s == t) ≡ false → s ≢ t
distinct s t h e = let yes : (s == t) ≡ true = (eq_iff s t).1 e in absurd (cc)

-- the claims that `create_access_token` signs at a time
abbrev pub signed : Settings → ℕ → Details → Details
signed cfg now sent =
    update "exp" (Json.date (aware (now + cfg.jwt_access_token_expire_minutes * minute))) sent

abbrev pub signed_token : Externals → Settings → ℕ → Details → String
signed_token x cfg now sent = x.jwt_encode (signed cfg now sent) cfg.jwt_secret cfg.jwt_algorithm

-- The library opens the tokens that it has signed for these claims, until they expire.
abbrev pub TokensOpen : Externals → Settings → Details → Type 0
TokensOpen x cfg sent =
    (issued now : ℕ)
    → now ≤ issued + cfg.jwt_access_token_expire_minutes * minute
    → Opens x cfg (signed_token x cfg issued sent) (signed cfg issued sent) now

module _ (x : Externals) (cfg : Settings) where
  -- the first part of `get_current_admin` and of `get_current_checker`, before the row is loaded
  abbrev known_as : {A : Type 0} → String → (Json → M A) → String → M A
  known_as kind load credentials = do
    decoded ← decode_access_token x cfg credentials
    payload ← require decoded unauthorized
    raise_if (not (is_kind kind (lookup "type" payload))) unauthorized
    sub ← require (claimed (lookup "sub" payload)) unauthorized
    load sub

  module _ (id : Uuid) (role kind : String) where
    -- what the token says
    abbrev Says : Details → Type 0
    Says received =
        (lookup "type" received ≡ some (Json.text kind))
        × (lookup "sub" received ≡ some (Json.text (str_uuid id)))

    says :
        (token : String) (now then : ℕ) (received : Details)
        → Opens x cfg token (signed cfg now (claims id role kind)) then
        → x.jwt_decode then token cfg.jwt_secret (cfg.jwt_algorithm ∷ []) ≡ some received
        → Says received
    says token now then received opens decodes =
        let same : opens.received ≡ received = cc in
        subst Says same (
          opens.unchanged "type" (λ h. distinct "type" "exp" refl h),
          opens.unchanged "sub" (λ h. distinct "sub" "exp" refl h),
        )

    module _ (token : String) (w : World) (now : ℕ)
        (opens : Opens x cfg token (signed cfg now (claims id role kind)) (w.clock 0)) where
      -- such a token is taken for its own kind
      pub known_as-own :
          {A : Type 0} (load : Json → M A) (Q : Result A → World → Type 0)
          → ((v : World) → v.db ≡ w.db → Wp (load (Json.text (str_uuid id))) v Q)
          → Wp (known_as kind load token) w Q
      known_as-own load Q loads = wp-decode x cfg token _ (λ o decodes.
          wp-require _ _ _
            (λ received some_received.
              let said : Says received =
                says token now (w.clock 0) received opens (decodes ∙ some_received) in
              wp-raise_if _ _ _
                (λ is.
                  wp-require _ _ _
                    (λ sub claim.
                      let same : sub ≡ Json.text (str_uuid id) =
                        one (sym claim ∙ ap claimed said.1) in
                      let later : World = record w { clock = λ i. w.clock (suc i) } in
                      subst (λ s. Wp (load s) later Q) (sym same) (loads later refl))
                    (λ absent.
                      let there : claimed (lookup "sub" received) ≡ some (Json.text (str_uuid id)) =
                        ap claimed said.1 in
                      absurd (cc)))
                (λ other.
                  let is : is_kind kind (lookup "type" received) ≡ true =
                    ap (is_kind kind) said.0 ∙ eq_self kind in
                  absurd (ground arith)))
            (λ absent.
              let there : o ≡ some opens.received = sym decodes ∙ opens.decodes in absurd (cc)))

      -- and for no other
      pub known_as-other :
          {A : Type 0} (load : Json → M A) (other : String)
          → (kind == other) ≡ false
          → Wp (known_as other load token) w (λ r v. r ≡ raised unauthorized)
      known_as-other load other apart = wp-decode x cfg token _ (λ o decodes.
          wp-require _ _ _
            (λ received some_received.
              let said : Says received =
                says token now (w.clock 0) received opens (decodes ∙ some_received) in
              wp-raise_if _ _ _
                (λ taken.
                  let no : is_kind other (lookup "type" received) ≡ false =
                    ap (is_kind other) said.0 ∙ apart in
                  absurd (ground arith))
                (λ refused. refl))
            (λ absent. refl))
