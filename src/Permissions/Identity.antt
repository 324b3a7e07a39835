-- ===== src/Permissions/Identity.antt =====
-- app/core/deps.py: what a token that is accepted says, and which account it stands for.
use vista_authen.Prelude.{
  ◌≡◌, refl, String, true, Bool, ℕ_eq, suc, Option, some, none, [], ◌∷◌, ap, ◌∙◌,
}
use text.Mathlib.TextEquality.{eq_iff}
use vista_authen.Models.{Uuid, Json, Details, Db}
use vista_authen.Session.{
  M, World, Result, ok, raised, Exn, http, value_error, type_error, bad_uuid, ◌>>=◌,
}
use vista_authen.Session.Wp.{Wp, wp-raise, wp-require_last}
use vista_authen.Config.{Settings}
use vista_authen.Externals.{Externals}
use vista_authen.Python.UuidText.{parse_uuid}
use vista_authen.Security.{lookup, decode_access_token}
use vista_authen.Deps.{is_kind, claimed, uuid_claim}

-- how a caller is turned away: 401, 403, or the error of a subject that is no UUID
pub data Denial : Exn → Type 0 where
  not_known : Denial (http 401)
  not_allowed : Denial (http 403)
  bad_subject : Denial (value_error bad_uuid)
  no_text : Denial type_error

-- The token decodes at the next reading of the clock, to claims of kind `kind` about the id `i`.
pub record Names (x : Externals) (cfg : Settings) (w : World) (credentials kind : String) (i : Uuid)
    : Type 0 where
  pub claims : Details
  pub decodes :
      x.jwt_decode (w.clock 0) credentials cfg.jwt_secret (cfg.jwt_algorithm ∷ []) ≡ some claims
  pub type : lookup "type" claims ≡ some (Json.text kind)
  pub subject : String
  pub sub : lookup "sub" claims ≡ some (Json.text subject)
  pub parses : parse_uuid subject ≡ some i

-- The token names the row `a`, which is active.
pub record Identified (x : Externals) (cfg : Settings) (w : World) (credentials kind : String)
    {A : Type 0} (find : Uuid → Db → Option A) (is_active : A → Bool) (a : A) : Type 0 where
  pub id : Uuid
  pub names : Names x cfg w credentials kind id
  pub row : find id w.db ≡ some a
  pub active : is_active a ≡ true

pub is_kind_facts :
    (kind : String) (o : Option Json) → is_kind kind o ≡ true → o ≡ some (Json.text kind)
is_kind_facts kind none h = absurd (cc)
is_kind_facts kind (some (Json.text s)) h = ap (λ t. some (Json.text t)) ((eq_iff s kind).0 h)
is_kind_facts kind (some Json.null) h = absurd (cc)
is_kind_facts kind (some (Json.bool b)) h = absurd (cc)
is_kind_facts kind (some (Json.num n)) h = absurd (cc)
is_kind_facts kind (some (Json.date t)) h = absurd (cc)

pub claimed_facts : (o : Option Json) (v : Json) → claimed o ≡ some v → o ≡ some v
claimed_facts none v h = h
claimed_facts (some Json.null) v h = absurd (cc)
claimed_facts (some (Json.text s)) v h = h
claimed_facts (some (Json.bool b)) v h = h
claimed_facts (some (Json.num n)) v h = h
claimed_facts (some (Json.date t)) v h = h

-- the id in the claim `sub`
abbrev Parses : Json → World → Result Uuid → World → Type 0
Parses sub w (raised e) v = Denial e
Parses sub w (ok i) v = (s : String) × (sub ≡ Json.text s) × (parse_uuid s ≡ some i) × (v ≡ w)

pub uuid_claim-Parses : (sub : Json) (w : World) → Wp (uuid_claim sub) w (Parses sub w)
unfolding uuid_claim
uuid_claim-Parses (Json.text s) w =
    wp-require_last _ _ (λ i parses. (s, refl, parses, refl)) (λ bad. bad_subject)
uuid_claim-Parses Json.null w = wp-raise _ no_text
uuid_claim-Parses (Json.bool b) w = wp-raise _ no_text
uuid_claim-Parses (Json.num n) w = wp-raise _ no_text
uuid_claim-Parses (Json.date t) w = wp-raise _ no_text

-- what loading the account of a subject ends in
abbrev pub Loads :
    {A : Type 0} → (Uuid → Db → Option A) → (A → Bool) → Json → World → Result A → World → Type 0
Loads find is_active sub w (raised e) v = Denial e
Loads find is_active sub w (ok a) v =
    (s : String) × (i : Uuid) × (sub ≡ Json.text s)
    × (parse_uuid s ≡ some i)
    × (find i w.db ≡ some a)
    × (is_active a ≡ true)

module _ (x : Externals) (cfg : Settings) (credentials : String) where
  abbrev pub after : World → World
  after w = record w { clock = λ n. w.clock (suc n) }

  -- what finding the account of a token ends in
  abbrev pub Identifies :
      String
      → {A : Type 0} → (Uuid → Db → Option A)
      → (A → Bool)
      → World
      → Result A
      → World
      → Type 0
  Identifies kind find is_active w (raised e) v = Denial e
  Identifies kind find is_active w (ok a) v = Identified x cfg w credentials kind find is_active a

  pub wp-decode :
      {B : Type 0} {w : World} {Q : Result B → World → Type 0} (f : Option Details → M B)
      → ((o : Option Details)
          → x.jwt_decode (w.clock 0) credentials cfg.jwt_secret (cfg.jwt_algorithm ∷ []) ≡ o
          → Wp (f o) (after w) Q)
      → Wp (decode_access_token x cfg credentials >>= f) w Q
  unfolding decode_access_token ◌>>=◌
  wp-decode f h = record { at = (h _ refl).at }

  pub identified :
      {A : Type 0} (find : Uuid → Db → Option A) (is_active : A → Bool) (kind : String)
      (w v : World) (claims : Details) (sub : Json) (r : Result A)
      → x.jwt_decode (w.clock 0) credentials cfg.jwt_secret (cfg.jwt_algorithm ∷ []) ≡ some claims
      → is_kind kind (lookup "type" claims) ≡ true
      → claimed (lookup "sub" claims) ≡ some sub
      → Loads find is_active sub (after w) r v
      → Identifies kind find is_active w r v
  identified find is_active kind w v claims sub (raised e) decodes is claim d = d
  identified find is_active kind w v claims sub (ok a) decodes is claim
        (s, i, text, parses, row, on) =
      record {
        id = i;
        names = record {
          claims = claims;
          decodes = decodes;
          type = is_kind_facts kind _ is;
          subject = s;
          sub = claimed_facts _ sub claim ∙ ap (λ j. some j) text;
          parses = parses;
        };
        row = row;
        active = on;
      }
