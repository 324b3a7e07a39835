-- ===== src/Permissions/Accepting.antt =====
-- app/core/deps.py: a fresh token of an active account is accepted, as one of its own kind.
use vista_authen.Prelude.{
  ◌^◌, ◌<◌, ◌≡◌, refl, sym, ap, subst, ◌∙◌, String, true, not, arith, ℕ, Option, none, some, List,
}
use vista_authen.Models.{
  Admin, Checker, AdminRole, Json, Details, admin_role_value, checker_role_value, admin_role_eq,
}
use vista_authen.Session.{World, ok, raised, http}
use vista_authen.Session.Wp.{Wp, wp-pure, wp-query, wp-raise_if, wp-require, wp-call, wp-if}
use vista_authen.Config.{Settings}
use vista_authen.Externals.{Externals}
use vista_authen.Python.UuidText.{parse_uuid, str_uuid}
use vista_authen.Python.RoundTrip.{parse_uuid-str_uuid}
use vista_authen.Rows.{get, admin_keyed, checker_keyed}
use vista_authen.Deps.{
  uuid_claim, active_admin, active_checker, load_admin, load_checker, get_current_admin,
  get_current_checker, has_admin_role, require_admin_role,
}
use vista_authen.Routes.Staff.{claims}
use vista_authen.Permissions.Opening.{Opens, signed, one, from_ok, known_as-own, known_as-other}

abbrev pub admin_claims : Admin → Details
admin_claims a = claims a.id (admin_role_value a.role) "admin"

abbrev pub checker_claims : Checker → Details
checker_claims c = claims c.id (checker_role_value c.role) "checker"

active_admin_accepts :
    (a : Admin) (o : Option Admin) (w : World)
    → o ≡ some a
    → a.is_active ≡ true
    → Wp (active_admin o) w (λ r v. r ≡ ok a)
unfolding active_admin
active_admin_accepts a none w h on = absurd (cc)
active_admin_accepts a (some b) w h on =
    let same : b ≡ a = one h in
    let active : b.is_active ≡ true = subst (λ (k : Admin). k.is_active ≡ true) (sym same) on in
    wp-if (not b.is_active) (λ off. absurd (ground arith)) (λ yes. wp-pure _ (ap (λ k. ok k) same))

load_admin_accepts :
    (a : Admin) (w : World)
    → a.id < 2 ^ 128
    → a.is_active ≡ true
    → get a.id w.db.admins ≡ some a
    → Wp (load_admin (Json.text (str_uuid a.id))) w (λ r v. r ≡ ok a)
unfolding load_admin uuid_claim
load_admin_accepts a w small on row =
    let read : parse_uuid (str_uuid a.id) ≡ some a.id = parse_uuid-str_uuid a.id small in
    wp-require _ _ _
      (λ i parses.
        let is : i ≡ a.id = one (sym parses ∙ read) in
        wp-query _ _ (active_admin_accepts a _ w (ap (λ j. get j w.db.admins) is ∙ row) on))
      (λ fails. absurd (cc))

active_checker_accepts :
    (c : Checker) (o : Option Checker) (w : World)
    → o ≡ some c
    → c.is_active ≡ true
    → Wp (active_checker o) w (λ r v. r ≡ ok c)
unfolding active_checker
active_checker_accepts c none w h on = absurd (cc)
active_checker_accepts c (some b) w h on =
    let same : b ≡ c = one h in
    let active : b.is_active ≡ true = subst (λ (k : Checker). k.is_active ≡ true) (sym same) on in
    wp-if (not b.is_active) (λ off. absurd (ground arith)) (λ yes. wp-pure _ (ap (λ k. ok k) same))

load_checker_accepts :
    (c : Checker) (w : World)
    → c.id < 2 ^ 128
    → c.is_active ≡ true
    → get c.id w.db.checkers ≡ some c
    → Wp (load_checker (Json.text (str_uuid c.id))) w (λ r v. r ≡ ok c)
unfolding load_checker uuid_claim
load_checker_accepts c w small on row =
    let read : parse_uuid (str_uuid c.id) ≡ some c.id = parse_uuid-str_uuid c.id small in
    wp-require _ _ _
      (λ i parses.
        let is : i ≡ c.id = one (sym parses ∙ read) in
        wp-query _ _ (active_checker_accepts c _ w (ap (λ j. get j w.db.checkers) is ∙ row) on))
      (λ fails. absurd (cc))

module _ (x : Externals) (cfg : Settings) (a : Admin) (token : String) (w : World) (now : ℕ)
    (opens : Opens x cfg token (signed cfg now (admin_claims a)) (w.clock 0)) where
  pub get_current_admin_accepts :
      a.id < 2 ^ 128
      → a.is_active ≡ true
      → get a.id w.db.admins ≡ some a
      → Wp (get_current_admin x cfg token) w (λ r v. r ≡ ok a)
  unfolding get_current_admin
  get_current_admin_accepts small on row =
      known_as-own x cfg a.id _ "admin" token w now opens load_admin _
        (λ v same. load_admin_accepts a v small on (ap (λ d. get a.id d.admins) same ∙ row))

  pub get_current_checker_refuses :
      Wp (get_current_checker x cfg token) w (λ r v. r ≡ raised (http 401))
  unfolding get_current_checker
  get_current_checker_refuses =
      known_as-other x cfg a.id _ "admin" token w now opens load_checker "checker" refl

module _ (x : Externals) (cfg : Settings) (c : Checker) (token : String) (w : World) (now : ℕ)
    (opens : Opens x cfg token (signed cfg now (checker_claims c)) (w.clock 0)) where
  pub get_current_checker_accepts :
      c.id < 2 ^ 128
      → c.is_active ≡ true
      → get c.id w.db.checkers ≡ some c
      → Wp (get_current_checker x cfg token) w (λ r v. r ≡ ok c)
  unfolding get_current_checker
  get_current_checker_accepts small on row =
      known_as-own x cfg c.id _ "checker" token w now opens load_checker _
        (λ v same. load_checker_accepts c v small on (ap (λ d. get c.id d.checkers) same ∙ row))

  pub get_current_admin_refuses :
      Wp (get_current_admin x cfg token) w (λ r v. r ≡ raised (http 401))
  unfolding get_current_admin
  get_current_admin_refuses =
      known_as-other x cfg c.id _ "checker" token w now opens load_admin "admin" refl

module _ (x : Externals) (cfg : Settings) (a : Admin) (token : String) (w : World) (now : ℕ)
    (opens : Opens x cfg token (signed cfg now (admin_claims a)) (w.clock 0)) where
  pub require_admin_role_accepts :
      (roles : List AdminRole)
      → a.id < 2 ^ 128
      → a.is_active ≡ true
      → get a.id w.db.admins ≡ some a
      → has_admin_role a.role roles ≡ true
      → Wp (require_admin_role x cfg roles token) w (λ r v. r ≡ ok a)
  unfolding require_admin_role
  require_admin_role_accepts roles small on row has =
      wp-call _ _ (get_current_admin_accepts x cfg a token w now opens small on row)
        (λ b v is.
          let same : b ≡ a = from_ok is in
          let allowed : has_admin_role b.role roles ≡ true =
            subst (λ (k : Admin). has_admin_role k.role roles ≡ true) (sym same) has in
          wp-raise_if _ _ _ (λ yes. wp-pure _ is) (λ no. absurd (ground arith)))
        (λ e v is. is)
