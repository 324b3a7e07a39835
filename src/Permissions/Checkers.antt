-- ===== src/Permissions/Checkers.antt =====
-- A request for a checker, or for a staff admin or a manager, is let through only for such an
-- account.
use vista_authen.Prelude.{◌≡◌, refl, String, true, not, Option, some, none, arith, ◌∙◌, subst, ◌==◌}
use vista_authen.Models.{
  Uuid, Db, Admin, Json, staff_admin, manager, admin_role_eq, checker_role_eq, Checker,
}
use vista_authen.Session.{World, Result, ok, raised, http}
use vista_authen.Session.Wp.{
  Wp, wp-pure, wp-raise, wp-query, wp-raise_if, wp-require, wp-call, wp-weaken, wp-if,
}
use vista_authen.Config.{Settings}
use vista_authen.Externals.{Externals}
use vista_authen.Rows.{get, checker_keyed}
use vista_authen.Deps.{
  active_checker, load_checker, get_current_checker, User, require_user_role,
  get_current_admin_or_checker, require_staff_admin_or_manager,
}
use vista_authen.Permissions.Identity.{
  Identified, Loads, Identifies, identified, uuid_claim-Parses, wp-decode, Denial, not_known,
  not_allowed,
}
use vista_authen.Permissions.Roles.{admin_row, load_admin-Loads}

abbrev pub checker_row : Uuid → Db → Option Checker
checker_row i d = get i d.checkers

active_checker-Loads :
    (o : Option Checker) (w : World) (Q : Result Checker → World → Type 0)
    → ((c : Checker) → o ≡ some c → c.is_active ≡ true → Q (ok c) w)
    → Q (raised (http 401)) w
    → Wp (active_checker o) w Q
unfolding active_checker
active_checker-Loads none w Q h k = wp-raise _ k
active_checker-Loads (some c) w Q h k =
    wp-if (not c.is_active) (λ inactive. wp-raise _ k) (λ on. wp-pure _ (h c refl (ground arith)))

load_checker-Loads :
    (sub : Json) (w : World) → Wp (load_checker sub) w (Loads checker_row (λ c. c.is_active) sub w)
unfolding load_checker
load_checker-Loads sub w =
    wp-call _ _ (uuid_claim-Parses sub w)
      (λ i v (s, text, parses, same). wp-query _ _ (
        active_checker-Loads _ v (Loads checker_row (λ c. c.is_active) sub w)
          (λ c row on.
            (s, i, text, parses, subst (λ (u : World). get i u.db.checkers ≡ some c) same row, on))
          not_known))
      (λ e v d. d)

module _ (x : Externals) (cfg : Settings) (credentials : String) where
  -- the checker that a valid token for checkers names, who is active
  abbrev pub IsChecker : World → Checker → Type 0
  IsChecker w c = Identified x cfg w credentials "checker" checker_row (λ c. c.is_active) c

  abbrev IsAdmin : World → Admin → Type 0
  IsAdmin w a = Identified x cfg w credentials "admin" admin_row (λ a. a.is_active) a

  pub get_current_checker-Identifies :
      (w : World)
      → Wp
          (get_current_checker x cfg credentials)
          w
          (Identifies x cfg credentials "checker" checker_row (λ c. c.is_active) w)
  unfolding get_current_checker
  get_current_checker-Identifies w = wp-decode x cfg credentials _ (λ o decodes.
      wp-require _ _ _
        (λ claims some_claims.
          wp-raise_if _ _ _
            (λ kind.
              wp-require _ _ _
                (λ sub claim. wp-weaken (load_checker-Loads sub _) (λ r u loads.
                  identified x cfg credentials checker_row (λ c. c.is_active) "checker" w u claims
                    sub r (decodes ∙ some_claims) (ground arith) claim loads))
                (λ absent. not_known))
            (λ other. not_known))
        (λ absent. not_known))

  -- the account of either kind
  abbrev IsUser : World → User → Type 0
  IsUser w (User.admin a) = IsAdmin w a
  IsUser w (User.checker c) = IsChecker w c

  abbrev IdentifiesUser : World → Result User → World → Type 0
  IdentifiesUser w (raised e) v = Denial e
  IdentifiesUser w (ok u) v = IsUser w u

  get_current_admin_or_checker-Identifies :
      (w : World) → Wp (get_current_admin_or_checker x cfg credentials) w (IdentifiesUser w)
  unfolding get_current_admin_or_checker
  get_current_admin_or_checker-Identifies w = wp-decode x cfg credentials _ (λ o decodes.
      wp-require _ _ _
        (λ claims some_claims.
          wp-require _ _ _
            (λ sub claim.
              wp-if _
                (λ kind.
                  wp-call _ _
                    (wp-weaken (load_admin-Loads sub _) (λ r u loads.
                      identified x cfg credentials admin_row (λ a. a.is_active) "admin" w u claims
                        sub r (decodes ∙ some_claims) kind claim loads))
                    (λ a v is. wp-pure _ is) (λ e v d. d))
                (λ other.
                  wp-if _
                    (λ kind.
                      wp-call _ _
                        (wp-weaken (load_checker-Loads sub _) (λ r u loads.
                          identified x cfg credentials checker_row (λ c. c.is_active) "checker" w u
                            claims sub r (decodes ∙ some_claims) kind claim loads))
                        (λ c v is. wp-pure _ is) (λ e v d. d))
                    (λ neither. wp-raise _ not_known)))
            (λ absent. not_known))
        (λ absent. not_known))

  -- an active staff admin, or an active checker who is a manager
  abbrev pub IsOverseer : World → User → Type 0
  IsOverseer w (User.admin a) = IsAdmin w a × (a.role ≡ staff_admin)
  IsOverseer w (User.checker c) = IsChecker w c × (c.role ≡ manager)

  abbrev pub Oversees : World → Result User → World → Type 0
  Oversees w (raised e) v = Denial e
  Oversees w (ok u) v = IsOverseer w u

  require_user_role-Oversees :
      (w v : World) (u : User) → IsUser w u → Wp (require_user_role u) v (Oversees w)
  unfolding require_user_role
  require_user_role-Oversees w v (User.admin a) is =
      wp-if (not (a.role == staff_admin)) (λ other. wp-raise _ not_allowed)
        (λ same. wp-pure (User.admin a) (is, ground arith))
  require_user_role-Oversees w v (User.checker c) is =
      wp-if (not (c.role == manager)) (λ other. wp-raise _ not_allowed)
        (λ same. wp-pure (User.checker c) (is, ground arith))

  pub require_staff_admin_or_manager-Oversees :
      (w : World) → Wp (require_staff_admin_or_manager x cfg credentials) w (Oversees w)
  unfolding require_staff_admin_or_manager
  require_staff_admin_or_manager-Oversees w =
      wp-call _ _ (get_current_admin_or_checker-Identifies w)
        (λ u v is. require_user_role-Oversees w v u is) (λ e v d. d)
