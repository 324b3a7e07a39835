-- ===== src/Permissions/Roles.antt =====
-- A request that needs a role is let through only for an active account that has it.
use vista_authen.Prelude.{◌≡◌, refl, String, true, not, Option, some, none, List, arith, ◌∙◌, subst}
use vista_authen.Models.{Uuid, Db, Admin, AdminRole, Json, admin_role_eq}
use vista_authen.Session.{World, Result, ok, raised, http}
use vista_authen.Session.Wp.{
  Wp, wp-pure, wp-raise, wp-query, wp-raise_if, wp-require, wp-call, wp-weaken, wp-eq, wp-if,
}
use vista_authen.Config.{Settings}
use vista_authen.Externals.{Externals}
use vista_authen.Rows.{get, admin_keyed}
use vista_authen.Deps.{
  active_admin, load_admin, get_current_admin, has_admin_role, require_admin_role,
}
use vista_authen.Permissions.Identity.{
  Names, Loads, Identifies, identified, uuid_claim-Parses, wp-decode, Denial, not_known,
  not_allowed,
}

pub record Authorised (x : Externals) (cfg : Settings) (w : World) (credentials : String)
    (roles : List AdminRole) (a : Admin) : Type 0 where
  pub id : Uuid
  pub names : Names x cfg w credentials "admin" id
  pub row : get id w.db.admins ≡ some a
  pub is_active : a.is_active ≡ true
  pub has_role : has_admin_role a.role roles ≡ true

abbrev pub admin_row : Uuid → Db → Option Admin
admin_row i d = get i d.admins

active_admin-Loads :
    (o : Option Admin) (w : World) (Q : Result Admin → World → Type 0)
    → ((a : Admin) → o ≡ some a → a.is_active ≡ true → Q (ok a) w)
    → Q (raised (http 401)) w
    → Wp (active_admin o) w Q
unfolding active_admin
active_admin-Loads none w Q h k = wp-raise _ k
active_admin-Loads (some a) w Q h k =
    wp-if (not a.is_active) (λ inactive. wp-raise _ k) (λ on. wp-pure _ (h a refl (ground arith)))

pub load_admin-Loads :
    (sub : Json) (w : World) → Wp (load_admin sub) w (Loads admin_row (λ a. a.is_active) sub w)
unfolding load_admin
load_admin-Loads sub w =
    wp-call _ _ (uuid_claim-Parses sub w)
      (λ i v (s, text, parses, same). wp-query _ _ (
        active_admin-Loads _ v (Loads admin_row (λ a. a.is_active) sub w)
          (λ a row on.
            (s, i, text, parses, subst (λ (u : World). get i u.db.admins ≡ some a) same row, on))
          not_known))
      (λ e v d. d)

module _ (x : Externals) (cfg : Settings) (credentials : String) where
  get_current_admin-Identifies :
      (w : World)
      → Wp
          (get_current_admin x cfg credentials)
          w
          (Identifies x cfg credentials "admin" admin_row (λ a. a.is_active) w)
  unfolding get_current_admin
  get_current_admin-Identifies w = wp-decode x cfg credentials _ (λ o decodes.
      wp-require _ _ _
        (λ claims some_claims.
          wp-raise_if _ _ _
            (λ kind.
              wp-require _ _ _
                (λ sub claim. wp-weaken (load_admin-Loads sub _) (λ r u loads.
                  identified x cfg credentials admin_row (λ a. a.is_active) "admin" w u claims sub r
                    (decodes ∙ some_claims) (ground arith) claim loads))
                (λ absent. not_known))
            (λ other. not_known))
        (λ absent. not_known))

  -- What a role check answers.
  abbrev pub Authorises : List AdminRole → World → Result Admin → World → Type 0
  Authorises roles w (raised e) v = Denial e
  Authorises roles w (ok a) v = Authorised x cfg w credentials roles a

  pub require_admin_role-Authorises :
      (roles : List AdminRole) (w : World)
      → Wp (require_admin_role x cfg roles credentials) w (Authorises roles w)
  unfolding require_admin_role
  require_admin_role-Authorises roles w =
      wp-call _ _ (get_current_admin-Identifies w)
        (λ a v h.
          wp-raise_if _ _ _
            (λ allowed. wp-pure _ (record {
              id = h.id;
              names = h.names;
              row = h.row;
              is_active = h.active;
              has_role = ground arith;
            }))
            (λ other. not_allowed))
        (λ e v d. d)

-- Whoever passes a check for admin roles is the active admin that a valid token for admins names,
-- and has one of the roles.
pub require_admin_role_authorises :
    (x : Externals) (cfg : Settings) (roles : List AdminRole) (credentials : String) (w v : World)
    (a : Admin)
    → require_admin_role x cfg roles credentials w ≡ (ok a, v)
    → Authorised x cfg w credentials roles a
require_admin_role_authorises x cfg roles credentials w v a done =
    wp-eq (require_admin_role-Authorises x cfg credentials roles w) done
