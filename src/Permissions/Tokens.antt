-- ===== src/Permissions/Tokens.antt =====
-- app/routes/auth.py: a token that a login has issued is accepted.
use vista_authen.Prelude.{
  ◌+◌, ◌*◌, ◌^◌, ◌<◌, ◌≤◌, ◌≡◌, refl, sym, ap, subst, ◌∙◌, String, true, ◌==◌, String_eq, some,
  List, [], ◌∷◌, select,
}
use vista_authen.Models.{Admin, AdminRole, admin_role_eq}
use vista_authen.Session.{World, Result, ok, raised}
use vista_authen.Session.Wp.{
  Wp, wp-pure, wp-raise_if_last, wp-require, wp-utcnow, wp-hit, wp-call, wp-eq,
}
use vista_authen.Config.{Settings}
use vista_authen.Externals.{Externals}
use vista_authen.Security.{minute, create_access_token}
use vista_authen.Rows.{get, admin_keyed}
use vista_authen.Deps.{has_admin_role, require_admin_role}
use vista_authen.Limiter.{Caller, rate_limit}
use vista_authen.Routes.Staff.{TokenResponse, admin_login}
use vista_authen.Permissions.Passwords.{AdminLogin, authenticate_admin-Login}
use vista_authen.Permissions.Opening.{signed, signed_token, TokensOpen}
use vista_authen.Permissions.Accepting.{admin_claims, require_admin_role_accepts}

-- what a login of the account `a` answers
abbrev Issues : Externals → Settings → World → Admin → Result TokenResponse → World → Type 0
Issues x cfg w a (raised e) v = Unit
Issues x cfg w a (ok t) v =
    (t.access_token
      ≡ x.jwt_encode (signed cfg (w.clock 0) (admin_claims a)) cfg.jwt_secret cfg.jwt_algorithm)
    × (a.is_active ≡ true)

module _ (x : Externals) (cfg : Settings) (name password : String) (a : Admin) where
  abbrev Same : World → Result (Unit {0}) → World → Type 0
  Same w r v = (v.db ≡ w.db) × (v.clock ≡ w.clock)

  issues :
      (w u : World) (c : Admin)
      → select (λ r. r.username == name) w.db.admins ≡ a ∷ []
      → AdminLogin x name password w (ok (some c)) u
      → (c ≡ a) × (a.is_active ≡ true) × (u ≡ w)
  issues w u c only login =
      let same : c ≡ a = cc in
      (same, subst (λ (b : Admin). b.is_active ≡ true) same login.1, login.3)

  abbrev Signs : World → Admin → Result String → World → Type 0
  Signs u b (raised e) v = Unit
  Signs u b (ok token) v = token ≡ signed_token x cfg (u.clock 0) (admin_claims b)

  admin_login-Issues :
      (caller : Caller) (w : World)
      → select (λ r. r.username == name) w.db.admins ≡ a ∷ []
      → Wp (admin_login x cfg caller name password) w (Issues x cfg w a)
  unfolding admin_login rate_limit create_access_token
  admin_login-Issues caller w only =
      wp-call _ _
        (wp-hit {Q = Same w} _ _ _ (wp-raise_if_last _ _ (λ h. (refl, refl)) (λ h. (refl, refl))))
        (λ t v same.
          wp-call _ _ (authenticate_admin-Login x name password v)
            (λ found u login.
              wp-require _ _ _
                (λ c some_c.
                  wp-call _ _ (wp-utcnow _ (wp-pure {Q = Signs u c} _ refl))
                    (λ token z made.
                      let login_c : AdminLogin x name password v (ok (some c)) u =
                        subst (λ o. AdminLogin x name password v (ok o) u) some_c login in
                      let (c_a, on, u_v) =
                        issues v u c
                          (ap (λ d. select (λ r. r.username == name) d.admins) same.0 ∙ only)
                          login_c in
                      wp-pure _ (
                        made
                            ∙ ap (λ b. signed_token x cfg (u.clock 0) (admin_claims b)) c_a
                            ∙ ap (λ n. signed_token x cfg n (admin_claims a))
                                (ap (λ (k : World). k.clock 0) u_v ∙ ap (λ f. f 0) same.1),
                        on,
                      ))
                    (λ e z h. tt))
                (λ nobody. tt))
            (λ e u h. tt))
        (λ e v h. tt)

-- Where the library opens the tokens that it has signed until they expire: the token that a login of
-- an admin answers passes, until it expires, every role check for a role of that admin, as long as
-- the row of the admin is as it was.
pub admin_login_accepted :
    (x : Externals) (cfg : Settings) (caller : Caller) (name password : String) (a : Admin)
    (w v u : World) (t : TokenResponse) (roles : List AdminRole)
    → TokensOpen x cfg (admin_claims a)
    → select (λ r. r.username == name) w.db.admins ≡ a ∷ []
    → a.id < 2 ^ 128
    → admin_login x cfg caller name password w ≡ (ok t, v)
    → get a.id u.db.admins ≡ some a
    → has_admin_role a.role roles ≡ true
    → u.clock 0 ≤ w.clock 0 + cfg.jwt_access_token_expire_minutes * minute
    → (require_admin_role x cfg roles t.access_token u).0 ≡ ok a
admin_login_accepted x cfg caller name password a w v u t roles opens only small done row has
      fresh =
    let (made, on) = wp-eq (admin_login-Issues x cfg name password a caller w only) done in
    subst (λ token. (require_admin_role x cfg roles token u).0 ≡ ok a) (sym made)
      (require_admin_role_accepts x cfg a _ u (w.clock 0) (opens (w.clock 0) (u.clock 0) fresh)
        roles small on row has).at
