-- ===== src/Permissions/Doors.antt =====
-- app/routes/auth.py: a token that a login of a checker has issued is accepted at the door, and not
-- by the endpoints for administrators.
use vista_authen.Prelude.{
  ◌+◌, ◌*◌, ◌^◌, ◌<◌, ◌≤◌, ◌≡◌, refl, sym, ap, subst, ◌∙◌, String, true, ◌==◌, String_eq, some, [],
  ◌∷◌, select,
}
use vista_authen.Models.{Checker}
use vista_authen.Session.{World, Result, ok, raised, http}
use vista_authen.Session.Wp.{
  Wp, wp-pure, wp-raise_if_last, wp-require, wp-utcnow, wp-hit, wp-call, wp-eq,
}
use vista_authen.Config.{Settings}
use vista_authen.Externals.{Externals}
use vista_authen.Security.{minute, create_access_token}
use vista_authen.Rows.{get, checker_keyed}
use vista_authen.Deps.{get_current_checker, get_current_admin}
use vista_authen.Limiter.{Caller, rate_limit}
use vista_authen.Routes.Staff.{TokenResponse, checker_login}
use vista_authen.Permissions.Passwords.{CheckerLogin, authenticate_checker-Login}
use vista_authen.Permissions.Opening.{signed, signed_token, TokensOpen}
use vista_authen.Permissions.Accepting.{
  checker_claims, get_current_checker_accepts, get_current_admin_refuses,
}

-- what a login of the account `a` answers
abbrev Issues : Externals → Settings → World → Checker → Result TokenResponse → World → Type 0
Issues x cfg w a (raised e) v = Unit
Issues x cfg w a (ok t) v =
    (t.access_token
      ≡ x.jwt_encode (signed cfg (w.clock 0) (checker_claims a)) cfg.jwt_secret cfg.jwt_algorithm)
    × (a.is_active ≡ true)

module _ (x : Externals) (cfg : Settings) (name password : String) (a : Checker) where
  abbrev Same : World → Result (Unit {0}) → World → Type 0
  Same w r v = (v.db ≡ w.db) × (v.clock ≡ w.clock)

  issues :
      (w u : World) (c : Checker)
      → select (λ r. r.username == name) w.db.checkers ≡ a ∷ []
      → CheckerLogin x name password w (ok (some c)) u
      → (c ≡ a) × (a.is_active ≡ true) × (u ≡ w)
  issues w u c only login =
      let same : c ≡ a = cc in
      (same, subst (λ (b : Checker). b.is_active ≡ true) same login.1, login.3)

  abbrev Signs : World → Checker → Result String → World → Type 0
  Signs u b (raised e) v = Unit
  Signs u b (ok token) v = token ≡ signed_token x cfg (u.clock 0) (checker_claims b)

  checker_login-Issues :
      (caller : Caller) (w : World)
      → select (λ r. r.username == name) w.db.checkers ≡ a ∷ []
      → Wp (checker_login x cfg caller name password) w (Issues x cfg w a)
  unfolding checker_login rate_limit create_access_token
  checker_login-Issues caller w only =
      wp-call _ _
        (wp-hit {Q = Same w} _ _ _ (wp-raise_if_last _ _ (λ h. (refl, refl)) (λ h. (refl, refl))))
        (λ t v same.
          wp-call _ _ (authenticate_checker-Login x name password v)
            (λ found u login.
              wp-require _ _ _
                (λ c some_c.
                  wp-call _ _ (wp-utcnow _ (wp-pure {Q = Signs u c} _ refl))
                    (λ token z made.
                      let login_c : CheckerLogin x name password v (ok (some c)) u =
                        subst (λ o. CheckerLogin x name password v (ok o) u) some_c login in
                      let (c_a, on, u_v) =
                        issues v u c
                          (ap (λ d. select (λ r. r.username == name) d.checkers) same.0 ∙ only)
                          login_c in
                      wp-pure _ (
                        made
                            ∙ ap (λ b. signed_token x cfg (u.clock 0) (checker_claims b)) c_a
                            ∙ ap (λ n. signed_token x cfg n (checker_claims a))
                                (ap (λ (k : World). k.clock 0) u_v ∙ ap (λ f. f 0) same.1),
                        on,
                      ))
                    (λ e z h. tt))
                (λ nobody. tt))
            (λ e u h. tt))
        (λ e v h. tt)

-- Where the library opens the tokens that it has signed until they expire: the token that a login of
-- a checker answers is taken at the door, until it expires, for that checker, as long as the row of
-- the checker is as it was; and where an administrator is asked for it is refused with 401.
pub checker_login_accepted :
    (x : Externals) (cfg : Settings) (caller : Caller) (name password : String) (a : Checker)
    (w v u : World) (t : TokenResponse)
    → TokensOpen x cfg (checker_claims a)
    → select (λ r. r.username == name) w.db.checkers ≡ a ∷ []
    → a.id < 2 ^ 128
    → checker_login x cfg caller name password w ≡ (ok t, v)
    → get a.id u.db.checkers ≡ some a
    → u.clock 0 ≤ w.clock 0 + cfg.jwt_access_token_expire_minutes * minute
    → ((get_current_checker x cfg t.access_token u).0 ≡ ok a)
      × ((get_current_admin x cfg t.access_token u).0 ≡ raised (http 401))
checker_login_accepted x cfg caller name password a w v u t opens only small done row fresh =
    let (made, on) = wp-eq (checker_login-Issues x cfg name password a caller w only) done in
    let own = opens (w.clock 0) (u.clock 0) fresh in
    subst
      (λ token.
        ((get_current_checker x cfg token u).0 ≡ ok a)
        × ((get_current_admin x cfg token u).0 ≡ raised (http 401)))
      (sym made)
      (
        (get_current_checker_accepts x cfg a _ u (w.clock 0) own small on row).at,
        (get_current_admin_refuses x cfg a _ u (w.clock 0) own).at,
      )
