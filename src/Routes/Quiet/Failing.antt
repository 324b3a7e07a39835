-- ===== src/Routes/Quiet/Failing.antt =====
-- app/core/database.py, get_db: a request that fails is rolled back.
use vista_authen.Prelude.{ℕ, ◌≡◌, refl, ◌∙◌, subst, ap, true, false, leb}
use vista_authen.Models.{Db}
use vista_authen.Session.{World, Exn, Result, ok, raised, M}
use vista_authen.Config.{Settings}
use vista_authen.Externals.{Externals}
use vista_authen.Routes.Http.{with_session, settle, status_code}
use vista_authen.Routes.Requests.{Request, handle}
use vista_authen.Routes.Quiet.Sessions.{Tidy, handle-Within}

settle-rolls_back :
    {A : Type 0} (s : ℕ) (r : Result A) (v : World) (d : Db)
    → leb 400 s ≡ false
    → ((e : Exn) → r ≡ raised e → v.committed ≡ d)
    → leb 400 (status_code s (settle r v).0) ≡ true
    → (settle r v).1.committed ≡ d
unfolding settle
settle-rolls_back s (ok a) v d p q h = absurd (cc)
settle-rolls_back s (raised e) v d p q h = q e refl

with_session-rolls_back :
    {A : Type 0} {m : M A} (s : ℕ) (w : World)
    → leb 400 s ≡ false
    → Tidy m
    → leb 400 (status_code s (with_session m w).0) ≡ true
    → (with_session m w).1.committed ≡ w.committed
unfolding with_session
with_session-rolls_back {m} s w p t h =
    let v : World = record w { db = w.committed } in
    settle-rolls_back s (m v).0 (m v).1 w.committed p (t.at v) h

module _ (x : Externals) (cfg : Settings) where
  -- A request that is answered with a client's or a server's error leaves the committed tables as
  -- they were, whatever it wrote before it failed.
  pub handle-rolls_back :
      (r : Request) (w : World)
      → leb 400 (handle x cfg r w).0 ≡ true
      → (handle x cfg r w).1.committed ≡ w.committed
  handle-rolls_back r w h =
      let s = handle-Within x cfg r in
      ap (λ (p : ℕ × World). p.1.committed) (s.is w)
      ∙ with_session-rolls_back s.success w s.fits s.tidy
          (subst (λ (p : ℕ × World). leb 400 p.0 ≡ true) (s.is w) h)
