-- ===== src/Routes/Quiet/Keeping.antt =====
-- What a request leaves of the committed tables.
use vista_authen.Prelude.{ℕ, ◌≡◌, refl, ◌∙◌, subst, ap, sym, true, false, [], ◌⊎◌, inl}
use vista_authen.Models.{Db}
use vista_authen.Session.{World, Result, ok, raised, M}
use vista_authen.Session.Reads.{Reads}
use vista_authen.Session.Quiet.{Extends}
use vista_authen.Session.Accounting.{Grows, Accounts}
use vista_authen.Config.{Settings}
use vista_authen.Externals.{Externals}
use vista_authen.Routes.Http.{with_session, settle}
use vista_authen.Routes.Requests.{Request, handle}
use vista_authen.Routes.Quiet.Sessions.{is_cleanup, is_reading, handle-Within}

-- The audit log has kept its entries, and has more of them where a resident has changed.
abbrev pub Appends : Db → Db → Type 0
Appends d e =
    Extends d.audit_logs e.audit_logs
    × ((e.residents ≡ d.residents) ⊎ Grows d.audit_logs e.audit_logs)

module _ {A : Type 0} (d : Db) (v : World) where
  settle-Appends :
      (r : Result A)
      → v.committed ≡ d
      → Extends d.audit_logs v.db.audit_logs
      → ((a : A) → r ≡ ok a → (v.db.residents ≡ d.residents) ⊎ Grows d.audit_logs v.db.audit_logs)
      → Appends d (settle r v).1.committed
  unfolding settle
  settle-Appends (ok a) p h k = (h, k a refl)
  settle-Appends (raised e) p h k = (([], ap (λ c. c.audit_logs) p), inl (ap (λ c. c.residents) p))

  settle-same : (r : Result A) → v.committed ≡ d → v.db ≡ d → (settle r v).1.committed ≡ d
  unfolding settle
  settle-same (ok a) p q = q
  settle-same (raised e) p q = p

module _ {A : Type 0} {m : M A} (w : World) where
  with_session-Appends : Accounts m → Appends w.committed (with_session m w).1.committed
  unfolding with_session
  with_session-Appends q =
      let v : World = record w { db = w.committed } in
      settle-Appends w.committed (m v).1 (m v).0 (q.quiet.at v) (q.quiet.logs v) (q.at v)

  with_session-same : Reads m → (with_session m w).1.committed ≡ w.committed
  unfolding with_session
  with_session-same q =
      let v : World = record w { db = w.committed } in
      settle-same w.committed (m v).1 (m v).0 (q.stored v) (q.session v)

module _ (x : Externals) (cfg : Settings) where
  -- The audit log is append-only and misses no change of a resident: whatever a request answers, and
  -- unless it asks for the clean-up, the committed audit log is the one before it behind the entries
  -- that the request added, and there is at least one of these where the committed residents are not
  -- those before it.
  pub handle-Appends :
      (r : Request) (w : World)
      → is_cleanup r ≡ false
      → Appends w.committed (handle x cfg r w).1.committed
  handle-Appends r w h =
      let s = handle-Within x cfg r in
      subst (λ (p : ℕ × World). Appends w.committed p.1.committed) (sym (s.is w))
        (with_session-Appends w (s.accounts h))

  -- A list, a single row, or a login changes no committed table, whatever the caller sends.
  pub handle-only_reads :
      (r : Request) (w : World) → is_reading r ≡ true → (handle x cfg r w).1.committed ≡ w.committed
  handle-only_reads r w h =
      let s = handle-Within x cfg r in
      ap (λ (p : ℕ × World). p.1.committed) (s.is w) ∙ with_session-same w (s.reads h)
