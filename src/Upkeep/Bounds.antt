-- ===== src/Upkeep/Bounds.antt =====
-- app/routes/audit.py: how much of the audit log one answer holds.
use vista_authen.Prelude.{
  ℕ, suc, ◌≤◌, ◌≡◌, refl, sym, ap, subst, String, false, not, Option, List, [], ◌∷◌, arith, length,
  map,
}
use vista_authen.Models.{Uuid}
use vista_authen.Session.{World, Result, ok, raised}
use vista_authen.Session.Wp.{Wp, wp-pure, wp-raise_if, wp-call, wp-eq}
use vista_authen.Config.{Settings}
use vista_authen.Externals.{Externals}
use vista_authen.Services.Audit.{list_logs}
use vista_authen.Routes.Bodies.{fits_page}
use vista_authen.Routes.Http.{validate}
use vista_authen.Routes.Scans.{AuditLogRead, read_log, optional_uuid, list_audit_logs}
use vista_authen.Permissions.Checkers.{require_staff_admin_or_manager-Oversees}
use vista_authen.Upkeep.Pages.{Pages, list_logs-Pages}

length-map : {A B : Type 0} (f : A → B) (xs : List A) → length (map f xs) ≡ length xs
length-map f [] = refl
length-map f (x ∷ xs) = ap (λ n. suc n) (length-map f xs)

-- what an answer holds
abbrev Bounded : ℕ → ℕ → Result (List AuditLogRead) → World → Type 0
Bounded page size (raised e) v = Unit
Bounded page size (ok logs) v = (length logs ≤ size) × (size ≤ 100) × (1 ≤ page)

list_logs-Wp :
    (a : Option String) (u : Option Uuid) (r : Option String) (page size : ℕ) (w : World)
    → Wp (list_logs a u r page size) w (Pages a u r page size w)
list_logs-Wp a u r page size w = record { at = list_logs-Pages a u r page size w }

page_facts : (page size : ℕ) → not (fits_page page size) ≡ false → (size ≤ 100) × (1 ≤ page)
page_facts page size h = (ground arith, ground arith)

abbrev Anything : {A : Type 0} → Result A → World → Type 0
Anything r v = Unit

list_audit_logs-Bounded :
    (x : Externals) (cfg : Settings) (c : String) (a u r : Option String) (page size : ℕ)
    (w : World)
    → Wp (list_audit_logs x cfg c a u r page size) w (Bounded page size)
unfolding list_audit_logs validate
list_audit_logs-Bounded x cfg c a u r page size w =
    wp-call _ _ (require_staff_admin_or_manager-Oversees x cfg c w)
      (λ user v1 is.
        wp-raise_if _ _ _
          (λ fits.
            wp-call (optional_uuid u) _ {P = Anything} (record { at = tt })
              (λ unit v2 h.
                wp-call _ _ (list_logs-Wp a unit r page size v2)
                  (λ (logs, total) v3 (shown, session, stored).
                    let (small, first) = page_facts page size fits in
                    wp-pure _ (
                      subst (λ n. n ≤ size) (sym (length-map read_log logs)) shown.fits,
                      small,
                      first,
                    ))
                  (λ e v3 h. tt))
              (λ e v2 h. tt))
          (λ bad. tt))
      (λ e v1 d. tt)

-- One answer of the audit log holds at most as many entries as the page asked for, and never more than
-- 100; pages are counted from 1.
pub length-list_audit_logs :
    (x : Externals) (cfg : Settings) (c : String) (a u r : Option String) (page size : ℕ)
    (w v : World) (logs : List AuditLogRead)
    → list_audit_logs x cfg c a u r page size w ≡ (ok logs, v)
    → (length logs ≤ size) × (size ≤ 100) × (1 ≤ page)
length-list_audit_logs x cfg c a u r page size w v logs done =
    wp-eq (list_audit_logs-Bounded x cfg c a u r page size w) done
