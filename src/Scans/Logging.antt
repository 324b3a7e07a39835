-- ===== src/Scans/Logging.antt =====
-- Each way in which a scan ends writes its one entry.
use vista_authen.Prelude.{
  ◌∙◌, if◌then◌else◌, sym, ◌≡◌, ◌≢◌, refl, String, Bool, true, false, Option, some, ◌∷◌, ◌==◌,
  String_eq, Bool-cases, inl, inr,
}
use text.Mathlib.TextEquality.{eq_iff}
use mathlib.Core.Bool.{false≢true}
use vista_authen.Models.{Uuid, Resident, Db, AuditLog, Details}
use vista_authen.Session.{World, Result, ok, raised, integrity_error}
use vista_authen.Session.Wp.{
  Wp, wp-pure, wp-query, wp-raise_if, wp-modify_last, wp-uuid4, wp-server_now, wp-call,
}
use vista_authen.Tables.{add_log}
use vista_authen.Services.Logging.{log, log_scan_action}
use vista_authen.Services.Access.{plain, extended, status_of, reject, reject_for, admit}
use vista_authen.Scans.Outcome.{Ends}

-- An entry by checker `c` with an action.
abbrev pub Wrote : Uuid → String → Db → Result AuditLog → World → Type 0
Wrote c action d (ok l) v =
    (v.db ≡ record d { audit_logs = l ∷ d.audit_logs })
    × (l.actor_id ≡ some c)
    × (l.actor_role ≡ some "checker")
    × (l.action ≡ action)
Wrote c action d (raised e) v = (e ≡ integrity_error) × (v.db ≡ d)

abbrev Added : AuditLog → Db → Result (Unit {0}) → World → Type 0
Added l d (ok _) v = v.db ≡ record d { audit_logs = l ∷ d.audit_logs }
Added l d (raised e) v = (e ≡ integrity_error) × (v.db ≡ d)

add_log-Added : (l : AuditLog) (w : World) → Wp (add_log l) w (Added l w.db)
unfolding add_log
add_log-Added l w =
    wp-query _ _ (wp-raise_if _ _ _ (λ fits. wp-modify_last _ refl) (λ refused. (refl, refl)))

pub log_scan_action-Wrote :
    (action : String) (c : Uuid) (r u : Option Uuid) (details : Details) (w : World)
    → Wp (log_scan_action action c r u details) w (Wrote c action w.db)
unfolding log_scan_action log
log_scan_action-Wrote action c r u details w = wp-uuid4 _ (
    wp-server_now _
      (wp-call _ _ (add_log-Added _ _) (λ a v h. wp-pure _ (h, refl, refl, refl)) (λ e v h. h)))

invalid≢valid : {s : String} → s ≡ "invalid" → s ≢ "valid"
invalid≢valid p q = false≢true ((eq_iff "invalid" "valid").1 (sym p ∙ q))

expired≢valid : {s : String} → s ≡ "expired" → s ≢ "valid"
expired≢valid p q = false≢true ((eq_iff "expired" "valid").1 (sym p ∙ q))

reject_status≢valid :
    (action : String)
    → ◌≢◌ {A = String} (if action == "scan_failed_expired" then "expired" else "invalid") "valid"
reject_status≢valid action = elim (Bool-cases (action == "scan_failed_expired")) [
  | inl late ↦ rw late (expired≢valid refl)
  | inr other ↦ rw other (invalid≢valid refl)
]

pub admit_status :
    (b : Bool) (name unit : String) (phone : Option String)
    → status_of (if b then extended "valid" name unit phone else plain "valid") ≡ "valid"
admit_status true name unit phone = refl
admit_status false name unit phone = refl

pub bad_signature≢success : ◌≢◌ {A = String} "scan_failed_bad_signature" "scan_success"
bad_signature≢success e = false≢true ((eq_iff "scan_failed_bad_signature" "scan_success").1 e)

pub expired≢success : ◌≢◌ {A = String} "scan_failed_expired" "scan_success"
expired≢success e = false≢true ((eq_iff "scan_failed_expired" "scan_success").1 e)

module _ (J : Type 0) (w : World) (c : Uuid) where
  pub reject-Ends :
      (action : String) (r : Option Uuid) (details : Details)
      → action ≢ "scan_success"
      → Wp (reject action c r details) w (Ends c w.db J)
  unfolding reject
  reject-Ends action r details no_success = wp-query _ _ (
      wp-call _ _ (log_scan_action-Wrote action c r _ details w)
        (λ l v h. wp-pure _ (
          l,
          h.0,
          record {
            actor = h.1;
            role = h.2;
            success = λ valid. absurd (reject_status≢valid action valid);
            failure = λ invalid e. no_success (sym h.3 ∙ e);
          },
          λ valid. absurd (reject_status≢valid action valid),
        ))
        (λ e v h. h))

  pub reject_for-Ends :
      (reason : String) (r : Option Uuid) → Wp (reject_for reason c r) w (Ends c w.db J)
  unfolding reject_for
  reject_for-Ends reason r = reject-Ends _ _ _ bad_signature≢success

  pub admit-Ends : (i : Uuid) (r : Resident) → J → Wp (admit c i r) w (Ends c w.db J)
  unfolding admit
  admit-Ends i r j = wp-query _ _ (
      wp-call _ _ (log_scan_action-Wrote "scan_success" c _ _ _ w)
        (λ l v h. wp-query _ _ (
          wp-pure _ (
            l,
            h.0,
            record {
              actor = h.1;
              role = h.2;
              success = λ valid. h.3;
              failure = λ invalid. absurd (invalid (admit_status _ _ _ _));
            },
            λ valid. j,
          )))
        (λ e v h. h))
