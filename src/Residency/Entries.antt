-- ===== src/Residency/Entries.antt =====
-- An audit entry changes the audit log alone.
use vista_authen.Prelude.{ap, ◌∙◌, ◌≡◌, refl, String, Option}
use vista_authen.Models.{Uuid, Db, AuditLog, Details}
use vista_authen.Session.{World, Result, ok, raised, integrity_error}
use vista_authen.Session.Wp.{
  Wp, wp-pure, wp-query, wp-raise_if, wp-modify_last, wp-uuid4, wp-server_now, wp-call,
}
use vista_authen.Tables.{add_log}
use vista_authen.Services.Logging.{log, log_resident_action}

-- Every other table, and what has been committed, is as in `w`.
pub record OnlyLogs (w v : World) : Type 0 where
  pub units : v.db.units ≡ w.db.units
  pub residents : v.db.residents ≡ w.db.residents
  pub tokens : v.db.activation_tokens ≡ w.db.activation_tokens
  pub committed : v.committed ≡ w.committed

abbrev pub Noted : {A : Type 0} → World → Result A → World → Type 0
Noted w (ok a) v = OnlyLogs w v
Noted w (raised e) v = OnlyLogs w v × (e ≡ integrity_error)

add_log-Noted : (l : AuditLog) (w : World) → Wp (add_log l) w (Noted w)
unfolding add_log
add_log-Noted l w = wp-query _ _ (
    wp-raise_if _ _ _
      (λ fits.
        wp-modify_last _
          (record { units = refl; residents = refl; tokens = refl; committed = refl }))
      (λ refused.
        (record { units = refl; residents = refl; tokens = refl; committed = refl }, refl)))

-- The worlds differ by readings at most.
drawn : {u w v : World} → u.db ≡ w.db → u.committed ≡ w.committed → OnlyLogs u v → OnlyLogs w v
drawn d c h = record {
  units = h.units ∙ ap (λ (x : Db). x.units) d;
  residents = h.residents ∙ ap (λ (x : Db). x.residents) d;
  tokens = h.tokens ∙ ap (λ (x : Db). x.activation_tokens) d;
  committed = h.committed ∙ c;
}

pub log_resident_action-Noted :
    (action : String) (actor_id : Option Uuid) (actor_role : String) (unit_id : Option Uuid)
    (details : Details) (w : World)
    → Wp (log_resident_action action actor_id actor_role unit_id details) w (Noted w)
unfolding log_resident_action log
log_resident_action-Noted action actor_id actor_role unit_id details w = wp-uuid4 _ (
    wp-server_now _ (
      wp-call _ _ (add_log-Noted _ _) (λ a v h. wp-pure _ (drawn refl refl h))
        (λ e v h. (drawn refl refl h.0, h.1))))
