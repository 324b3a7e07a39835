-- ===== src/Lifecycle/Logs.antt =====
-- Writing an audit entry is a change that the specification allows, and touches no other table.
use vista_authen.Prelude.{String, Option}
use vista_authen.Models.{Uuid, Db, AuditLog, Details}
use vista_authen.Session.{M, ◌>>=◌, World, Result}
use vista_authen.Session.Wp.{
  Wp, wp-pure, wp-query, wp-raise_if, wp-modify_last, wp-uuid4, wp-server_now, wp-call,
}
use vista_authen.Tables.{add_log}
use vista_authen.Services.Logging.{log, log_resident_action, log_scan_action}
use vista_authen.Lifecycle.{Step, Reach, next, log_added}

-- What a session has written, and what it has committed, has come from `d` by allowed changes.
abbrev pub At : Db → World → Type 0
At d w = Reach d w.db × Reach d w.committed

abbrev pub Reaches : {A : Type 0} → Db → Result A → World → Type 0
Reaches d r w = At d w

pub step : {c d e f : Db} → Reach d e × Reach d c → Step e f → Reach d f × Reach d c
step h st = (next h.0 st, h.1)

-- A block whose parts make allowed changes, also where one of them raises.
pub and_then :
    {A B : Type 0} {d : Db} {w : World} (m : M A) (f : A → M B)
    → Wp m w (Reaches d)
    → ((a : A) (v : World) → At d v → Wp (f a) v (Reaches d))
    → Wp (m >>= f) w (Reaches d)
and_then m f h k = wp-call m f h k (λ e v hv. hv)

module _ {d : Db} {w : World} (so_far : At d w) where
  add_log-Reach : (l : AuditLog) → Wp (add_log l) w (Reaches d)
  unfolding add_log
  add_log-Reach l = wp-query _ _ (
      wp-raise_if _ _ _ (λ fits. wp-modify_last _ (step so_far (log_added l fits)))
        (λ refused. so_far))

module _ {d : Db} {w : World} (so_far : At d w) where
  pub log-Reach :
      (action : String) (actor_id : Option Uuid) (actor_role : Option String)
      (unit_id : Option Uuid) (checker_id : Option Uuid) (details : Option Details)
      → Wp (log action actor_id actor_role unit_id checker_id details) w (Reaches d)
  unfolding log
  log-Reach action actor_id actor_role unit_id checker_id details =
      wp-uuid4 _ (wp-server_now _ (and_then _ _ (add_log-Reach so_far _) (λ a v h. wp-pure _ h)))

  pub log_resident_action-Reach :
      (action : String) (actor_id : Option Uuid) (actor_role : String) (unit_id : Option Uuid)
      (details : Details)
      → Wp (log_resident_action action actor_id actor_role unit_id details) w (Reaches d)
  unfolding log_resident_action
  log_resident_action-Reach action actor_id actor_role unit_id details = log-Reach _ _ _ _ _ _

  pub log_scan_action-Reach :
      (action : String) (checker_id : Uuid) (resident_id unit_id : Option Uuid) (details : Details)
      → Wp (log_scan_action action checker_id resident_id unit_id details) w (Reaches d)
  unfolding log_scan_action
  log_scan_action-Reach action checker_id resident_id unit_id details = log-Reach _ _ _ _ _ _
