-- ===== src/Services/Quiet/Writes.antt =====
-- The writes that the services share: a logged action is one more entry of the audit log.
use vista_authen.Prelude.{String, refl, Option, [], ◌∷◌, arith}
use vista_authen.Models.{Uuid, Details, BuildingUnit, Resident, Checker, AuditLog, ActivationToken}
use vista_authen.Session.{modify}
use vista_authen.Session.Quiet.{Quiet, modify-Quiet, quiet_rules}
use vista_authen.Session.Accounting.{Logs, Accounts, last-Logs, logging_rules, accounting_rules}
use vista_authen.Tables.{add_log, add_resident, add_token, add_unit, add_checker}
use vista_authen.Services.Quiet.Reading.{reading_rules}
use vista_authen.Services.Logging.{log, log_resident_action, log_scan_action}

-- one more entry
entered-Logs : (l : AuditLog) → Logs (modify (λ d. record d { audit_logs = l ∷ d.audit_logs }))
unfolding modify
entered-Logs l = record {
  quiet = modify-Quiet _ (λ d. (l ∷ [], refl));
  logs = λ w a e. omega arith;
}

add_log-Logs : (l : AuditLog) → Logs (add_log l)
unfolding add_log
add_log-Logs l = search (entered-Logs, logging_rules)

log-Logs :
    (action : String) (i : Option Uuid) (r : Option String) (u c : Option Uuid) (d : Option Details)
    → Logs (log action i r u c d)
unfolding log
log-Logs action i r u c d = search (add_log-Logs, logging_rules)

pub log_resident_action-Logs :
    (action : String) (i : Option Uuid) (r : String) (u : Option Uuid) (d : Details)
    → Logs (log_resident_action action i r u d)
unfolding log_resident_action
log_resident_action-Logs action i r u d = log-Logs _ _ _ _ _ _

pub log_scan_action-Logs :
    (action : String) (c : Uuid) (r u : Option Uuid) (d : Details)
    → Logs (log_scan_action action c r u d)
unfolding log_scan_action
log_scan_action-Logs action c r u d = log-Logs _ _ _ _ _ _

pub add_resident-Quiet : (r : Resident) → Quiet (add_resident r)
unfolding add_resident
add_resident-Quiet r = search quiet_rules

pub add_token-Quiet : (t : ActivationToken) → Quiet (add_token t)
unfolding add_token
add_token-Quiet t = search quiet_rules

pub add_unit-Accounts : (u : BuildingUnit) → Accounts (add_unit u)
unfolding add_unit
add_unit-Accounts u = search accounting_rules

pub add_checker-Accounts : (c : Checker) → Accounts (add_checker c)
unfolding add_checker
add_checker-Accounts c = search accounting_rules

-- for a block that commits nothing
pub ruleset write_rules = (quiet_rules, add_resident-Quiet, add_token-Quiet, reading_rules)

-- for a block that logs
pub ruleset log_rules = (logging_rules, log_resident_action-Logs, log_scan_action-Logs, write_rules)

-- for a block that changes no resident, or logs
pub ruleset account_rules = (accounting_rules, add_unit-Accounts, add_checker-Accounts, log_rules)
