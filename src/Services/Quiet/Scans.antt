-- ===== src/Services/Quiet/Scans.antt =====
-- A scan commits nothing, and logs whatever it answers.
use vista_authen.Prelude.{ℕ, String, Bool, true, false, Option, none, some, List}
use vista_authen.Prelude.Int.{ℤ}
use vista_authen.Models.{Uuid, Details, Resident}
use vista_authen.Session.{Result, ok, raised}
use vista_authen.Session.Accounting.{Logs}
use vista_authen.Config.{Settings}
use vista_authen.Externals.{Externals}
use vista_authen.Services.Access.{
  reject, reject_for, admit, decide, check_signature, check_resident, check_timestamp, check_id,
  check_fields, verify,
}
use vista_authen.Services.Quiet.Writes.{log_rules}

reject-Logs : (a : String) (c : Uuid) (r : Option Uuid) (d : Details) → Logs (reject a c r d)
unfolding reject
reject-Logs a c r d = search log_rules depth 12

reject_for-Logs : (s : String) (c : Uuid) (r : Option Uuid) → Logs (reject_for s c r)
unfolding reject_for
reject_for-Logs s c r = search (log_rules, reject-Logs) depth 12

admit-Logs : (c i : Uuid) (r : Resident) → Logs (admit c i r)
unfolding admit
admit-Logs c i r = search log_rules depth 12

decide-Logs :
    (x : Externals) (o : Result Bool) (c i : Uuid) (r : Resident) → Logs (decide x o c i r)
unfolding decide
decide-Logs x (raised e) c i r =
    search (log_rules, reject-Logs, reject_for-Logs, admit-Logs) depth 12
decide-Logs x (ok true) c i r =
    search (log_rules, reject-Logs, reject_for-Logs, admit-Logs) depth 12
decide-Logs x (ok false) c i r =
    search (log_rules, reject-Logs, reject_for-Logs, admit-Logs) depth 12

check_signature-Logs :
    (x : Externals) (o : Option (List ℕ)) (c i : Uuid) (r : Resident) (k p : String)
    → Logs (check_signature x o c i r k p)
unfolding check_signature
check_signature-Logs x none c i r k p = search (log_rules, reject_for-Logs, decide-Logs) depth 12
check_signature-Logs x (some s) c i r k p =
    search (log_rules, reject_for-Logs, decide-Logs) depth 12

check_resident-Logs :
    (x : Externals) (o : Option (Resident × String)) (c i : Uuid) (p s : String)
    → Logs (check_resident x o c i p s)
unfolding check_resident
check_resident-Logs x none c i p s =
    search (log_rules, reject_for-Logs, check_signature-Logs) depth 12
check_resident-Logs x (some (r, k)) c i p s =
    search (log_rules, reject_for-Logs, check_signature-Logs) depth 12

check_timestamp-Logs :
    (x : Externals) (cfg : Settings) (o : Option ℤ) (c i : Uuid) (p s : String)
    → Logs (check_timestamp x cfg o c i p s)
unfolding check_timestamp
check_timestamp-Logs x cfg none c i p s =
    search (log_rules, reject-Logs, reject_for-Logs, check_resident-Logs) depth 12
check_timestamp-Logs x cfg (some t) c i p s =
    search (log_rules, reject-Logs, reject_for-Logs, check_resident-Logs) depth 12

check_id-Logs :
    (x : Externals) (cfg : Settings) (o : Option Uuid) (a b s : String) (c : Uuid)
    → Logs (check_id x cfg o a b s c)
unfolding check_id
check_id-Logs x cfg none a b s c =
    search (log_rules, reject_for-Logs, check_timestamp-Logs) depth 12
check_id-Logs x cfg (some i) a b s c =
    search (log_rules, reject_for-Logs, check_timestamp-Logs) depth 12

check_fields-Logs :
    (x : Externals) (cfg : Settings) (o : Option (String × String × String)) (q : String) (c : Uuid)
    → Logs (check_fields x cfg o q c)
unfolding check_fields
check_fields-Logs x cfg none q c = search (log_rules, reject-Logs, check_id-Logs) depth 12
check_fields-Logs x cfg (some (a, b, s)) q c =
    search (log_rules, reject-Logs, check_id-Logs) depth 12

pub verify-Logs : (x : Externals) (cfg : Settings) (q : String) (c : Uuid) → Logs (verify x cfg q c)
unfolding verify
verify-Logs x cfg q c = search (log_rules, reject_for-Logs, check_fields-Logs) depth 12

pub ruleset scan_rules = (verify-Logs)
