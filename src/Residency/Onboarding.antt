-- ===== src/Residency/Onboarding.antt =====
-- From an invitation to a registered device.
use vista_authen.Prelude.{
  ◌≤◌, ◌≡◌, refl, ap, ◌∙◌, String, true, false, Option, some, List, [], ◌∷◌, arith, ◌==◌, ℕ_eq,
  String_eq, select,
}
use text.Mathlib.TextEquality.{eq_iff}
use vista_authen.Models.{Uuid, Resident, ActivationToken, micros, Db}
use vista_authen.Session.{World, ok}
use vista_authen.Config.{Settings}
use vista_authen.Rows.{get, has, has-get, unit_keyed, resident_keyed, audit_log_keyed}
use vista_authen.Services.Residents.{activated, provision, register_device}
use vista_authen.Residency.Registration.{Registered, provision_registers}
use vista_authen.Residency.Accepting.{IsReady, register_device_accepts}

select_alone :
    (t : ActivationToken) (ts : List ActivationToken)
    → select (λ x. x.token == t.token) ts ≡ []
    → select (λ x. x.token == t.token) (t ∷ ts) ≡ t ∷ []
select_alone t ts h =
    let own : (t.token == t.token) ≡ true = (eq_iff t.token t.token).1 refl in ground arith

get_first : (r : Resident) (rs : List Resident) → get r.id (r ∷ rs) ≡ some r
unfolding get
get_first r rs = ground arith

Registered-IsReady :
    (cfg : Settings) (i : Uuid) (name : String) (phone email : Option String) (w v u : World)
    (r : Resident) (t : ActivationToken)
    → Registered cfg i name phone email w r t v
    → u.db ≡ v.db
    → u.clock 0 ≤ micros t.expires_at
    → has (u.uuids 0) u.db.audit_logs ≡ false
    → IsReady t.token u t r
Registered-IsReady cfg i name phone email w v u r t done same in_time fresh = record {
  only =
      ap (λ (d : Db). select (λ x. x.token == t.token) d.activation_tokens) same
      ∙ ap (select (λ x. x.token == t.token)) done.placed.tokens
      ∙ select_alone t _ done.placed.alone;
  unused = done.placed.fresh.unused;
  in_time = in_time;
  holder =
      ap (λ (d : Db). get t.resident_id d.residents) same
      ∙ ap (get t.resident_id) done.placed.residents
      ∙ ap (λ j. get j (r ∷ w.db.residents)) done.placed.fresh.holder
      ∙ get_first r w.db.residents;
  is_pending = done.placed.fresh.is_pending;
  fresh_entry = fresh;
  home =
      ap (λ (d : Db). has r.unit_id d.units) same
      ∙ ap (has r.unit_id) done.placed.units
      ∙ ap (λ j. has j w.db.units) done.placed.fresh.home
      ∙ has-get i w.db.units done.found;
}

-- A resident who has been provisioned can register a device: with the tables as the provisioning left
-- them, the token that it returned, brought before it expires, makes that resident active with the
-- device's key, where the id drawn for the audit entry is new.
pub provision-register_device :
    (cfg : Settings) (i : Uuid) (name : String) (phone email : Option String)
    (actor_id : Option Uuid) (pem : String) (w v u : World) (r : Resident) (t : ActivationToken)
    → provision cfg i name phone email actor_id w ≡ (ok (r, t), v)
    → u.db ≡ v.db
    → u.clock 0 ≤ micros t.expires_at
    → has (u.uuids 0) u.db.audit_logs ≡ false
    → (register_device t.token pem u).0 ≡ ok (activated pem r)
provision-register_device cfg i name phone email actor_id pem w v u r t done same in_time fresh =
    register_device_accepts t.token pem u t r (
      Registered-IsReady cfg i name phone email w v u r t
        (provision_registers cfg i name phone email actor_id w v r t done) same in_time fresh)
