-- ===== src/Seed/Building.antt =====
-- What the tables hold while seed.py fills them.
use Prim.Native.String.{◌++◌}
use Prim.Native.String.append
use vista_authen.Python.Strings.{is_empty}
use vista_authen.Prelude.{
  ◌≡◌, refl, String, Bool, false, none, List, ◌∷◌, arith, ap, ◌∙◌, sym, String_eq, ℕ_eq, subst,
}
use vista_authen.Models.{
  Uuid, BuildingUnit, Resident, ActivationToken, Db, DateTime, AdminRole, CheckerRole,
}
use vista_authen.Session.{World, Result, ok, raised}
use vista_authen.Session.Wp.{
  Wp, wp-lift_last, wp-uuid4, wp-server_now, wp-new_salt, wp-call, wp-weaken,
}
use vista_authen.Externals.{Externals}
use vista_authen.Security.{hash_password}
use vista_authen.Rows.{has, unit_keyed, resident_keyed, token_keyed}
use vista_authen.Tables.{token_refused}
use vista_authen.Tables.Adds.{
  Adds, add_unit-Adds, add_resident-Adds, add_checker-Adds, add_admin-Adds, add_token-Adds,
}
use vista_authen.Lifecycle.Invariant.{WellFormed}
use vista_authen.Seed.{
  empty, seeded_resident, seeded_unit, seed_admin, seed_checker, seed_unit, seed_resident,
}

-- The session has these units, residents and tokens, and has committed empty tables.

pub record Holds (now : DateTime) (us : List BuildingUnit) (rs : List Resident)
    (ts : List ActivationToken) (v : World) : Type 0 where
  pub units : v.db.units ≡ us
  pub residents : v.db.residents ≡ rs
  pub tokens : v.db.activation_tokens ≡ ts
  pub committed : v.committed ≡ empty
  pub clock : v.db_now ≡ now

abbrev pub Built :
    {A : Type 0}
    → DateTime
    → List BuildingUnit
    → List Resident
    → List ActivationToken
    → Result A
    → World
    → Type 0
Built now us rs ts (ok a) v = Holds now us rs ts v
Built now us rs ts (raised e) v = v.committed ≡ empty

-- What holds where an insertion ends well holds at its end.
pub settled :
    {now : DateTime} {us : List BuildingUnit} {rs : List Resident} {ts : List ActivationToken}
    (w u : World) (refused : Bool) (res : Result (Unit {0})) (v : World)
    → Holds now us rs ts u
    → w.committed ≡ empty
    → Adds w u refused res v
    → Built now us rs ts res v
settled w u b (ok a) v h e adds = subst (Holds _ _ _ _) (sym adds.0) h
settled w u b (raised x) v h e adds = ap (λ (y : World). y.committed) adds.0 ∙ e

-- A resident has been added with a token whose key is new.
abbrev pub Placed :
    DateTime
    → List BuildingUnit
    → List Resident
    → List ActivationToken
    → (DateTime → Resident)
    → (Uuid → ActivationToken)
    → Result (Unit {0})
    → World
    → Type 0
Placed now us rs ts r t (ok a) v =
    (i : Uuid) × Holds now us (r now ∷ rs) (t i ∷ ts) v × (has (t i).id ts ≡ false)
Placed now us rs ts r t (raised e) v = v.committed ≡ empty

pub new_key :
    (d : Db) (t : ActivationToken)
    → token_refused d t ≡ false
    → has t.id d.activation_tokens ≡ false
unfolding token_refused
new_key d t h = ground arith

pub placed :
    {now : DateTime} {us : List BuildingUnit} {rs : List Resident} {ts : List ActivationToken}
    (w u : World) (r : DateTime → Resident) (t : Uuid → ActivationToken) (i : Uuid)
    (res : Result (Unit {0})) (v : World)
    → Holds now us (r now ∷ rs) (t i ∷ ts) u
    → w.committed ≡ empty
    → w.db.activation_tokens ≡ ts
    → Adds w u (token_refused w.db (t i)) res v
    → Placed now us rs ts r t res v
placed w u r t i (ok a) v h e same adds = (
  i,
  subst (Holds _ _ _ _) (sym adds.0) h,
  subst (λ ts. has (t i).id ts ≡ false) same (new_key _ (t i) adds.1),
)
placed w u r t i (raised x) v h e same adds = ap (λ (y : World). y.committed) adds.0 ∙ e

module _ {now : DateTime} {us : List BuildingUnit} {rs : List Resident} {ts : List ActivationToken}
    {w : World} (h : Holds now us rs ts w) where
  pub hash_password-Built :
      (x : Externals) (p : String) → Wp (hash_password x p) w (Built now us rs ts)
  unfolding hash_password
  hash_password-Built x p = wp-new_salt _ (
      wp-lift_last _
        (λ hashed e. record {
          units = h.units;
          residents = h.residents;
          tokens = h.tokens;
          committed = h.committed;
          clock = h.clock;
        })
        (λ e same. h.committed))

  pub seed_admin-Built :
      (n p : String) (r : AdminRole) → Wp (seed_admin n p r) w (Built now us rs ts)
  unfolding seed_admin
  seed_admin-Built n p r = wp-uuid4 _ (
      wp-server_now _ (
        wp-weaken (add_admin-Adds _ _) (λ res v a.
          settled _ _ _ res v
            (record {
              units = h.units;
              residents = h.residents;
              tokens = h.tokens;
              committed = h.committed;
              clock = h.clock;
            })
            h.committed a)))

  pub seed_checker-Built :
      (n p : String) (r : CheckerRole) → Wp (seed_checker n p r) w (Built now us rs ts)
  unfolding seed_checker
  seed_checker-Built n p r = wp-uuid4 _ (
      wp-server_now _ (
        wp-weaken (add_checker-Adds _ _) (λ res v a.
          settled _ _ _ res v
            (record {
              units = h.units;
              residents = h.residents;
              tokens = h.tokens;
              committed = h.committed;
              clock = h.clock;
            })
            h.committed a)))

  pub seed_unit-Built : Wp seed_unit w (Built now (seeded_unit now ∷ us) rs ts)
  unfolding seed_unit
  seed_unit-Built = wp-server_now _ (
      wp-weaken (add_unit-Adds _ _) (λ res v a.
        settled _ _ _ res v
          (record {
            units = rw (h.units, h.clock) refl;
            residents = h.residents;
            tokens = h.tokens;
            committed = h.committed;
            clock = h.clock;
          })
          h.committed a))

  pub seed_resident-Placed :
      (r : DateTime → Resident) (t : Uuid → ActivationToken)
      → Wp (seed_resident r t) w (Placed now us rs ts r t)
  unfolding seed_resident
  seed_resident-Placed r t = wp-server_now _ (
      wp-call _ _ (add_resident-Adds _ _)
        (λ a v b. rw b.0 (
          wp-uuid4 _ (
            wp-weaken (add_token-Adds _ _) (λ res u c.
              placed _ _ r t _ res u
                (record {
                  units = h.units;
                  residents = rw (h.residents, h.clock) refl;
                  tokens = rw h.tokens refl;
                  committed = h.committed;
                  clock = h.clock;
                })
                h.committed h.tokens c))))
        (λ e v b. ap (λ (y : World). y.committed) b.0 ∙ h.committed))

pub owner_email : (domain : String) → is_empty ("owner@" ++ domain) ≡ false
owner_email domain = ap is_empty (λ i. append.cons "o" "wner@" domain i)

-- A resident who is not the owner has no contact details.
pub tenant_WellFormed :
    (id : Uuid) (name : String) (now : DateTime)
    → WellFormed (seeded_resident id name false none none now)
tenant_WellFormed id name now = record {
  active_key = λ h. absurd (cc);
  other_key = λ h. refl;
  other_contact = λ h. (refl, refl);
  owner_contact = λ h. absurd (cc);
}
