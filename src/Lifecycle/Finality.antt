-- ===== src/Lifecycle/Finality.antt =====
-- A revocation is final: whatever is served afterwards, the row stays revoked.
use vista_authen.Prelude.{
  ◌≡◌, refl, sym, ◌∙◌, ap, subst, false, some, List, ◌∷◌, arith, ◌==◌, ℕ_eq, Bool-cases, inl, inr,
  String, ℕ,
}
use vista_authen.Models.{Uuid, Resident, Db, revoked}
use vista_authen.Session.{World}
use vista_authen.Externals.{Externals}
use vista_authen.Config.{Settings}
use vista_authen.Rows.{get, put, has-get, get-put, resident_keyed}
use vista_authen.Tables.{resident_refused}
use vista_authen.Routes.Requests.{Event, serve}
use vista_authen.Scans.{Admits}
use vista_authen.Lifecycle.{Step, Reach, here, next}
use vista_authen.Lifecycle.Invariant.{Keeps, Transition-Keeps}
use vista_authen.Lifecycle.Serving.{serve-Reach}

-- the row of the id is there and revoked
abbrev pub Revoked : Uuid → List Resident → Type 0
Revoked i xs = (r : Resident) × (get i xs ≡ some r) × (r.status ≡ revoked)

module _ (i : Uuid) where
  added-Revoked :
      (d : Db) (r : Resident)
      → resident_refused d r ≡ false
      → Revoked i d.residents
      → Revoked i (r ∷ d.residents)
  unfolding resident_refused get
  added-Revoked d r accepted (s, row, off) =
      (s, ground (arith, has-get i d.residents row, (ℕ_eq.decides r.id i).0), off)

  changed-Revoked :
      (xs : List Resident) (old r : Resident)
      → get old.id xs ≡ some old
      → Keeps old r
      → Revoked i xs
      → Revoked i (put r xs)
  changed-Revoked xs old r found keeps (s, row, off) = elim (Bool-cases (r.id == i)) [
    | inl same ↦
        let is : old.id ≡ i = sym keeps.id ∙ (ℕ_eq.decides r.id i).0 same in
        let one : old ≡ s = cc (ap (λ j. get j xs) is) in
        (
          r,
          get-put i r xs ∙ rw (same, has-get i xs row) refl,
          keeps.status (subst (λ (x : Resident). x.status ≡ revoked) (sym one) off),
        )
    | inr other ↦ (s, get-put i r xs ∙ rw other row, off)
  ]

  Step-Revoked : {d e : Db} → Step d e → Revoked i d.residents → Revoked i e.residents
  Step-Revoked (Step.log_added l h) k = k
  Step-Revoked (Step.logs_purged keep) k = k
  Step-Revoked (Step.unit_added u h) k = k
  Step-Revoked (Step.unit_changed old u f n h) k = k
  Step-Revoked (Step.unit_deleted j h) k = k
  Step-Revoked {d} (Step.resident_added r a) k = added-Revoked d r a.accepted k
  Step-Revoked {d} (Step.resident_changed old r f t) k =
      changed-Revoked d.residents old r f (Transition-Keeps t) k
  Step-Revoked (Step.token_added t h u) k = k
  Step-Revoked (Step.token_used t now h u) k = k
  Step-Revoked (Step.tokens_purged keep) k = k
  Step-Revoked (Step.checker_added c h) k = k
  Step-Revoked (Step.checker_changed old c f n) k = k
  Step-Revoked (Step.admin_added a h) k = k

  Reach-Revoked : {d e : Db} → Reach d e → Revoked i d.residents → Revoked i e.residents
  Reach-Revoked here k = k
  Reach-Revoked (next r st) k = Step-Revoked st (Reach-Revoked r k)

-- some resident is let in by the payload at a time, on the id `i`
abbrev pub Opens : Externals → Settings → Db → ℕ → String → Uuid → Type 0
Opens x cfg d now qr i = (s : Resident) × (a : Admits x cfg d now qr s) × (a.id ≡ i)

-- The resident that a payload names is active.
shut_out :
    (x : Externals) (cfg : Settings) (i : Uuid) (d : Db) (now : ℕ) (qr : String)
    → Revoked i d.residents
    → ¬ Opens x cfg d now qr i
shut_out x cfg i d now qr (r, row, off) (s, a, same) =
    let is : some r ≡ some s = sym row ∙ ap (λ j. get j d.residents) (sym same) ∙ a.found in
    cc (is, off, a.signed.is_active)

-- Once the committed row of a resident is revoked, it is there and revoked after any sequence of
-- requests and rounds of the periodic task, and no payload for its id then lets anybody in, at any
-- time: neither a new activation token nor a new key brings it back.
pub serve-Revoked :
    (x : Externals) (cfg : Settings) (i : Uuid) (es : List Event) (w : World) (now : ℕ)
    (qr : String)
    → Revoked i w.committed.residents
    → Revoked i (serve x cfg es w).committed.residents
      × ¬ Opens x cfg (serve x cfg es w).committed now qr i
serve-Revoked x cfg i es w now qr k =
    let still = Reach-Revoked i (serve-Reach x cfg es w) k in
    (still, shut_out x cfg i (serve x cfg es w).committed now qr still)
