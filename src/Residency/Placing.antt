-- ===== src/Residency/Placing.antt =====
-- What the second half of `provision` adds to the tables.
use vista_authen.Prelude.{
  ℕ, ◌+◌, ◌*◌, ◌≡◌, refl, String, Bool, true, false, Option, some, none, ◌∷◌, find, ap, ◌∙◌, sym,
  select, select_of_any, [], arith, ◌==◌, String_eq,
}
use vista_authen.Models.{Uuid, Db, Resident, ActivationToken, aware, pending}
use vista_authen.Session.{World, Result, ok, raised}
use vista_authen.Session.Wp.{
  Wp, wp-pure, wp-query, wp-raise_if, wp-uuid4, wp-server_now, wp-utcnow, wp-call,
}
use vista_authen.Config.{Settings}
use vista_authen.Rows.{unit_keyed}
use vista_authen.Tables.Adds.{add_resident-Adds, add_token-Adds}
use vista_authen.Tables.{token_refused}
use vista_authen.Services.Residents.{
  owns, contact, ownership, new_resident, new_token, provision_in, hour,
}
use vista_authen.Residency.Entries.{OnlyLogs, log_resident_action-Noted}

-- The row of a new resident, and the token that comes with it.
pub record Fresh (cfg : Settings) (i : Uuid) (name : String) (phone email : Option String) (now : ℕ)
    (is_owner : Bool) (r : Resident) (t : ActivationToken) : Type 0 where
  pub home : r.unit_id ≡ i
  pub named : r.name ≡ name
  pub is_pending : r.status ≡ pending
  pub no_key : r.public_key ≡ none
  pub owner : r.is_owner ≡ is_owner
  pub phone_kept : r.phone ≡ contact is_owner phone
  pub email_kept : r.email ≡ contact is_owner email
  pub holder : t.resident_id ≡ r.id
  pub unused : t.used_at ≡ none
  pub expires : t.expires_at ≡ aware (now + cfg.activation_token_ttl_hours * hour)

abbrev pub is_first : Option Resident → Bool
is_first none = true
is_first (some r) = false

-- The resident and the token have been added, and nothing else but audit entries.
pub record Placed (cfg : Settings) (i : Uuid) (name : String) (phone email : Option String)
    (w : World) (r : Resident) (t : ActivationToken) (v : World) : Type 0 where
  pub fresh : Fresh cfg i name phone email (w.clock 0) (is_first (find (owns i) w.db.residents)) r t
  pub units : v.db.units ≡ w.db.units
  pub residents : v.db.residents ≡ r ∷ w.db.residents
  pub tokens : v.db.activation_tokens ≡ t ∷ w.db.activation_tokens
  pub alone : select (λ x. x.token == t.token) w.db.activation_tokens ≡ []

abbrev Owns : World → Option Resident → Result Bool → World → Type 0
Owns w owner (ok b) v = (v ≡ w) × (b ≡ is_first owner)
Owns w owner (raised e) v = Unit

ownership-Owns :
    (w : World) (owner : Option Resident) (phone email : Option String)
    → Wp (ownership owner phone email) w (Owns w owner)
unfolding ownership
ownership-Owns w none phone email = wp-raise_if _ _ _ (λ given. wp-pure _ (refl, refl)) (λ h. tt)
ownership-Owns w (some owner) phone email =
    wp-raise_if _ _ _ (λ absent. wp-pure _ (refl, refl)) (λ h. tt)

-- what `new_resident` and then `new_token` leave
record Housed (i : Uuid) (name : String) (phone email : Option String) (b : Bool) (w : World)
    (r : Resident) (v : World) : Type 0 where
  home : r.unit_id ≡ i
  named : r.name ≡ name
  is_pending : r.status ≡ pending
  no_key : r.public_key ≡ none
  owner : r.is_owner ≡ b
  phone_kept : r.phone ≡ contact b phone
  email_kept : r.email ≡ contact b email
  db : v.db ≡ record w.db { residents = r ∷ w.db.residents }
  clock : v.clock ≡ w.clock

abbrev Houses :
    Uuid → String → Option String → Option String → Bool → World → Result Resident → World → Type 0
Houses i name phone email b w (ok r) v = Housed i name phone email b w r v
Houses i name phone email b w (raised e) v = Unit

new_resident-Houses :
    (i : Uuid) (name : String) (phone email : Option String) (b : Bool) (w : World)
    → Wp (new_resident i name phone email b) w (Houses i name phone email b w)
unfolding new_resident
new_resident-Houses i name phone email b w = wp-uuid4 _ (
    wp-server_now _ (
      wp-call _ _ (add_resident-Adds _ _)
        (λ a v h. wp-pure _ (record {
          home = refl;
          named = refl;
          is_pending = refl;
          no_key = refl;
          owner = refl;
          phone_kept = refl;
          email_kept = refl;
          db = ap (λ (u : World). u.db) h.0;
          clock = ap (λ (u : World). u.clock) h.0;
        }))
        (λ e v h. tt)))

record Issued (cfg : Settings) (j : Uuid) (w : World) (t : ActivationToken) (v : World)
    : Type 0 where
  holder : t.resident_id ≡ j
  unused : t.used_at ≡ none
  expires : t.expires_at ≡ aware (w.clock 0 + cfg.activation_token_ttl_hours * hour)
  db : v.db ≡ record w.db { activation_tokens = t ∷ w.db.activation_tokens }
  alone : select (λ x. x.token == t.token) w.db.activation_tokens ≡ []

untaken :
    (d : Db) (t : ActivationToken)
    → token_refused d t ≡ false
    → select (λ x. x.token == t.token) d.activation_tokens ≡ []
unfolding token_refused
untaken d t h = select_of_any (λ x. x.token == t.token) d.activation_tokens (ground arith)

abbrev Issues : Settings → Uuid → World → Result ActivationToken → World → Type 0
Issues cfg j w (ok t) v = Issued cfg j w t v
Issues cfg j w (raised e) v = Unit

new_token-Issues : (cfg : Settings) (j : Uuid) (w : World) → Wp (new_token cfg j) w (Issues cfg j w)
unfolding new_token
new_token-Issues cfg j w = wp-uuid4 _ (
    wp-utcnow _ (
      wp-uuid4 _ (
        wp-call _ _ (add_token-Adds _ _)
          (λ a v h. wp-pure _ (record {
            holder = refl;
            unused = refl;
            expires = refl;
            db = ap (λ (u : World). u.db) h.0;
            alone = untaken w.db _ h.1;
          }))
          (λ e v h. tt))))

placed :
    (cfg : Settings) (i : Uuid) (name : String) (phone email : Option String) (w : World) (b : Bool)
    (r : Resident) (t : ActivationToken) (v1 v2 v3 : World)
    → b ≡ is_first (find (owns i) w.db.residents)
    → Housed i name phone email b w r v1
    → Issued cfg r.id v1 t v2
    → OnlyLogs v2 v3
    → Placed cfg i name phone email w r t v3
placed cfg i name phone email w b r t v1 v2 v3 first h k n = record {
  fresh = record {
    home = h.home;
    named = h.named;
    is_pending = h.is_pending;
    no_key = h.no_key;
    owner = h.owner ∙ first;
    phone_kept = h.phone_kept ∙ ap (λ c. contact c phone) first;
    email_kept = h.email_kept ∙ ap (λ c. contact c email) first;
    holder = k.holder;
    unused = k.unused;
    expires =
        k.expires ∙ ap (λ (c : ℕ → ℕ). aware (c 0 + cfg.activation_token_ttl_hours * hour)) h.clock;
  };
  units = n.units ∙ ap (λ (d : Db). d.units) k.db ∙ ap (λ (d : Db). d.units) h.db;
  residents = n.residents ∙ ap (λ (d : Db). d.residents) k.db ∙ ap (λ (d : Db). d.residents) h.db;
  tokens =
      n.tokens
      ∙ ap (λ (d : Db). d.activation_tokens) k.db
      ∙ ap (λ (d : Db). t ∷ d.activation_tokens) h.db;
  alone =
      sym (ap (λ (d : Db). select (λ x. x.token == t.token) d.activation_tokens) h.db) ∙ k.alone;
}

module _ (cfg : Settings) (i : Uuid) (name : String) (phone email : Option String)
    (actor_id : Option Uuid) (w : World) where
  abbrev pub Places : Result (Resident × ActivationToken) → World → Type 0
  Places (ok (r, t)) v = Placed cfg i name phone email w r t v
  Places (raised e) v = Unit

  pub provision_in-Places : Wp (provision_in cfg i name phone email actor_id) w Places
  unfolding provision_in
  provision_in-Places = wp-query _ _ (
      wp-call _ _ (ownership-Owns w _ phone email)
        (λ b v o. rw o.0 (
          wp-call _ _ (new_resident-Houses i name phone email b w)
            (λ r v1 h.
              wp-call _ _ (new_token-Issues cfg _ v1)
                (λ t v2 k.
                  wp-call _ _ (log_resident_action-Noted _ _ _ _ _ _)
                    (λ l v3 n. wp-pure _ (placed cfg i name phone email w b r t v1 v2 v3 o.1 h k n))
                    (λ e v3 n. tt))
                (λ e v2 k. tt))
            (λ e v1 h. tt)))
        (λ e v o. tt))
