-- ===== src/Lifecycle/Soundness/Residents.antt =====
-- The changes of residents and of activation tokens keep the invariant.
use vista_authen.Prelude.{
  sym, subst, ℕ, ◌≡◌, Bool, true, false, some, ◌∷◌, arith, ℕ_eq, select, All-map, All-select,
  count_of_find,
}
use vista_authen.Models.{Resident, ActivationToken, Db, status_eq}
use vista_authen.Rows.{
  has-cons, get, has, put, count-put, has-put, put-UniqueKeys, select-UniqueKeys, All-get, All-put,
  unit_keyed, resident_keyed, token_keyed,
}
use vista_authen.Tables.{occupies, active_resident_count, resident_refused, token_refused}
use vista_authen.Services.Residents.{owns, consumed}
use vista_authen.Lifecycle.{strip, Transition, Admissible}
use vista_authen.Lifecycle.Invariant.{
  WellFormed, IsSound, Keeps, Transition-Keeps, occupies_mono, owns_mono, Transition-WellFormed,
}

module _ {d : Db} (s : IsSound d) where
  admitted-WellFormed : (r : Resident) → Admissible d r → WellFormed r
  admitted-WellFormed r a = record {
    active_key = λ h. absurd (cc (a.fresh.0));
    other_key = λ h. a.fresh.1;
    other_contact = a.contact.other;
    owner_contact = λ own.
        let (p, e, hp, he, bp, be) = a.contact.owner own in (strip p, strip e, hp, he, bp, be);
  }

  pub resident_added-IsSound :
      (r : Resident) → Admissible d r → IsSound (record d { residents = r ∷ d.residents })
  unfolding resident_refused active_resident_count
  resident_added-IsSound r a =
      let (u, found, fits) = a.home in
      record {
        unit_ids = s.unit_ids;
        resident_ids = (ground (arith, a.accepted), s.resident_ids);
        token_ids = s.token_ids;
        homes = (ground (arith, a.accepted), s.homes);
        holders =
            All-map _ _ (λ t held. ground (arith, has-cons t.resident_id r d.residents))
              d.activation_tokens s.holders;
        room = λ i v e. ground (arith, s.room i v, (ℕ_eq.decides r.unit_id i).0, fits, found, e);
        one_owner = λ i. ground (
          arith,
          s.one_owner i,
          (ℕ_eq.decides r.unit_id i).0,
          a.first_owner,
          count_of_find (owns i) d.residents,
        );
        residents_WellFormed = (admitted-WellFormed r a, s.residents_WellFormed);
      }

  pub resident_changed-IsSound :
      (old r : Resident)
      → get old.id d.residents ≡ some old
      → Transition old r
      → IsSound (record d { residents = put r d.residents })
  unfolding active_resident_count
  resident_changed-IsSound old r found t =
      let kept : Keeps old r = Transition-Keeps t in
      let found' : get r.id d.residents ≡ some old =
        subst (λ i. get i d.residents ≡ some old) (sym kept.id) found in
      record {
        unit_ids = s.unit_ids;
        resident_ids = put-UniqueKeys r d.residents s.resident_ids;
        token_ids = s.token_ids;
        homes = All-put _ r d.residents s.homes (
            subst (λ i. has i d.units ≡ true) (sym kept.unit_id)
              (All-get _ old.id d.residents s.homes found));
        holders = All-map _ _ (λ t held. rw has-put held) d.activation_tokens s.holders;
        room = λ i v e. omega (
          arith,
          s.room i v e,
          count-put (occupies i) r d.residents found',
          occupies_mono i kept,
        );
        one_owner = λ i.
            omega (arith, s.one_owner i, count-put (owns i) r d.residents found', owns_mono i kept);
        residents_WellFormed =
            All-put _ r d.residents s.residents_WellFormed
              (Transition-WellFormed t (All-get _ old.id d.residents s.residents_WellFormed found));
      }

module _ {d : Db} (s : IsSound d) where
  pub token_added-IsSound :
      (t : ActivationToken)
      → token_refused d t ≡ false
      → IsSound (record d { activation_tokens = t ∷ d.activation_tokens })
  unfolding token_refused active_resident_count
  token_added-IsSound t accepted = record {
    unit_ids = s.unit_ids;
    resident_ids = s.resident_ids;
    token_ids = (ground arith, s.token_ids);
    homes = s.homes;
    holders = (ground arith, s.holders);
    room = s.room;
    one_owner = s.one_owner;
    residents_WellFormed = s.residents_WellFormed;
  }

  pub token_used-IsSound :
      (t : ActivationToken) (now : ℕ)
      → has t.resident_id d.residents ≡ true
      → IsSound (record d { activation_tokens = put (consumed now t) d.activation_tokens })
  unfolding active_resident_count
  token_used-IsSound t now held = record {
    unit_ids = s.unit_ids;
    resident_ids = s.resident_ids;
    token_ids = put-UniqueKeys (consumed now t) d.activation_tokens s.token_ids;
    homes = s.homes;
    holders = All-put _ (consumed now t) d.activation_tokens s.holders held;
    room = s.room;
    one_owner = s.one_owner;
    residents_WellFormed = s.residents_WellFormed;
  }

  pub tokens_purged-IsSound :
      (keep : ActivationToken → Bool)
      → IsSound (record d { activation_tokens = select keep d.activation_tokens })
  unfolding active_resident_count
  tokens_purged-IsSound keep = record {
    unit_ids = s.unit_ids;
    resident_ids = s.resident_ids;
    token_ids = select-UniqueKeys keep d.activation_tokens s.token_ids;
    homes = s.homes;
    holders = All-select _ keep d.activation_tokens s.holders;
    room = s.room;
    one_owner = s.one_owner;
    residents_WellFormed = s.residents_WellFormed;
  }
