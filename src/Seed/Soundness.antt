-- ===== src/Seed/Soundness.antt =====
-- What a run of seed.py leaves.
use Prim.Native.String.{◌++◌}
use vista_authen.Prelude.{ℕ, ◌≡◌, refl, false, some, List, [], ◌∷◌, arith, String_eq, ℕ_eq}
use vista_authen.Models.{Db, BuildingUnit, Resident, ActivationToken, DateTime}
use vista_authen.Session.{World, Result, ok, raised}
use vista_authen.Session.Wp.{Wp, wp-modify, wp-utcnow, wp-commit_last, wp-call, wp-weaken}
use vista_authen.Config.{Settings}
use vista_authen.Externals.{Externals}
use vista_authen.Rows.{get, has, unit_keyed, resident_keyed, token_keyed}
use vista_authen.Tables.{active_resident_count}
use vista_authen.Lifecycle.Invariant.{IsSound}
use vista_authen.Seed.{
  empty, recreate_tables, seeded_unit, first_resident, second_resident, third_resident, first_token,
  second_token, third_token, seed_staff, seed_building, seed,
}
-- The session has these units, residents and tokens, and has committed empty tables.
use vista_authen.Seed.Building.{
  Holds, Built, Placed, hash_password-Built, seed_admin-Built, seed_checker-Built, seed_unit-Built,
  seed_resident-Placed, owner_email, tenant_WellFormed,
}

-- the unit of the seed has as many residents as it may, which are three
abbrev pub Full : Db → Type 0
Full d =
    (u : BuildingUnit) × (get 0x6bb9d19b9339427f904abf8961cee5fc d.units ≡ some u)
    × (active_resident_count u.id d ≡ u.max_residents)
    × (u.max_residents ≡ 3)

module _ (x : Externals) (cfg : Settings) where
  seed_staff-Built :
      {now : DateTime} {us : List BuildingUnit} {rs : List Resident} {ts : List ActivationToken}
      {w : World}
      → Holds now us rs ts w
      → Wp (seed_staff x) w (Built now us rs ts)
  unfolding seed_staff
  seed_staff-Built h =
      wp-call _ _ (hash_password-Built h x _)
        (λ a1 v1 h1.
          wp-call _ _ (hash_password-Built h1 x _)
            (λ a2 v2 h2.
              wp-call _ _ (hash_password-Built h2 x _)
                (λ a3 v3 h3.
                  wp-call _ _ (hash_password-Built h3 x _)
                    (λ a4 v4 h4.
                      wp-call _ _ (hash_password-Built h4 x _)
                        (λ a5 v5 h5.
                          wp-call _ _ (seed_admin-Built h5 _ _ _)
                            (λ b1 u1 k1.
                              wp-call _ _ (seed_admin-Built k1 _ _ _)
                                (λ b2 u2 k2.
                                  wp-call _ _ (seed_admin-Built k2 _ _ _)
                                    (λ b3 u3 k3.
                                      wp-call _ _ (seed_checker-Built k3 _ _ _)
                                        (λ b4 u4 k4. seed_checker-Built k4 _ _ _) (λ e v k. k))
                                    (λ e v k. k))
                                (λ e v k. k))
                            (λ e v k. k))
                        (λ e v k. k))
                    (λ e v k. k))
                (λ e v k. k))
            (λ e v k. k))
        (λ e v k. k)

  -- The rows of the building, where no two tokens have one key.
  record Furnished (now : DateTime) (v : World) : Type 0 where
    i : ℕ
    j : ℕ
    k : ℕ
    first : ℕ
    second : ℕ
    third : ℕ
    holds :
        Holds now
          (seeded_unit now ∷ [])
          (third_resident now ∷ second_resident now ∷ first_resident cfg now ∷ [])
          (third_token third k ∷ second_token second j ∷ first_token first i ∷ [])
          v
    apart : has j (first_token first i ∷ []) ≡ false
    apart_too : has k (second_token second j ∷ first_token first i ∷ []) ≡ false

  abbrev Furnishes : DateTime → Result (Unit {0}) → World → Type 0
  Furnishes now (ok a) v = Furnished now v
  Furnishes now (raised e) v = v.committed ≡ empty

  furnished :
      (now : DateTime) (i j first second third : ℕ) (res : Result (Unit {0})) (v : World)
      → has j (first_token first i ∷ []) ≡ false
      → Placed now
          (seeded_unit now ∷ [])
          (second_resident now ∷ first_resident cfg now ∷ [])
          (second_token second j ∷ first_token first i ∷ [])
          third_resident
          (third_token third)
          res
          v
      → Furnishes now res v
  furnished now i j first second third (raised e) v apart h = h
  furnished now i j first second third (ok a) v apart (k, holds, apart_too) = record {
    i = i;
    j = j;
    k = k;
    first = first;
    second = second;
    third = third;
    holds = holds;
    apart = apart;
    apart_too = apart_too;
  }

  seed_building-Furnishes :
      {now : DateTime} {w : World} → Holds now [] [] [] w → Wp (seed_building cfg) w (Furnishes now)
  unfolding seed_building
  seed_building-Furnishes h = wp-utcnow _ (
      wp-utcnow _ (
        wp-utcnow _ (
          wp-call _ _
            (seed_unit-Built (record {
              units = h.units;
              residents = h.residents;
              tokens = h.tokens;
              committed = h.committed;
              clock = h.clock;
            }))
            (λ a v u.
              wp-call _ _ (seed_resident-Placed u _ _)
                (λ b v1 p1.
                  wp-call _ _ (seed_resident-Placed p1.1 _ _)
                    (λ c v2 p2.
                      wp-weaken (seed_resident-Placed p2.1 _ _)
                        (λ res v3 p3. furnished _ _ _ _ _ _ res v3 p2.2 p3))
                    (λ e v2 k. k))
                (λ e v1 k. k))
            (λ e v k. k))))

  Furnished-IsSound : (now : DateTime) (v : World) → Furnished now v → IsSound v.db × Full v.db
  unfolding has get active_resident_count
  Furnished-IsSound now v f =
      rw (f.holds.units, f.holds.residents, f.holds.tokens)
        (
          record {
            unit_ids = (refl, tt);
            resident_ids = (refl, (refl, (refl, tt)));
            token_ids = (f.apart_too, (f.apart, (refl, tt)));
            homes = (refl, (refl, (refl, tt)));
            holders = (refl, (refl, (refl, tt)));
            room = λ i u h. ground arith;
            one_owner = λ i. ground arith;
            residents_WellFormed = (
              tenant_WellFormed _ _ now,
              (
                tenant_WellFormed _ _ now,
                (
                  record {
                    active_key = λ h. absurd (cc);
                    other_key = λ h. refl;
                    other_contact = λ h. absurd (cc);
                    owner_contact = λ h. (
                      "+1234567890",
                      "owner@" ++ cfg.domain_name,
                      refl,
                      refl,
                      refl,
                      owner_email cfg.domain_name,
                    );
                  },
                  tt,
                ),
              ),
            );
          },
          (seeded_unit now, refl, refl, refl),
        )

  abbrev pub Fills : Result (Unit {0}) → World → Type 0
  Fills (ok a) v = IsSound v.committed × Full v.committed × (v.db ≡ v.committed)
  Fills (raised e) v = v.committed ≡ empty

  pub wp-seed : (w : World) → Wp (seed x cfg) w Fills
  unfolding seed recreate_tables
  wp-seed w =
      wp-call _ _
        (wp-modify _ _ (
          wp-commit_last {Q = Built w.db_now [] [] []} (record {
            units = refl;
            residents = refl;
            tokens = refl;
            committed = refl;
            clock = refl;
          })))
        (λ a v h.
          wp-call _ _ (seed_staff-Built h)
            (λ b v1 h1.
              wp-call _ _ (seed_building-Furnishes h1)
                (λ c v2 f.
                  let (s, n) = Furnished-IsSound w.db_now v2 f in wp-commit_last (s, n, refl))
                (λ e v2 k. k))
            (λ e v1 k. k))
        (λ e v k. k)
