-- ===== src/Seed/Outcome.antt =====
-- What seed.py leaves behind.
use vista_authen.Prelude.{◌≡◌, subst}
use vista_authen.Session.{World, Result, ok, raised}
use vista_authen.Externals.{Externals}
use vista_authen.Config.{Settings}
use vista_authen.Lifecycle.Invariant.{IsSound}
use vista_authen.Lifecycle.Uniqueness.{IsDistinct}
use vista_authen.Seed.{empty, seed}
use vista_authen.Seed.Soundness.{Full, Fills, wp-seed}
use vista_authen.Seed.Uniqueness.{seed-Separates}

-- What `seed` leaves: sound tables with unique columns and a full unit, or empty ones where a password
-- could not be hashed or the database has refused a row.
abbrev pub Seeds : Result (Unit {0}) → World → Type 0
Seeds (ok a) v =
    IsSound v.committed × IsDistinct v.committed × Full v.committed × (v.db ≡ v.committed)
Seeds (raised e) v = v.committed ≡ empty

filled-Seeds :
    (x : Externals) (cfg : Settings) (r : Result (Unit {0})) (v : World)
    → Fills x cfg r v
    → IsDistinct v.db
    → Seeds r v
filled-Seeds x cfg (ok a) v (s, n, same) u = (s, subst IsDistinct same u, n, same)
filled-Seeds x cfg (raised e) v h u = h

-- A run of the seed script leaves sound tables with unique columns, in which the unit has three
-- residents and a capacity of three, or empty ones, where a password cannot be hashed or the database
-- refuses a row.
pub seed-Seeds :
    (x : Externals) (cfg : Settings) (w : World) → Seeds (seed x cfg w).0 (seed x cfg w).1
seed-Seeds x cfg w = filled-Seeds x cfg _ _ (wp-seed x cfg w).at (seed-Separates x cfg w)
