-- ===== src/Examples/Hosting.antt =====
-- The server of the small building: its routes and its periodic task.
use vista_authen.Prelude.{
  ◌≡◌, refl, ap, sym, ◌∙◌, Bool, true, String, Option, none, some, List, [], ◌∷◌, ◌++◌, find,
  Bool-cases, inl, inr,
}
use vista_authen.Config.{settings}
use vista_authen.Session.{library_error}
use vista_authen.Routes.Requests as Requests
use vista_authen.Server.Routing.{
  Method, get, Route, Endpoint, routes, answers, list_residents_by_unit, Follows,
}
use vista_authen.Server.Addresses.{address, endpoint_of, endpoint_in, router-address}
use vista_authen.Server.Task.{
  Round, completes, fails, cancelled, before_commit, after_commit, after_line, lifespan,
}
use vista_authen.Server.Shutdown.{Over, lifespan-Over}
use vista_authen.Examples.{programs, morning}

abbrev by_unit : List String
by_unit = "api" ∷ "v1" ∷ "residents" ∷ "by-unit" ∷ "1" ∷ []

-- a router that takes the first route that fits
abbrev first_fit : Method → List String → Option Endpoint
first_fit m parts = endpoint_in (find (answers m parts) routes)

find-split :
    (p : Route → Bool) (xs : List Route) (r : Route)
    → find p xs ≡ some r
    → (before : List Route) × (after : List Route) × (xs ≡ before ++ r ∷ after) × (p r ≡ true)
find-split p [] r h = absurd (cc)
find-split p (x ∷ xs) r h = elim (Bool-cases (p x)) [
  | inl hit ↦
      let same : some x ≡ some r = rw hit at h in
      let is : x ≡ r = cc in ([], xs, ap (λ y. y ∷ xs) is, ap p (sym is) ∙ hit)
  | inr miss ↦
      let (before, after, e, fits) = find-split p xs r (rw miss at h) in
      (x ∷ before, after, ap (λ ys. x ∷ ys) e, fits)
]

answered :
    (m : Method) (parts : List String) (e : Endpoint) (o : Option Route)
    → find (answers m parts) routes ≡ o
    → endpoint_in o ≡ some e
    → (before : List Route) × (r : Route) × (after : List Route) × (routes ≡ before ++ r ∷ after)
      × (answers m parts r ≡ true)
      × (r.endpoint ≡ e)
answered m parts e none f h = absurd (cc)
answered m parts e (some r) f h =
    let (before, after, table, fits) = find-split (answers m parts) routes r f in
    let is : r.endpoint ≡ e = cc in (before, r, after, table, fits, is)

first_fit-Follows : Follows first_fit
first_fit-Follows = record {
  only = λ m parts e h. answered m parts e (find (answers m parts) routes) refl h;
  every = λ m parts r h. (r.endpoint, ap endpoint_in h);
}

router-address_example : first_fit get by_unit ≡ some list_residents_by_unit
unfolding address endpoint_of
router-address_example =
    router-address first_fit (Requests.list_residents_by_unit "admin token" "1") first_fit-Follows
      (refl, (refl, (refl, tt)))

-- a round, an outage, a session that cannot be closed, and another round
abbrev day : List Round
day =
    completes
    ∷ fails before_commit (library_error "no connection")
    ∷ fails after_line (library_error "connection lost")
    ∷ completes
    ∷ []

lifespan-Over_example :
    Over programs settings
      (day ++ cancelled after_commit ∷ [])
      morning
      (lifespan programs settings day after_commit morning)
lifespan-Over_example =
    lifespan-Over programs settings day after_commit morning (refl, (refl, (refl, (refl, tt))))
