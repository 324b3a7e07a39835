-- ===== src/Server/Dispatch.antt =====
-- No two routes fit one request, so that their order does not matter.
use vista_authen.Prelude.{
  ◌≤◌, ◌≡◌, refl, String, Bool, true, false, not, ◌&&◌, ◌||◌, List, [], ◌∷◌, ◌==◌, String_eq, count,
  any, arith,
}
use vista_authen.Server.Routing.{
  Method, Part, fixed, parameter, Route, routes, method_beq, fits_part, fits_path, answers,
}

-- two parts that no text fits both
abbrev differ : Part → Part → Bool
differ (fixed a) (fixed b) = not (a == b)
differ _ _ = false

unfoldable apart : List Part → List Part → Bool
apart [] [] = false
apart [] (q ∷ qs) = true
apart (p ∷ ps) [] = true
apart (p ∷ ps) (q ∷ qs) = let rest = apart ps qs in differ p q || rest

fits_part-differ :
    (p q : Part) (s : String) → differ p q ≡ true → fits_part p s ≡ true → fits_part q s ≡ false
fits_part-differ (fixed a) (fixed b) s d h =
    ground (arith, (String_eq.decides a s).0, (String_eq.decides b s).0, (String_eq.decides a b).1)
fits_part-differ (fixed a) parameter s d h = absurd (cc)
fits_part-differ parameter (fixed b) s d h = absurd (cc)
fits_part-differ parameter parameter s d h = absurd (cc)

fits_path-apart :
    (ps qs : List Part) (parts : List String)
    → apart ps qs ≡ true
    → fits_path ps parts ≡ true
    → fits_path qs parts ≡ false
unfolding apart fits_path
fits_path-apart [] [] parts d h = absurd (cc)
fits_path-apart [] (q ∷ qs) [] d h = refl
fits_path-apart [] (q ∷ qs) (s ∷ parts) d h = absurd (cc)
fits_path-apart (p ∷ ps) [] [] d h = absurd (cc)
fits_path-apart (p ∷ ps) [] (s ∷ parts) d h = refl
fits_path-apart (p ∷ ps) (q ∷ qs) [] d h = absurd (cc)
fits_path-apart (p ∷ ps) (q ∷ qs) (s ∷ parts) d h =
    ground (arith, fits_part-differ p q s, fits_path-apart ps qs parts)

same_method :
    (m a b : Method) → method_beq m a ≡ true → method_beq a b ≡ false → method_beq m b ≡ false
same_method m a b h k = ground arith

unfoldable separate : Route → Route → Bool
separate a b = not (method_beq a.method b.method) || apart a.path b.path

answers-separate :
    (m : Method) (parts : List String) (a b : Route)
    → separate a b ≡ true
    → answers m parts a ≡ true
    → answers m parts b ≡ false
unfolding separate
answers-separate m parts a b d h =
    ground (arith, same_method m a.method b.method, fits_path-apart a.path b.path parts)

-- Each route is separate from all that follow it.
abbrev all_separate : List Route → Bool
all_separate [] = true
all_separate (r ∷ rs) = not (any (λ q. not (separate r q)) rs) && all_separate rs

module _ (m : Method) (parts : List String) where
  none_left :
      (r : Route) (rs : List Route)
      → any (λ q. not (separate r q)) rs ≡ false
      → answers m parts r ≡ true
      → count (answers m parts) rs ≡ 0
  none_left r [] d h = refl
  none_left r (q ∷ rs) d h = ground (arith, answers-separate m parts r q, none_left r rs)

  at_most_one : (rs : List Route) → all_separate rs ≡ true → count (answers m parts) rs ≤ 1
  at_most_one [] d = ground arith
  at_most_one (r ∷ rs) d = ground (arith, none_left r rs, at_most_one rs)

routes-all_separate : all_separate routes ≡ true
unfolding routes separate apart
routes-all_separate = refl

-- Whatever the method and the path of a request are, at most one route of the application answers
-- it: the order in which the routers are included decides nothing.
pub routes_unambiguous : (m : Method) (parts : List String) → count (answers m parts) routes ≤ 1
routes_unambiguous m parts = at_most_one m parts routes routes-all_separate
