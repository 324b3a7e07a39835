-- ===== src/Server/Shutdown.antt =====
-- The periodic task survives what its rounds raise, and ends when the server does.
use vista_authen.Prelude.{
  ℕ, zero, suc, ◌+◌, ◌≡◌, refl, Bool, true, false, List, [], ◌∷◌, ◌++◌, All, count, arith, ◌∙◌,
}
use vista_authen.Session.{World, ◌>>=◌}
use vista_authen.Config.{Settings}
use vista_authen.Externals.{Externals}
use vista_authen.Services.Cleanup.{cleanup_all, purge_expired_tokens, purge_old_audit_logs}
use vista_authen.Routes.Requests.{Event, tick, react, serve, periodic_cleanup}
use vista_authen.Server.Task.{
  Stage, before_commit, after_commit, after_line, Round, completes, fails, cancelled, ended, Task,
  LogLine, completed, error, line_of, results, run_periodic_cleanup, lifespan,
}

abbrev commits_at : Stage → Bool
commits_at before_commit = false
commits_at after_commit = true
commits_at after_line = true

abbrev reports_at : Stage → Bool
reports_at before_commit = false
reports_at after_commit = false
reports_at after_line = true

-- whether a round has committed its clean-up, has written that it did, has raised, was cancelled
abbrev pub has_committed : Round → Bool
has_committed completes = true
has_committed (fails stage e) = commits_at stage
has_committed (cancelled stage) = commits_at stage

abbrev pub has_reported : Round → Bool
has_reported completes = true
has_reported (fails stage e) = reports_at stage
has_reported (cancelled stage) = reports_at stage

abbrev pub has_failed : Round → Bool
has_failed completes = false
has_failed (fails stage e) = true
has_failed (cancelled stage) = false

abbrev pub is_cancelled : Round → Bool
is_cancelled completes = false
is_cancelled (fails stage e) = false
is_cancelled (cancelled stage) = true

abbrev is_error : LogLine → Bool
is_error (completed purged) = false
is_error (error e) = true

abbrev is_report : LogLine → Bool
is_report (completed purged) = true
is_report (error e) = false

-- so many rounds of the clean-up and nothing else
abbrev pub ticks : ℕ → List Event
ticks zero = []
ticks (suc n) = tick ∷ ticks n

-- The task is over after these rounds: it has logged what was raised and what was reported, and the
-- tables are those of a server that has cleaned up as often as a round has committed.
pub record Over (x : Externals) (cfg : Settings) (rounds : List Round) (w : World) (task : Task)
    : Type 0 where
  pub status : task.status ≡ ended
  pub errors : count is_error task.lines ≡ count has_failed rounds
  pub reports : count is_report task.lines ≡ count has_reported rounds
  pub world : task.world ≡ serve x cfg (ticks (count has_committed rounds)) w

module _ (x : Externals) (cfg : Settings) where
  -- a clean-up that is committed has its counts
  counts : (w : World) → (purged : ℕ × ℕ) × (line_of (results x cfg w) ≡ completed purged)
  unfolding cleanup_all purge_expired_tokens purge_old_audit_logs ◌>>=◌
  counts w = (_, refl)

  -- one more round of the clean-up
  again :
      (w : World) (n : ℕ)
      → serve x cfg (ticks n) (periodic_cleanup x cfg w) ≡ serve x cfg (ticks (1 + n)) w
  unfolding serve react
  again w n = let one : 1 + n ≡ suc n = omega arith in rw one refl

  as_often : (w : World) (n : ℕ) → serve x cfg (ticks n) w ≡ serve x cfg (ticks (0 + n)) w
  as_often w n = let none : 0 + n ≡ n = omega arith in rw none refl

  run-Over :
      (rounds : List Round) (stage : Stage) (w : World)
      → All (λ r. is_cancelled r ≡ false) rounds
      → Over x cfg
          (rounds ++ cancelled stage ∷ [])
          w
          (run_periodic_cleanup x cfg (rounds ++ cancelled stage ∷ []) w)
  unfolding run_periodic_cleanup serve react
  run-Over [] before_commit w a = record {
    status = refl;
    errors = refl;
    reports = refl;
    world = refl;
  }
  run-Over [] after_commit w a = record {
    status = refl;
    errors = refl;
    reports = refl;
    world = refl;
  }
  run-Over [] after_line w a =
      let (purged, line) = counts w in
      rw line (record { status = refl; errors = refl; reports = refl; world = refl })
  run-Over (completes ∷ rounds) stage w a =
      let rest = run-Over rounds stage (periodic_cleanup x cfg w) a.1 in
      let (purged, line) = counts w in
      rw line (record {
        status = rest.status;
        errors = omega (arith, rest.errors);
        reports = omega (arith, rest.reports);
        world = rest.world ∙ again w (count has_committed (rounds ++ cancelled stage ∷ []));
      })
  run-Over (fails before_commit e ∷ rounds) stage w a =
      let rest = run-Over rounds stage w a.1 in
      record {
        status = rest.status;
        errors = omega (arith, rest.errors);
        reports = omega (arith, rest.reports);
        world = rest.world ∙ as_often w (count has_committed (rounds ++ cancelled stage ∷ []));
      }
  run-Over (fails after_commit e ∷ rounds) stage w a =
      let rest = run-Over rounds stage (periodic_cleanup x cfg w) a.1 in
      record {
        status = rest.status;
        errors = omega (arith, rest.errors);
        reports = omega (arith, rest.reports);
        world = rest.world ∙ again w (count has_committed (rounds ++ cancelled stage ∷ []));
      }
  run-Over (fails after_line e ∷ rounds) stage w a =
      let rest = run-Over rounds stage (periodic_cleanup x cfg w) a.1 in
      let (purged, line) = counts w in
      rw line (record {
        status = rest.status;
        errors = omega (arith, rest.errors);
        reports = omega (arith, rest.reports);
        world = rest.world ∙ again w (count has_committed (rounds ++ cancelled stage ∷ []));
      })
  run-Over (cancelled s ∷ rounds) stage w a = absurd (cc (a.0))

  -- Where nothing but the shutdown of the server cancels the periodic task, and at whatever stage the
  -- shutdown does, the task is over: it has logged one error for each round that raised and one
  -- report for each that came so far, and the tables are those of a server that runs the clean-up
  -- once for each round that committed, also where the round was interrupted after that.
  pub lifespan-Over :
      (rounds : List Round) (stage : Stage) (w : World)
      → All (λ r. is_cancelled r ≡ false) rounds
      → Over x cfg (rounds ++ cancelled stage ∷ []) w (lifespan x cfg rounds stage w)
  unfolding lifespan
  lifespan-Over rounds stage w a = run-Over rounds stage w a
