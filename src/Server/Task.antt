-- ===== src/Server/Task.antt =====
-- The periodic task of app/main.py, from the start of the server to its end. The sleep, the session
-- and the logger belong to asyncio, SQLAlchemy and the logging library: a round is given by how and
-- where it ends. A round that ends before its commit leaves no reading of the clock behind.
use vista_authen.Prelude.{ℕ, List, [], ◌∷◌, ◌++◌}
use vista_authen.Session.{World, Exn, Result, ok, raised}
use vista_authen.Config.{Settings}
use vista_authen.Externals.{Externals}
use vista_authen.Services.Cleanup.{cleanup_all}
use vista_authen.Routes.Requests.{periodic_cleanup}

-- How far a round had come when something interrupted it: before the clean-up was committed (while
-- it slept, or the database could not be reached), between the commit and the line in the log, or
-- after that line, while the session was closed.
pub data Stage : Type 0 where
  before_commit after_commit after_line : Stage

-- How a round of the task ends: with the clean-up done, or at some stage with an exception or with
-- the CancelledError that follows `cancel()`.
pub data Round : Type 0 where
  completes : Round
  fails : Stage → Exn → Round
  cancelled : Stage → Round

-- what is written to the log
pub data LogLine : Type 0 where
  completed : ℕ × ℕ → LogLine
  error : Exn → LogLine

pub data Status : Type 0 where
  running ended : Status

pub record Task : Type 0 where
  pub status : Status
  pub lines : List LogLine
  pub world : World

abbrev logged : LogLine → Task → Task
logged line task = record task { lines = line ∷ task.lines }

-- `logger.info` of the results, or `logger.error` of what was raised
abbrev pub line_of : Result (ℕ × ℕ) → LogLine
line_of (ok purged) = completed purged
line_of (raised e) = error e

module _ (x : Externals) (cfg : Settings) where
  abbrev pub results : World → Result (ℕ × ℕ)
  results w = (cleanup_all cfg (record w { db = w.committed })).0

  -- the tables and the log lines of a round that was interrupted at a stage
  abbrev pub world_at : Stage → World → World
  world_at before_commit w = w
  world_at after_commit w = periodic_cleanup x cfg w
  world_at after_line w = periodic_cleanup x cfg w

  abbrev pub with_line : Stage → World → Task → Task
  with_line before_commit w task = task
  with_line after_commit w task = task
  with_line after_line w task = logged (line_of (results w)) task

  -- run_periodic_cleanup: CancelledError leaves the loop, any other exception is logged.
  unfoldable pub run_periodic_cleanup : List Round → World → Task
  run_periodic_cleanup [] w = record { status = running; lines = []; world = w }
  run_periodic_cleanup (completes ∷ rounds) w =
      logged (line_of (results w)) (run_periodic_cleanup rounds (periodic_cleanup x cfg w))
  run_periodic_cleanup (fails stage e ∷ rounds) w =
      let rest = run_periodic_cleanup rounds (world_at stage w) in
      with_line stage w (logged (error e) rest)
  run_periodic_cleanup (cancelled stage ∷ rounds) w =
      with_line stage w (record { status = ended; lines = []; world = world_at stage w })

  -- lifespan: the task is started, the server runs, and the task is cancelled, at whatever stage its
  -- round is, and awaited.
  unfoldable pub lifespan : List Round → Stage → World → Task
  lifespan rounds stage w = run_periodic_cleanup (rounds ++ cancelled stage ∷ []) w
