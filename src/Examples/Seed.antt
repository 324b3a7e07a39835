-- ===== src/Examples/Seed.antt =====
-- The seed script, run before the small building is there.
use vista_authen.Config.{settings}
use vista_authen.Seed.{seed}
use vista_authen.Seed.Outcome.{Seeds, seed-Seeds}
use vista_authen.Examples.{programs, morning}

seed-Seeds_example : Seeds (seed programs settings morning).0 (seed programs settings morning).1
seed-Seeds_example = seed-Seeds programs settings morning
