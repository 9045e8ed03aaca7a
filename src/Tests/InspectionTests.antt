-- ===== src/Tests/InspectionTests.antt =====
-- A session that is started, finished and finished again, and the theorem on sessions at it.
use check.Common.{ℕ, Bool, false, Option, none, some, List, [], ◌∷◌, ◌≡◌, refl, err, arith}
use check.Inspection.Defs.{Bytes, not_in_progress, Db, StartInput, FinishInput}
use check.Inspection.Service.{finish}
use check.Inspection.Runs.{Call, starts, finishes, Settled, run, run-Settled}

abbrev quiet : ℕ → Bool
quiet _ = false

abbrev bytes : Bytes → Option Bytes
bytes b = some b

abbrev joined : List Bytes → Bytes
joined [] = []
joined (b ∷ bs) = 7 ∷ joined bs

abbrev before : Db ℕ
before = record {
  inspections = record { rows = []; next = 1 };
  points =
      record { id = 1; client_uuid = 31; inspection_id = 1; seq = 1; geom = []; recorded_at = 5 }
      ∷ record { id = 2; client_uuid = 32; inspection_id = 1; seq = 0; geom = []; recorded_at = 4 }
      ∷ [];
  projects = 4 ∷ [];
  tasks = [];
  users = 9 ∷ [];
}

abbrev walk : StartInput Bytes
walk = record {
  project_id = 4;
  started_at = 1000000;
  inspector_id = 9;
  client_uuid = some 21;
  task_id = none;
  device_info = none;
  note = none;
}

abbrev at_once : FinishInput
at_once = record { ended_at = none; note = none; discard = false }

abbrev calls : List (Call Bytes)
calls = starts bytes quiet 0 walk 9 ∷ finishes quiet 4000000 1 at_once 9 ∷ []

finished_twice :
    (finish 0 bytes bytes joined
      (λ route. 12)
      quiet
      5000000
      1
      at_once
      9
      (run 0 bytes bytes joined (λ route. 12) calls before)).1
    ≡ err not_in_progress
unfolding finish check.Common.with_tx check.Inspection.Service.start
    check.Inspection.Service.finish_row
finished_twice = refl

run-Settled_example :
    Settled 0 bytes bytes joined (λ route. 12) (run 0 bytes bytes joined (λ route. 12) calls before)
run-Settled_example = run-Settled 0 bytes bytes joined (λ route. 12) calls before (omega arith, tt)
