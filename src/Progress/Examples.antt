-- ===== src/Progress/Examples.antt =====
-- A tracker with two stages, on hundredths, and a group of two Spark stages.
use rhombus_ai.Base.{◌≡◌, List, [], ◌∷◌, none, some, true, false, arith}
use rhombus_ai.Progress.{
  ProgressTracker, new_tracker, Event, enter, fraction, loading, transforming, emissions,
}
use rhombus_ai.Progress.Arithmetic.{hundredths, hundredths-IsLawful}
use rhombus_ai.Progress.Laws.{emissions-IsAscendingFrom, IsAscendingFrom}
use rhombus_ai.Progress.Monitor.{Tick, run, cancellations, cancellations-run}

abbrev three_events : List (Event hundredths)
three_events = enter loading 0 ∷ fraction 50 1000 ∷ enter transforming 1200 ∷ fraction 150 3000 ∷ []

abbrev first_tracker : ProgressTracker
first_tracker = new_tracker 1000

emissions-IsAscendingFrom_example :
    IsAscendingFrom 0 (emissions hundredths three_events first_tracker)
emissions-IsAscendingFrom_example =
    emissions-IsAscendingFrom hundredths hundredths-IsLawful three_events first_tracker
      (omega arith)

abbrev two_ticks : List Tick
two_ticks =
    record { should_cancel = some false; cancel_raises = false; status = none }
    ∷ record { should_cancel = some true; cancel_raises = true; status = none }
    ∷ record { should_cancel = some true; cancel_raises = false; status = none }
    ∷ []

cancellations-run_example : cancellations hundredths (run hundredths two_ticks false) ≡ 1
cancellations-run_example = cancellations-run hundredths two_ticks
