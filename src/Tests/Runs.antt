-- ===== src/Tests/Runs.antt =====
-- The theorems on the event loop at a run of two workers.
use schedbench.Base.{◌≡◌, refl, List, ◌∷◌, []}
use schedbench.Base.Int.{ℤ, pos}
use schedbench.Base.Outcome.{returns}
use schedbench.Bench.{WorkerId, zero_report}
use schedbench.Run.{
  Event, report, done, timeout, Loop, Status, waiting, finished, state, loop, start, WorkerList,
}
use schedbench.Run.Results.{Concludes, IsRunning, loop-Concludes}
use schedbench.Run.Ends.{loop-stands_at}
use schedbench.Run.Done.{loop-all_done}

abbrev worker_0 : WorkerId
worker_0 = record { set = pos 0; id = pos 0 }

abbrev worker_1 : WorkerId
worker_1 = record { set = pos 0; id = pos 1 }

abbrev workers : WorkerList (Unit {0})
workers =
    (worker_0, record { w = tt; last_report = zero_report })
    ∷ (worker_1, record { w = tt; last_report = zero_report })
    ∷ []

abbrev said : WorkerId → ℤ → Event
said id now = report (record zero_report { id = id; now = now })

-- Two reports, the timeout, a late report, and the end of both workers.
abbrev history : List Event
history =
    said worker_0 (pos 5)
    ∷ said worker_1 (pos 6)
    ∷ timeout
    ∷ said worker_0 (pos 7)
    ∷ done worker_1
    ∷ done worker_0
    ∷ []

start-IsRunning : IsRunning (start workers)
unfolding start
start-IsRunning = record {
  going = refl;
  some_left = refl;
  no_error = refl;
  none_shut = refl;
  none_dumped = refl;
}

loop-Concludes_example :
    (n : Status (Unit {0})) × (loop (pos 10) history (start workers) ≡ returns n)
    × Concludes (pos 10) history (start workers) (state n)
unfolding start
loop-Concludes_example =
    loop-Concludes (pos 10) history (start workers) start-IsRunning
      (refl, (refl, (refl, (refl, (refl, tt)))))

loop-all_done_example :
    (u : Loop (Unit {0})) × (loop (pos 10) history (start workers) ≡ returns (finished u))
unfolding start
loop-all_done_example =
    loop-all_done (pos 10) history (start workers) refl (refl, (refl, tt)) tt
      (refl, (refl, (refl, (refl, (refl, tt))))) (refl, (refl, tt))

-- A worker that never says `done` keeps `Run` waiting after its timeout.
worker_lost :
    (u : Loop (Unit {0})) × (loop (pos 10) (timeout ∷ done worker_1 ∷ []) (start workers)
      ≡ returns (waiting u))
unfolding start
worker_lost = loop-stands_at (pos 10) (timeout ∷ done worker_1 ∷ []) (start workers) tt (refl, tt)
