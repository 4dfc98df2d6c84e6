-- ===== src/Tests/Counters.antt =====
-- A session on a machine without the last-level counter.
use hybrid_pqc_benchmarking.Prelude.{List, refl, some, [], ◌∷◌}
use hybrid_pqc_benchmarking.Prelude.Int.{pos, negsuc}
use hybrid_pqc_benchmarking.HwTelemetry.{Os, RunEnd, unconnected, broken_off, completed, measure}
use hybrid_pqc_benchmarking.HwTelemetry.Balance.{IsBalanced, measure-IsBalanced}

-- The instruction counter fails, and the fallback for the last level is given.
abbrev machine : Os
machine = record {
  opens = pos 3 ∷ negsuc 0 ∷ pos 4 ∷ negsuc 0 ∷ pos 5 ∷ pos 6 ∷ pos 7 ∷ pos 8 ∷ [];
  counts = some 100 ∷ some 7 ∷ [];
  opened = [];
  calls = [];
}

-- The second handshake breaks off, and the third finds no server.
abbrev handshakes : List RunEnd
handshakes = completed ∷ broken_off ∷ unconnected ∷ completed ∷ []

measure-IsBalanced_example : IsBalanced handshakes (measure handshakes machine)
measure-IsBalanced_example = measure-IsBalanced handshakes machine refl refl
