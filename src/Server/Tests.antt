-- ===== src/Server/Tests.antt =====
-- The cleaning of the server's caches on a small example.
use btdt.Prelude.{true, false, List, [], ◌∷◌, arith}
use btdt.Cache.Dispatcher.{in_memory}
use btdt.Server.Api.Tests.{backends, worlds}
use btdt.Server.Cleanup.{CleanupTask, Turn, run, Spaced, InOrder, run-Spaced}

abbrev task : CleanupTask backends
task = record {
  caches = in_memory 0 ∷ [];
  cleanup_interval = 10;
  cache_expiration = 3;
  max_cache_size = 100;
}

-- It is woken up too early, in time, and to stop.
abbrev turns : List Turn
turns =
    record { aborted = false; woken = 4; cleaned = 4 }
    ∷ record { aborted = false; woken = 12; cleaned = 13 }
    ∷ record { aborted = true; woken = 30; cleaned = 30 }
    ∷ []

in_order : InOrder backends 0 turns
in_order = (omega arith, omega arith, (omega arith, omega arith, (omega arith, omega arith, tt)))

run-Spaced_example : Spaced backends 10 0 (run backends task turns 0 worlds).1
run-Spaced_example = run-Spaced backends task turns 0 worlds in_order
