-- ===== src/Poll/Tests.antt =====
-- Runs of PollFlags.cpp, and its theorems at concrete sets.
use pxc_core.Prelude.{◌≡◌, refl, true, List, [], ◌∷◌, arith}
use pxc_core.Poll.{
  PollFlagsSet, from_raw, join, no_flags, read_flag, write_flag, close_flag, print, flush,
}
use pxc_core.Poll.Refine.{Call, writes, flushes, reads, clears, run, spec_run, run-spec_run, sets}

abbrev idle : PollFlagsSet
idle = record { to_write = 0; flags = no_flags }

-- Another thread reports a write, then a close; the descriptor is then read.
abbrev calls : List Call
calls =
    writes write_flag
    ∷ reads (close_flag ∷ [])
    ∷ writes (join close_flag read_flag)
    ∷ flushes (read_flag ∷ write_flag ∷ [])
    ∷ reads []
    ∷ clears read_flag
    ∷ []

-- Closing takes the write flag away.
closing :
    flush (record { to_write = 6; flags = write_flag }) []
    ≡ (true, record { to_write = 0; flags = from_raw 6 })
unfolding flush
closing = refl

-- A flag that is written after the load is taken over too.
late :
    flush (record { to_write = 2; flags = no_flags }) (close_flag ∷ [])
    ≡ (true, record { to_write = 0; flags = from_raw 6 })
unfolding flush
late = refl

prints : print (from_raw 7) ≡ b'[' ∷ b'R' ∷ b'W' ∷ b'C' ∷ b']' ∷ []
unfolding print
prints = refl

run-spec_run_example :
    ((run idle calls).0 ≡ (spec_run (sets idle) calls).0)
    × (sets (run idle calls).1 ≡ (spec_run (sets idle) calls).1)
run-spec_run_example = run-spec_run idle calls (omega arith) (unfold join in (omega arith))
