-- ===== src/Poll.antt =====
-- pxcnet/pxc/net/PollFlags.h and PollFlags.cpp: the readiness of a descriptor as a set of flags,
-- and the pair of such sets through which other threads report it. The raw int32 is its bit
-- pattern. The atomic `to_write_` changes by one read-modify-write at a time, so threads that
-- write are steps of one sequence, also of the steps between two atomic instructions of one call.
pub mod Bits
pub mod Refine
mod Tests
use Prim.Native.Nat.{bit_and, bit_or}
use pxc_core.Prelude.{
  ℕ, ◌-◌, ◌^◌, ◌==◌, if◌then◌else◌, Bool, true, false, not, List, [], ◌∷◌, ◌++◌, u32_mod,
}

-- `PollFlags`
pub record PollFlags : Type 0 where
  pub raw : ℕ

abbrev pub from_raw : ℕ → PollFlags
from_raw n = record { raw = n }

-- `PollFlags::Write()`, `Read()`, `Close()`, `Error()`, `ReadWrite()` and the empty set.
abbrev pub write_flag : PollFlags
write_flag = from_raw 1

abbrev pub read_flag : PollFlags
read_flag = from_raw 2

abbrev pub close_flag : PollFlags
close_flag = from_raw 4

abbrev pub error_flag : PollFlags
error_flag = from_raw 8

abbrev pub no_flags : PollFlags
no_flags = from_raw 0

-- `operator|`
unfoldable pub join : PollFlags → PollFlags → PollFlags
join f g = from_raw (bit_or f.raw g.raw)

abbrev pub read_write_flags : PollFlags
unfolding join
read_write_flags = join read_flag write_flag

-- `~flags` on the 32 bits.
abbrev pub complement : ℕ → ℕ
complement n = u32_mod - 1 - n

unfoldable pub has_flags : PollFlags → PollFlags → Bool
has_flags f g = bit_and f.raw g.raw == g.raw

unfoldable pub can_read : PollFlags → Bool
unfolding has_flags
can_read f = has_flags f read_flag

unfoldable pub can_write : PollFlags → Bool
unfolding has_flags
can_write f = has_flags f write_flag

unfoldable pub can_close : PollFlags → Bool
unfolding has_flags
can_close f = has_flags f close_flag

unfoldable pub has_pending_error : PollFlags → Bool
unfolding has_flags
has_pending_error f = has_flags f error_flag

unfoldable pub remove_flags : PollFlags → PollFlags → PollFlags
remove_flags f g = from_raw (bit_and f.raw (complement g.raw))

-- `add_flags` also says whether a flag is new.
unfoldable pub add_flags : PollFlags → PollFlags → PollFlags × Bool
add_flags f g = let n = bit_or f.raw g.raw in (from_raw n, not (f.raw == n))

abbrev pub empty : PollFlags → Bool
empty f = f.raw == 0

-- `PollFlagsSet`
pub record PollFlagsSet : Type 0 where
  pub to_write : ℕ
  pub flags : PollFlags

-- `to_write_.fetch_or`, and whether it set a bit.
unfoldable pub write_flags : PollFlagsSet → PollFlags → Bool × PollFlagsSet
write_flags s f = if empty f then (false, s) else (
  not (bit_and f.raw (complement s.to_write) == 0),
  record s { to_write = bit_or s.to_write f.raw },
)

unfoldable pub write_flags_local : PollFlagsSet → PollFlags → Bool × PollFlagsSet
unfolding add_flags
write_flags_local s f = let (g, changed) = add_flags s.flags f in (changed, record s { flags = g })

-- The flags after the reported ones are taken over: a closed descriptor is no longer writable.
pub taken_over : PollFlags → ℕ → PollFlags
unfolding add_flags can_close remove_flags
taken_over f n =
    let g = (add_flags f (from_raw n)).0 in if can_close g then remove_flags g write_flag else g

-- `flush` behind its test: the exchange of `to_write_` and what is done with its result.
unfoldable pub take_over : PollFlagsSet → Bool × PollFlagsSet
unfolding taken_over
take_over s =
    let g = taken_over s.flags s.to_write in
    (not (g.raw == s.flags.raw), record { to_write = 0; flags = g })

-- `write_flags` of other threads, one after the other.
unfoldable pub write_all : PollFlagsSet → List PollFlags → List Bool × PollFlagsSet
unfolding write_flags
write_all s [] = ([], s)
write_all s (f ∷ fs) = let (b, t) = write_flags s f in let (bs, u) = write_all t fs in (b ∷ bs, u)

-- `flush` has two atomic instructions, the load of the test and the exchange. `meanwhile` is what
-- other threads write between them, or behind the load when that was the last one.
unfoldable pub flush : PollFlagsSet → List PollFlags → Bool × PollFlagsSet
unfolding take_over write_all
flush s meanwhile =
    let t = (write_all s meanwhile).1 in if s.to_write == 0 then (false, t) else take_over t

unfoldable pub read_flags : PollFlagsSet → List PollFlags → PollFlags × PollFlagsSet
unfolding flush
read_flags s meanwhile = let (changed, s') = flush s meanwhile in (s'.flags, s')

abbrev pub read_flags_local : PollFlagsSet → PollFlags
read_flags_local s = s.flags

unfoldable pub clear_flags : PollFlagsSet → PollFlags → PollFlagsSet
unfolding remove_flags
clear_flags s f = record s { flags = remove_flags s.flags f }

abbrev pub clear : PollFlagsSet → PollFlagsSet
clear s = record { to_write = 0; flags = no_flags }

abbrev letter : Bool → ℕ → List ℕ
letter on c = if on then c ∷ [] else []

-- `operator<<`: the bytes that are appended.
unfoldable pub print : PollFlags → List ℕ
unfolding can_read can_write can_close has_pending_error
print f =
    b'['
    ∷ (letter (can_read f) b'R'
        ++ (letter (can_write f) b'W'
            ++ (letter (can_close f) b'C' ++ (letter (has_pending_error f) b'E' ++ (b']' ∷ [])))))
