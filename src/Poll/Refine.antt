-- ===== src/Poll/Refine.antt =====
-- PollFlags.cpp against a specification on sets of flags: what each call returns and leaves.
use mathlib.Core.Bool.{◌&&◌, ◌||◌}
use pxc_core.Prelude.{
  sym, subst, ◌<◌, ◌==◌, ◌≡◌, refl, ap, ap₂, ◌∙◌, inl, inr, if◌then◌else◌, Bool, true, false, not,
  List, [], ◌∷◌, arith, Bool-cases,
}
use pxc_core.Poll.{
  PollFlags, PollFlagsSet, from_raw, no_flags, write_flag, can_read, can_write, can_close,
  has_pending_error, add_flags, write_flags, write_flags_local, taken_over, take_over, write_all,
  flush, read_flags, clear_flags,
}
use pxc_core.Poll.Bits.{
  View, view, zip_view, same_view, any, IsValid, add_flags-view, remove_flags-view, empty-view,
  eq-view, fresh-view,
}

abbrev pub union : View → View → View
union = zip_view ◌||◌

abbrev pub minus : View → View → View
minus = zip_view (λ x y. x && not y)

-- The flags that other threads reported, and those that the owner has taken over.
pub record Flags : Type 0 where
  pub reported : View
  pub current : View

pub data Call : Type 0 where
  writes writes_local clears : PollFlags → Call
  -- With what other threads write between the two atomic instructions of the call.
  flushes reads : List PollFlags → Call
  resets : Call

pub data Answer : Type 0 where
  changed : Bool → Answer
  -- With the answers to the threads that wrote meanwhile.
  flushed : Bool → List Bool → Answer
  flags : View → List Bool → Answer
  done : Answer

abbrev pub AllFlags : List PollFlags → Type 0
AllFlags [] = Unit
AllFlags (f ∷ fs) = IsValid f × AllFlags fs

abbrev pub IsValidCall : Call → Type 0
IsValidCall (writes f) = IsValid f
IsValidCall (writes_local f) = IsValid f
IsValidCall (clears f) = IsValid f
IsValidCall (flushes fs) = AllFlags fs
IsValidCall (reads fs) = AllFlags fs
IsValidCall resets = Unit

-- A call on the class.
unfoldable pub step : PollFlagsSet → Call → Answer × PollFlagsSet
step s (writes f) = let (b, s') = write_flags s f in (changed b, s')
step s (writes_local f) = let (b, s') = write_flags_local s f in (changed b, s')
step s (clears f) = (done, clear_flags s f)
step s (flushes fs) = let (b, s') = flush s fs in (flushed b (write_all s fs).0, s')
step s (reads fs) = let (f, s') = read_flags s fs in (flags (view f) (write_all s fs).0, s')
step s resets = (done, record s { to_write = 0; flags = no_flags })

-- A closed descriptor is not writable.
abbrev pub settle : View → View
settle v = if v.closed then record v { writable = false } else v

abbrev pub taken : Flags → Flags
taken s = record { reported = view no_flags; current = settle (union s.current s.reported) }

abbrev pub spec_write : Flags → PollFlags → Bool × Flags
spec_write s f =
    (any (minus (view f) s.reported), record s { reported = union s.reported (view f) })

abbrev pub spec_write_all : Flags → List PollFlags → List Bool × Flags
spec_write_all s [] = ([], s)
spec_write_all s (f ∷ fs) =
    let (b, t) = spec_write s f in let (bs, u) = spec_write_all t fs in (b ∷ bs, u)

-- A flush that finds something reported takes over all that is reported by then, what is reported
-- after it looked included; any other takes over nothing.
abbrev pub spec_flush : Flags → List PollFlags → Flags
spec_flush s fs = let t = (spec_write_all s fs).1 in if any s.reported then taken t else t

-- The same call on the sets.
unfoldable pub spec_step : Flags → Call → Answer × Flags
spec_step s (writes f) = let (b, t) = spec_write s f in (changed b, t)
spec_step s (writes_local f) =
    let v = union s.current (view f) in
    (changed (not (same_view s.current v)), record s { current = v })
spec_step s (clears f) = (done, record s { current = minus s.current (view f) })
spec_step s (flushes fs) =
    let t = spec_flush s fs in
    (flushed (not (same_view t.current s.current)) (spec_write_all s fs).0, t)
spec_step s (reads fs) = let t = spec_flush s fs in (flags t.current (spec_write_all s fs).0, t)
spec_step s resets = (done, record { reported = view no_flags; current = view no_flags })

unfoldable pub sets : PollFlagsSet → Flags
sets s = record { reported = view (from_raw s.to_write); current = view s.flags }

-- No bit but the four flags'.
pub record IsValidSet (s : PollFlagsSet) : Type 0 where
  pub reported : s.to_write < 16
  pub current : IsValid s.flags

-- One call answers what the specification answers, and leaves its sets.
abbrev pub Refines : PollFlagsSet → Call → Type 0
Refines s c =
    ((step s c).0 ≡ (spec_step (sets s) c).0)
    × (sets (step s c).1 ≡ (spec_step (sets s) c).1)
    × IsValidSet (step s c).1

minus_write : (w : View) → minus w (view write_flag) ≡ record w { writable = false }
unfolding view can_read can_write can_close has_pending_error
minus_write w = ground arith

same_view_refl : (w : View) → same_view w w ≡ true
same_view_refl w = ground arith

module _ (s : PollFlagsSet) (v : IsValidSet s) where
  write_flags-Refines :
      (f : PollFlags)
      → IsValid f
      → ((write_flags s f).0 ≡ (spec_write (sets s) f).0)
        × (sets (write_flags s f).1 ≡ (spec_write (sets s) f).1)
        × IsValidSet (write_flags s f).1
        × ((write_flags s f).1.flags ≡ s.flags)
  unfolding sets write_flags add_flags any
  write_flags-Refines f vf =
      let e = empty-view f vf in
      let new = fresh-view f s.to_write vf v.reported in
      let (a, b, c) = add_flags-view (from_raw s.to_write) f v.reported vf in
      elim (Bool-cases (f.raw == 0)) [
        | inl none ↦ (
          ground (arith, e, none),
          ground (arith, e, none),
          ground (arith, v, none),
          rw none refl,
        )
        | inr some ↦ (
          rw (some, new),
          rw (some, a),
          rw some (record { reported = c; current = v.current }),
          rw some refl,
        )
      ]

  writes-Refines : (f : PollFlags) → IsValid f → Refines s (writes f)
  unfolding step spec_step
  writes-Refines f vf = let (a, b, c, d) = write_flags-Refines f vf in (ap changed a, b, c)

  writes_local-Refines : (f : PollFlags) → IsValid f → Refines s (writes_local f)
  unfolding step spec_step sets write_flags_local
  writes_local-Refines f vf =
      let (a, b, c) = add_flags-view s.flags f v.current vf in
      (ground (arith, a, b), ground (arith, a), record { reported = v.reported; current = c })

  clears-Refines : (f : PollFlags) → IsValid f → Refines s (clears f)
  unfolding step spec_step sets clear_flags
  clears-Refines f vf =
      let (a, c) = remove_flags-view s.flags f v.current vf in
      (refl, ground (arith, a), record { reported = v.reported; current = c })

  taken_over-view :
      (view (taken_over s.flags s.to_write)
        ≡ settle (union (view s.flags) (view (from_raw s.to_write))))
      × IsValid (taken_over s.flags s.to_write)
  unfolding taken_over
  taken_over-view =
      let (a, b, c) = add_flags-view s.flags (from_raw s.to_write) v.current v.reported in
      let g : PollFlags = (add_flags s.flags (from_raw s.to_write)).0 in
      let (d, e) = remove_flags-view g write_flag c (omega arith) in
      let k : can_close g ≡ (view g).closed = unfold view in refl in
      let w : minus (view g) (view write_flag) ≡ record (view g) { writable = false } =
        minus_write (view g) in
      elim (Bool-cases (can_close g)) [
        | inl closed ↦ (rw closed (ground (arith, a, d, w, k, closed)), rw closed e)
        | inr open_ ↦ (rw open_ (ground (arith, a, k, open_)), rw open_ c)
      ]

  take_over-Refines :
      (sets (take_over s).1 ≡ taken (sets s))
      × ((take_over s).0 ≡ not (same_view (taken (sets s)).current (view s.flags)))
      × IsValidSet (take_over s).1
  unfolding take_over sets
  take_over-Refines =
      let (a, c) = taken_over-view in
      let n = eq-view (taken_over s.flags s.to_write) s.flags c v.current in
      (rw a refl, rw (n, a) refl, record { reported = omega arith; current = c })

write_all-Refines :
    (s : PollFlagsSet) (fs : List PollFlags)
    → IsValidSet s
    → AllFlags fs
    → ((write_all s fs).0 ≡ (spec_write_all (sets s) fs).0)
      × (sets (write_all s fs).1 ≡ (spec_write_all (sets s) fs).1)
      × IsValidSet (write_all s fs).1
      × ((write_all s fs).1.flags ≡ s.flags)
unfolding write_all
write_all-Refines s [] v h = (refl, refl, v, refl)
write_all-Refines s (f ∷ fs) v h =
    let (a, b, w, same) = write_flags-Refines s v f h.0 in
    let (c, d, u, same') = write_all-Refines (write_flags s f).1 fs w h.1 in
    (
      ap₂ (λ x xs. x ∷ xs) a (c ∙ ap (λ t. (spec_write_all t fs).0) b),
      d ∙ ap (λ t. (spec_write_all t fs).1) b,
      u,
      same' ∙ same,
    )

-- The answer and the state of a flush of `s` that leaves the sets `t`.
abbrev Flushed : PollFlagsSet → Flags → Bool × PollFlagsSet → Type 0
Flushed s t r = (sets r.1 ≡ t) × (r.0 ≡ not (same_view t.current (view s.flags))) × IsValidSet r.1

flush-Refines :
    (s : PollFlagsSet) (fs : List PollFlags)
    → IsValidSet s
    → AllFlags fs
    → Flushed s (spec_flush (sets s) fs) (flush s fs)
unfolding flush sets
flush-Refines s fs v h =
    let (a, b, w, same) = write_all-Refines s fs v h in
    let t : PollFlagsSet = (write_all s fs).1 in
    let u : Flags = (spec_write_all (sets s) fs).1 in
    let e = empty-view (from_raw s.to_write) v.reported in
    let code : Bool → Bool × PollFlagsSet = λ test. if test then (false, t) else take_over t in
    let spec : Bool → Flags = λ test. if test then taken u else u in
    elim (Bool-cases (s.to_write == 0)) [
      | inl idle ↦
          let z : any (view (from_raw s.to_write)) ≡ false = ground (arith, e, idle) in
          let kept : u.current ≡ view s.flags =
            sym (ap (λ (x : Flags). x.current) b) ∙ ap view same in
          let quiet : false ≡ not (same_view u.current (view s.flags)) =
            sym (rw (kept, same_view_refl (view s.flags)) refl) in
          subst (Flushed s (spec_flush (sets s) fs)) (sym (ap code idle))
            (subst (λ x. Flushed s x (false, t)) (sym (ap spec z)) (b, quiet, w))
      | inr busy ↦
          let z : any (view (from_raw s.to_write)) ≡ true = ground (arith, e, busy) in
          let (c, d, x) = take_over-Refines t w in
          let news : (take_over t).0 ≡ not (same_view (taken u).current (view s.flags)) =
            d ∙ ap₂ (λ (y : Flags) k. not (same_view (taken y).current k)) b (ap view same) in
          subst (Flushed s (spec_flush (sets s) fs)) (sym (ap code busy))
            (subst (λ y. Flushed s y (take_over t)) (sym (ap spec z)) (c ∙ ap taken b, news, x))
    ]

-- Every call on a set of flags answers as its specification does, and leaves the sets that the
-- specification leaves.
pub step-Refines : (s : PollFlagsSet) → IsValidSet s → (c : Call) → IsValidCall c → Refines s c
step-Refines s v (writes f) h = writes-Refines s v f h
step-Refines s v (writes_local f) h = writes_local-Refines s v f h
step-Refines s v (clears f) h = clears-Refines s v f h
step-Refines s v (flushes fs) h =
    let (a, b, c) = flush-Refines s fs v h in
    unfold step spec_step sets in (ap₂ flushed b (write_all-Refines s fs v h).0, a, c)
step-Refines s v (reads fs) h =
    let (a, b, c) = flush-Refines s fs v h in
    unfold step spec_step sets read_flags in
    (ap₂ (λ w bs. flags w.current bs) a (write_all-Refines s fs v h).0, a, c)
step-Refines s v resets h = unfold step spec_step sets in (refl, refl, omega arith)

-- The answers to a sequence of calls, and the state behind them.
pub run : PollFlagsSet → List Call → List Answer × PollFlagsSet
run s [] = ([], s)
run s (c ∷ cs) = let (a, s') = step s c in let (as_, t) = run s' cs in (a ∷ as_, t)

pub spec_run : Flags → List Call → List Answer × Flags
spec_run s [] = ([], s)
spec_run s (c ∷ cs) = let (a, s') = spec_step s c in let (as_, t) = spec_run s' cs in (a ∷ as_, t)

abbrev pub AllValid : List Call → Type 0
AllValid [] = Unit
AllValid (c ∷ cs) = IsValidCall c × AllValid cs

-- Over any interleaving of the calls of all threads, with any writes of other threads between the
-- load and the exchange of a flush, the class answers as the sets of flags do, and ends with the
-- same sets.
pub run-spec_run :
    (s : PollFlagsSet) (cs : List Call)
    → IsValidSet s
    → AllValid cs
    → ((run s cs).0 ≡ (spec_run (sets s) cs).0) × (sets (run s cs).1 ≡ (spec_run (sets s) cs).1)
unfolding run spec_run
run-spec_run s [] v h = (refl, refl)
run-spec_run s (c ∷ cs) v h =
    let (a, b, w) = step-Refines s v c h.0 in
    let (d, e) = run-spec_run (step s c).1 cs w h.1 in
    (ap₂ (λ x xs. x ∷ xs) a (d ∙ ap (λ t. (spec_run t cs).0) b), e ∙ ap (λ t. (spec_run t cs).1) b)
