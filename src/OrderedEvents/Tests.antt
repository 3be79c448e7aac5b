-- ===== src/OrderedEvents/Tests.antt =====
-- Runs of OrderedEventsProcessor.h, and its theorems at concrete events.
use pxc_core.Prelude.{
  ℕ, ◌≤◌, ◌<◌, ◌==◌, ◌≡◌, ◌≢◌, ◌↔◌, refl, if◌then◌else◌, true, false, none, some, List, [], ◌∷◌,
  arith, length,
}
use pxc_core.OrderedEvents.{
  Processor, starting_at, clear, add, has_events, max_unfinished_seq_no, max_finished_seq_no,
}
use pxc_core.OrderedEvents.Order.{pending, Inv}
use pxc_core.OrderedEvents.Add.{Handed, add_due, add_early}
use pxc_core.OrderedEvents.History.{run, find, Delivers}
use pxc_core.OrderedEvents.InOrder.{starting_at-Inv, run_in_order}

-- Events 1, 2 and 3, the first of which comes last.
abbrev mixed : List (ℕ × ℕ)
mixed = (3, 30) ∷ (2, 20) ∷ (1, 10) ∷ []

-- Number 3 waits for 1 and 2.
abbrev waiting : Processor ℕ
waiting = record {
  offset = 1;
  begin = 1;
  end = 4;
  data_array = (0, false) ∷ (0, false) ∷ (30, true) ∷ [];
}

mixed_in_order :
    run 0 (starting_at 1) mixed
    ≡ some (
      (1, 10) ∷ (2, 20) ∷ (3, 30) ∷ [],
      record {
        offset = 4;
        begin = 4;
        end = 4;
        data_array = (0, false) ∷ (20, false) ∷ (30, false) ∷ [];
      },
    )
unfolding run add
mixed_in_order = refl

early_run : add 0 (starting_at 1) 3 30 ≡ some ([], waiting)
unfolding add
early_run = refl

waiting_reads :
    (has_events waiting ≡ true)
    × (max_unfinished_seq_no waiting ≡ 3)
    × (max_finished_seq_no waiting ≡ 0)
    × (clear waiting ≡ (30 ∷ [], starting_at 1))
unfolding has_events max_unfinished_seq_no max_finished_seq_no clear
waiting_reads = (refl, refl, refl, refl)

mixed-find : (s : ℕ) → (find s mixed ≢ none) ↔ ((1 ≤ s) × (s < 4))
unfolding find
mixed-find s = (λ h. ground arith, λ r e. ground arith)

run_in_order_example :
    (out : List (ℕ × ℕ)) × (q : Processor ℕ) × (run 0 (starting_at 1) mixed ≡ some (out, q))
    × Delivers (λ s. find s mixed) 1 out
    × (length out ≡ 3)
    × (q.begin ≡ 4)
run_in_order_example =
    run_in_order 0 1 3 mixed (omega arith) (unfold find in (refl, (refl, (refl, tt)))) mixed-find

add_due_example :
    (out : List (ℕ × ℕ)) × (q : Processor ℕ) × (add 0 (starting_at 1) 1 10
      ≡ some ((1, 10) ∷ out, q))
    × Handed (starting_at 1) out q
add_due_example = add_due 0 (starting_at 1) 10 (starting_at-Inv 1 (omega arith)) (omega arith)

add_early_example :
    (q : Processor ℕ) × (add 0 (starting_at 1) 3 30 ≡ some ([], q))
    × Inv q
    × (q.begin ≡ 1)
    × ((s : ℕ) → pending q s ≡ (if s == 3 then some 30 else pending (starting_at 1) s))
add_early_example =
    add_early 0 (starting_at 1) 3 30 (starting_at-Inv 1 (omega arith)) (omega arith) (omega arith)
