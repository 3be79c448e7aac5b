-- ===== src/Poll/Bits.antt =====
-- PollFlags.h as a set: each operation read through the four questions that the class answers.
use Prim.Native.Nat.{bit_and, bit_or}
use mathlib.Core.Bool.{◌&&◌, ◌||◌}
use pxc_core.Prelude.{
  ℕ, ◌<◌, ◌==◌, ltb, ◌≡◌, refl, Bool, true, false, not, arith, all_below, all_below→, all_pairs,
  all_pairs→,
}
use pxc_core.Poll.{
  PollFlags, from_raw, complement, can_read, can_write, can_close, has_pending_error, add_flags,
  remove_flags,
}

-- The set as four answers.
pub record View : Type 0 where
  pub readable : Bool
  pub writable : Bool
  pub closed : Bool
  pub failed : Bool

unfoldable pub view : PollFlags → View
view f = record {
  readable = can_read f;
  writable = can_write f;
  closed = can_close f;
  failed = has_pending_error f;
}

abbrev pub zip_view : (Bool → Bool → Bool) → View → View → View
zip_view op v w = record {
  readable = op v.readable w.readable;
  writable = op v.writable w.writable;
  closed = op v.closed w.closed;
  failed = op v.failed w.failed;
}

-- No bit but the four flags'.
abbrev pub IsValid : PollFlags → Type 0
IsValid f = f.raw < 16

abbrev pub same_bit : Bool → Bool → Bool
same_bit true b = b
same_bit false b = not b

same_bit→ : (a b : Bool) → same_bit a b ≡ true → a ≡ b
same_bit→ a b h = ground arith

abbrev pub same_view : View → View → Bool
same_view v w =
    same_bit v.readable w.readable
    && (same_bit v.writable w.writable
        && (same_bit v.closed w.closed && same_bit v.failed w.failed))

same_view→ : (v w : View) → same_view v w ≡ true → v ≡ w
same_view→ v w h = ground arith

add_table :
    all_pairs 16 16 (λ a b.
      same_view
        (view (from_raw (bit_or a b)))
        (zip_view ◌||◌ (view (from_raw a)) (view (from_raw b)))
      && ltb (bit_or a b) 16)
    ≡ true
unfolding all_pairs view can_read can_write can_close has_pending_error
add_table = refl

remove_table :
    all_pairs 16 16 (λ a b.
      same_view
        (view (from_raw (bit_and a (complement b))))
        (zip_view (λ x y. x && not y) (view (from_raw a)) (view (from_raw b)))
      && ltb (bit_and a (complement b)) 16)
    ≡ true
unfolding all_pairs view can_read can_write can_close has_pending_error
remove_table = refl

-- Whether a set has a flag.
unfoldable pub any : View → Bool
any v = v.readable || (v.writable || (v.closed || v.failed))

zero_table : all_below 16 (λ a. same_bit (not (a == 0)) (any (view (from_raw a)))) ≡ true
unfolding all_below view can_read can_write can_close has_pending_error any
zero_table = refl

raw_table :
    all_pairs 16 16 (λ a b. same_bit (a == b) (same_view (view (from_raw a)) (view (from_raw b))))
    ≡ true
unfolding all_pairs view can_read can_write can_close has_pending_error
raw_table = refl

module _ (f g : PollFlags) (vf : IsValid f) (vg : IsValid g) where
  -- Adding flags is the union, and says whether the set changed.
  pub add_flags-view :
      (view (add_flags f g).0 ≡ zip_view ◌||◌ (view f) (view g))
      × ((add_flags f g).1 ≡ not (same_view (view f) (view (add_flags f g).0)))
      × IsValid (add_flags f g).0
  unfolding add_flags
  add_flags-view =
      let row = all_pairs→ 16 16 _ f.raw g.raw add_table vf vg in
      let valid : bit_or f.raw g.raw < 16 = ground (arith, row) in
      let raw = all_pairs→ 16 16 _ f.raw (bit_or f.raw g.raw) raw_table vf valid in
      (same_view→ _ _ (ground (arith, row)), ground (arith, raw), valid)

  -- Removing flags is the difference.
  pub remove_flags-view :
      (view (remove_flags f g) ≡ zip_view (λ x y. x && not y) (view f) (view g))
      × IsValid (remove_flags f g)
  unfolding remove_flags
  remove_flags-view =
      let row = all_pairs→ 16 16 _ f.raw g.raw remove_table vf vg in
      (same_view→ _ _ (ground (arith, row)), ground (arith, row))

-- A set is empty when it has no flag.
pub empty-view : (f : PollFlags) → IsValid f → (f.raw == 0) ≡ not (any (view f))
empty-view f v = let row = all_below→ 16 _ f.raw zero_table v in ground (arith, row)

-- Two sets with the same flags are the same.
pub eq-view :
    (f g : PollFlags) → IsValid f → IsValid g → (f.raw == g.raw) ≡ same_view (view f) (view g)
eq-view f g vf vg = let row = all_pairs→ 16 16 _ f.raw g.raw raw_table vf vg in ground (arith, row)

fresh_table :
    all_pairs 16 16 (λ a b.
      same_bit
        (not (bit_and a (complement b) == 0))
        (any (zip_view (λ x y. x && not y) (view (from_raw a)) (view (from_raw b)))))
    ≡ true
unfolding all_pairs view can_read can_write can_close has_pending_error any
fresh_table = refl

-- `f & ~g` is not zero when `f` has a flag that `g` lacks.
pub fresh-view :
    (f : PollFlags) (n : ℕ)
    → IsValid f
    → n < 16
    → not (bit_and f.raw (complement n) == 0)
      ≡ any (zip_view (λ x y. x && not y) (view f) (view (from_raw n)))
fresh-view f n vf vn = let row = all_pairs→ 16 16 _ f.raw n fresh_table vf vn in ground (arith, row)
