-- ===== src/FlatHash/Fill.antt =====
-- FlatHashTable.h: an entry written to the empty node that the search for its key ends at, and
-- `resize`, which does so with every entry.
use native.Mathlib.Decide.{ℕ_discrete}
use pxc_core.Prelude.{
  ℕ, ◌+◌, ◌≤◌, ◌≡◌, ◌≢◌, ap, ◌∙◌, Option, none, some, length, set, arith, length-set,
}
use pxc_core.FlatHash.{Entry, Nodes, node_at, calc_bucket}
use pxc_core.FlatHash.Circle.{between}
use pxc_core.FlatHash.Nodes.{node_at-set}
use pxc_core.FlatHash.Valid.{Valid, Represents, update}
use pxc_core.FlatHash.Find.{Absent, Clear}

module _ {V : Type 0} (hash : ℕ → ℕ) where
  pub fill-Valid :
      (nodes : Nodes V) (mask i key : ℕ) (value : V) (valid : Valid hash nodes mask)
      → i ≤ mask
      → node_at nodes i ≡ none
      → Absent hash nodes mask key valid
      → Clear hash nodes mask key valid i
      → key ≢ 0
      → Valid hash (set nodes i (some (record { first = key; second = value }))) mask
  fill-Valid nodes mask i key value valid hi empty absent clear named =
      let e : Entry V = record { first = key; second = value } in
      let size : length nodes ≡ mask + 1 = valid.size in
      let at = λ (j : ℕ). node_at-set nodes i j (some e) (omega arith) in
      record {
        size = length-set nodes i (some e) ∙ size;
        reach = λ j k f here way inside. elim (ℕ_discrete j i) [
          | yes s ↦ ground (
            arith,
            at j,
            at k,
            here,
            way,
            s,
            clear k,
            ap (λ n. between (calc_bucket hash mask f.first) n k) s,
          )
          | no s ↦ ground (arith, at j, at k, s, here, valid.reach j k f)
        ];
        unique = λ j k f g a b same.
            ground (arith, at j, at k, a, b, same, valid.unique j k f g, absent j f, absent k g);
        named = λ j f here. ground (arith, at j, here, named, valid.named j f);
      }

  pub fill-Represents :
      (nodes : Nodes V) (m : ℕ → Option V) (mask i key : ℕ) (value : V)
      (valid : Valid hash nodes mask)
      → Represents nodes m
      → i ≤ mask
      → node_at nodes i ≡ none
      → Absent hash nodes mask key valid
      → Represents
          (set nodes i (some (record { first = key; second = value })))
          (update m key (some value))
  fill-Represents nodes m mask i key value valid rep hi empty absent =
      let e : Entry V = record { first = key; second = value } in
      let size : length nodes ≡ mask + 1 = valid.size in
      let at = λ (j : ℕ). node_at-set nodes i j (some e) (omega arith) in
      record {
        listed = λ j f here. ground (arith, at j, here, absent j f, rep.listed j f);
        held = λ k v given. elim (ℕ_discrete k key) [
          | yes s ↦ (i, ground (arith, at i, given, s))
          | no s ↦
              let old : m k ≡ some v = ground (arith, given, s) in
              let (j, here) = rep.held k v old in (j, ground (arith, at j, here, empty))
        ];
      }
