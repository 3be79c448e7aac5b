-- ===== src/FlatHash/Hole.antt =====
-- FlatHashTable.h: the empty node that `erase_node` leaves, and where it moves.
use native.Mathlib.Decide.{ℕ_discrete}
use pxc_core.Prelude.{
  ℕ, ◌+◌, ◌≤◌, ◌==◌, ◌≡◌, ◌≢◌, sym, ap, ◌∙◌, if◌then◌else◌, true, false, Option, none, some, length,
  set, arith, length-set, Bool-cases, inl, inr,
}
use pxc_core.FlatHash.{Entry, Nodes, node_at, calc_bucket}
use pxc_core.FlatHash.Circle.{between, between_join, between_over, between-suc}
use pxc_core.FlatHash.Nodes.{node_at-set, occupied, occupied-fill, occupied-clear}
use pxc_core.FlatHash.Valid.{Valid, Represents}

-- The entry at `test` moved to `hole`.
abbrev pub moved : {V : Type 0} → Nodes V → ℕ → ℕ → Entry V → Nodes V
moved nodes hole test e = set (set nodes hole (some e)) test none

module _ {V : Type 0} (hash : ℕ → ℕ) where
  -- The nodes after `hole` and before `test` are not empty, and none of their keys is looked for at
  -- `hole`. Elsewhere only `hole` may be empty on the way to a node.
  pub record Hole (nodes : Nodes V) (mask hole test : ℕ) : Type 0 where
    pub size : length nodes ≡ mask + 1
    pub inside : hole ≤ mask
    pub free : node_at nodes hole ≡ none
    pub scanned :
        (j : ℕ) → between hole test j ≡ true → j ≤ mask → j ≢ hole → node_at nodes j ≢ none
    pub settled :
        (i : ℕ) (e : Entry V)
        → node_at nodes i ≡ some e
        → between hole test i ≡ true
        → between (calc_bucket hash mask e.first) i hole ≡ false
    pub reach :
        (i j : ℕ) (e : Entry V)
        → node_at nodes i ≡ some e
        → between (calc_bucket hash mask e.first) i j ≡ true
        → j ≤ mask
        → j ≢ hole
        → node_at nodes j ≢ none
    pub unique :
        (i j : ℕ) (e f : Entry V)
        → node_at nodes i ≡ some e
        → node_at nodes j ≡ some f
        → e.first ≡ f.first
        → i ≡ j
    pub named : (i : ℕ) (e : Entry V) → node_at nodes i ≡ some e → e.first ≢ 0

  pub stay-Hole :
      (nodes : Nodes V) (mask hole test : ℕ) (e : Entry V)
      → Hole nodes mask hole test
      → node_at nodes test ≡ some e
      → between (calc_bucket hash mask e.first) test hole ≡ false
      → Hole nodes mask hole (test + 1)
  stay-Hole nodes mask hole test e h here settled = record {
    size = h.size;
    inside = h.inside;
    free = h.free;
    scanned = λ j way inside apart. elim (ℕ_discrete j test) [
      | yes s ↦ λ z. ground (arith, ap (node_at nodes) s, here, z)
      | no s ↦ h.scanned j (between-suc hole test j way s) inside apart
    ];
    settled = λ i f there way. elim (ℕ_discrete i test) [
      | yes s ↦
          let same : some f ≡ some e = sym there ∙ ap (node_at nodes) s ∙ here in
          let key : f ≡ e = cc in rw (key, s) settled
      | no s ↦ h.settled i f there (between-suc hole test i way s)
    ];
    reach = h.reach;
    unique = h.unique;
    named = h.named;
  }

  -- An empty node at `test` ends the search.
  pub end-Valid :
      (nodes : Nodes V) (mask hole test : ℕ)
      → Hole nodes mask hole test
      → node_at nodes test ≡ none
      → test ≤ mask
      → test ≢ hole
      → Valid hash nodes mask
  end-Valid nodes mask hole test h empty inside apart = record {
    size = h.size;
    reach = λ i j e here way le. elim (ℕ_discrete j hole) [
      | no s ↦ h.reach i j e here way le s
      | yes s ↦
          let home : ℕ = calc_bucket hash mask e.first in
          let way' : between home i hole ≡ true = ap (between home i) (sym s) ∙ way in
          let i_hole : i ≢ hole = λ z. ground (arith, here, h.free, ap (node_at nodes) z) in
          let i_test : i ≢ test = λ z. ground (arith, here, empty, ap (node_at nodes) z) in
          elim (Bool-cases (between hole test i)) [
            | inl w ↦ ground (arith, h.settled i e here w, way')
            | inr w ↦ absurd (
                h.reach i test e here (between_over home i hole test way' w i_hole i_test apart)
                  inside apart empty)
          ]
    ];
    unique = h.unique;
    named = h.named;
  }

  pub node_at-moved :
      (nodes : Nodes V) (mask hole test j : ℕ) (e : Entry V)
      → length nodes ≡ mask + 1
      → hole ≤ mask
      → test ≤ mask
      → node_at (moved nodes hole test e) j
        ≡ (if j == test then none else if j == hole then some e else node_at nodes j)
  node_at-moved nodes mask hole test j e size a b =
      let n : length (set nodes hole (some e)) ≡ length nodes = length-set nodes hole (some e) in
      ground (
        arith,
        node_at-set (set nodes hole (some e)) test j none (omega arith),
        node_at-set nodes hole j (some e) (omega arith),
      )

  pub move-Hole :
      (nodes : Nodes V) (mask hole test : ℕ) (e : Entry V)
      → Hole nodes mask hole test
      → node_at nodes test ≡ some e
      → test ≤ mask
      → between (calc_bucket hash mask e.first) test hole ≡ true
      → Hole (moved nodes hole test e) mask test (test + 1)
  move-Hole nodes mask hole test e h here inside wants =
      let size : length nodes ≡ mask + 1 = h.size in
      let n : length (set nodes hole (some e)) ≡ length nodes = length-set nodes hole (some e) in
      let at = λ (j : ℕ). node_at-moved nodes mask hole test j e size h.inside inside in
      let apart : test ≢ hole = λ z. ground (arith, here, h.free, ap (node_at nodes) z) in
      record {
        size = length-set (set nodes hole (some e)) test none ∙ n ∙ size;
        inside = inside;
        free = ground (arith, at test);
        scanned = λ j way le other. absurd (ground (arith, way));
        settled = λ i f there way.
            let s : i ≡ test = ground (arith, way) in ground (arith, at i, there, s);
        reach = λ i j f there way le other. elim (ℕ_discrete j hole) [
          | yes s ↦ λ z. ground (arith, at j, s, apart, z)
          | no s ↦
              let kept : node_at (moved nodes hole test e) j ≡ node_at nodes j =
                ground (arith, at j, s, other) in
              elim (ℕ_discrete i hole) [
                | yes t ↦
                    let home : ℕ = calc_bucket hash mask e.first in
                    let same : some e ≡ some f = ground (arith, at i, there, t, apart) in
                    let key : f ≡ e = cc in
                    let way' : between home hole j ≡ true =
                      ap (λ k. between home k j) (sym t)
                      ∙ ap (λ (g : Entry V). between (calc_bucket hash mask g.first) i j) (sym key)
                      ∙ way in
                    λ z.
                      h.reach test j e here (between_join home test hole j wants way') le s
                        (sym kept ∙ z)
                | no t ↦
                    let old : node_at nodes i ≡ some f = ground (arith, at i, there, t) in
                    λ z. h.reach i j f old way le s (sym kept ∙ z)
              ]
        ];
        unique = λ i j f g a b same. ground (
          arith,
          at i,
          at j,
          a,
          b,
          same,
          h.unique i j f g,
          h.unique test j e g,
          h.unique i test f e,
          here,
        );
        named = λ i f there. ground (arith, at i, there, h.named i f, h.named test e here);
      }

  pub move-Represents :
      (nodes : Nodes V) (m : ℕ → Option V) (mask hole test : ℕ) (e : Entry V)
      → Hole nodes mask hole test
      → Represents nodes m
      → node_at nodes test ≡ some e
      → test ≤ mask
      → Represents (moved nodes hole test e) m
  move-Represents nodes m mask hole test e h rep here inside =
      let at = λ (j : ℕ). node_at-moved nodes mask hole test j e h.size h.inside inside in
      let apart : test ≢ hole = λ z. ground (arith, here, h.free, ap (node_at nodes) z) in
      record {
        listed = λ i f there. ground (arith, at i, there, rep.listed i f, rep.listed test e here);
        held = λ k v given.
            let (i, there) = rep.held k v given in
            elim (ℕ_discrete i test) [
              | yes s ↦ (hole, ground (arith, at hole, apart, here, there, ap (node_at nodes) s))
              | no s ↦
                  let other : i ≢ hole = λ z. ground (arith, there, h.free, ap (node_at nodes) z) in
                  (i, ground (arith, at i, s, other, there))
            ];
      }

  pub occupied-moved :
      (nodes : Nodes V) (mask hole test : ℕ) (e : Entry V)
      → Hole nodes mask hole test
      → node_at nodes test ≡ some e
      → test ≤ mask
      → occupied (moved nodes hole test e) ≡ occupied nodes
  occupied-moved nodes mask hole test e h here inside =
      let size : length nodes ≡ mask + 1 = h.size in
      let hin : hole ≤ mask = h.inside in
      let apart : test ≢ hole = λ z. ground (arith, here, h.free, ap (node_at nodes) z) in
      let still : node_at (set nodes hole (some e)) test ≡ some e =
        ground (arith, node_at-set nodes hole test (some e) (omega arith), apart, here) in
      omega (
        arith,
        occupied-fill nodes hole e (omega arith) h.free,
        occupied-clear (set nodes hole (some e)) test e still,
      )
