-- ===== src/Prelude.antt =====
-- The names that the modules share: the libraries', passed on, and those of the children:
-- Boolean tests on the native numbers (`Tests`), lists indexed by them (`Lists`), machine words (`Words`) and
-- checks by evaluation (`Tables`).
mod Tests
mod Lists
mod Words
mod Tables
mod Results
pub use Tests.*
pub use Lists.*
pub use Words.*
unfoldable pub use Tables.*
unfoldable pub use Results.*
pub use Prim.Native.Nat.{ℕ, zero, suc, ◌+◌, ◌-◌, ◌*◌, ◌/◌, ◌%◌, ◌^◌, ◌≤◌, ◌<◌, min, max}
pub use mathlib.Core.Path.{◌≡◌, refl, sym, ap, ap₂, subst, fun_ext, ◌∙◌}
pub use mathlib.Core.Logic.{◌≢◌, ◌↔◌, ◌⊎◌, inl, inr}
pub use mathlib.Core.Bool.{Bool, true, false, not, ◌&&◌, ◌||◌}
pub use mathlib.Core.Option.{Option, none, some}
pub use mathlib.Core.List.{List, [], ◌∷◌, ◌++◌, map}
pub use native.Mathlib.Omega.{arith}
