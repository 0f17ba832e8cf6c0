-- ===== src/Common.antt =====
-- The names that the other modules share: the libraries' names passed on, and those of the
-- children: tests on numbers, lists of bytes, Go errors, and the byte sources and sinks of `io`.
mod Tests
mod Lists
mod Results
mod Io
mod Int
pub use Tests.*
pub use Lists.*
pub use Results.*
unfoldable pub use Io.*
unfoldable pub use Int.*
pub use Prim.Native.Nat.{ℕ, zero, suc, ◌+◌, ◌-◌, ◌*◌, ◌/◌, ◌%◌, ◌^◌, ◌≤◌, ◌<◌, min}
pub use mathlib.Core.Path.{◌≡◌, refl, sym, ap, ◌∙◌}
pub use mathlib.Core.Logic.{◌≢◌, ◌↔◌, ◌⊎◌, inl, inr}
pub use mathlib.Core.Bool.{Bool, true, false, not, ◌&&◌, ◌||◌}
pub use mathlib.Core.Option.{Option, none, some}
pub use mathlib.Core.List.{List, [], ◌∷◌, ◌++◌, map, append-nil, append_assoc}
pub use native.Mathlib.Omega.{arith}
