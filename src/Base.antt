-- ===== src/Base.antt =====
-- Names, tests and containers that every part of the model shares. A Go string or []byte is the
-- list of its bytes; a Go map is an association list with one entry for each key.
pub mod Tests
pub mod Strings
pub mod Map
pub mod Int
pub mod Word
pub mod Trim
pub mod Split
pub mod Lower
pub mod Float
unfoldable pub use Tests.*
unfoldable pub use Strings.*
pub use Prim.Native.Nat.{ℕ, zero, suc, ◌+◌, ◌-◌, ◌*◌, ◌/◌, ◌%◌, ◌^◌, ◌≤◌, ◌<◌}
pub use mathlib.Core.Path.{◌≡◌, refl, sym, ap, ◌∙◌, subst}
pub use mathlib.Core.Logic.{◌≢◌, ◌↔◌, ◌⊎◌, inl, inr}
pub use mathlib.Core.Bool.{Bool, true, false, not, ◌&&◌, ◌||◌}
pub use mathlib.Core.Option.{Option, none, some}
pub use mathlib.Core.List.{List, [], ◌∷◌, ◌++◌, map, append-nil, append_assoc}
pub use native.Mathlib.Omega.{arith}
