-- ===== src/Base.antt =====
-- What every module shares: the libraries' names passed on, C words and tests (Base/Word), signed
-- views of words (Base/Signed), arrays as functions (Base/Array), actions on a state that can
-- exit or crash (Base/Action) with their invariants (Base/Invariant), and laws of bits (Base/Bits).
pub mod Test
pub mod Word
pub mod Signed
pub mod Array
pub mod Action
pub mod Invariant
pub mod Bits
pub use Test.*
pub use Word.*
pub use Signed.*
pub use Array.*
unfoldable pub use Action.*
pub use Invariant.*
pub use Prim.Native.Nat.{
  ℕ, zero, suc, ◌+◌, ◌-◌, ◌*◌, ◌/◌, ◌%◌, ◌^◌, ◌≤◌, ◌<◌, min, max, bit_and, bit_or, bit_xor,
}
pub use mathlib.Core.Path.{◌≡◌, refl, sym, ap, ◌∙◌, subst, fun_ext}
pub use mathlib.Core.Logic.{◌≢◌, ◌↔◌, ◌⊎◌, inl, inr}
pub use mathlib.Core.Bool.{Bool, true, false, not, ◌&&◌, ◌||◌}
pub use mathlib.Core.Option.{Option, none, some}
pub use mathlib.Core.List.{List, [], ◌∷◌, ◌++◌}
pub use native.Mathlib.Omega.{arith}
