-- ===== src/Base.antt =====
-- What the modules share: the libraries' names, passed on, Boolean tests, lists indexed by native
-- numbers, C's 32-bit and 64-bit words, the binary digits of numbers, and strong induction.
mod Tests
mod Lists
mod Order
mod Words
mod Bits
mod Memory
mod Results
pub use Tests.*
pub use Lists.*
pub use Words.*
pub use Bits.*
pub use Memory.*
unfoldable pub use Memory.{store, load, c_string}
pub use Results.*
unfoldable pub use Order.{lt_wf}
pub use Prim.Native.Nat.{ℕ, zero, suc, ◌+◌, ◌-◌, ◌*◌, ◌/◌, ◌%◌, ◌^◌, ◌≤◌, ◌<◌, min, max}
pub use Prim.Native.Nat.{bit_and, bit_or, bit_xor}
pub use mathlib.Core.Path.{◌≡◌, refl, sym, ap, ap₂, subst, ◌∙◌, fun_ext, ◌≡⟨◌⟩◌, ◌∎}
pub use mathlib.Core.Logic.{◌≢◌, ◌↔◌, ◌⊎◌, inl, inr}
pub use mathlib.Core.Bool.{Bool, true, false, not, ◌&&◌, ◌||◌}
pub use mathlib.Core.Option.{Option, none, some}
pub use mathlib.Core.List.{List, [], ◌∷◌, ◌++◌, map, append-nil, append_assoc}
pub use native.Mathlib.Omega.{arith}
unfoldable pub use native.Mathlib.Decide.{dec_lt, dec_le, ℕ_discrete}
