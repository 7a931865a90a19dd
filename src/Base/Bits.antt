-- ===== src/Base/Bits.antt =====
-- Laws of &, | and ^ at variables: the native operations digit by digit (Step), the bits and bounds
-- of a result (Laws), single flags (Flags), and flags that are set, cleared or copied (Set).
mod Step
mod Laws
mod Flags
mod Set
pub use Laws.*
pub use Flags.*
pub use Set.*
