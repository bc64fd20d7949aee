-- ===== src/Base/Bits.antt =====
-- Laws of `bit_and`, `bit_or` and `bit_xor` at variables, from one equation for the lowest digit.
pub mod Step
pub mod Xor
pub mod Flags
