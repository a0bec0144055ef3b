-- ===== src/Stdlib.antt =====
-- programs/stdlib/src: the C library of the user programs, over the memory of a process. Its string
-- and memory functions that the kernel has too are those of Strings and Memory.
pub mod Numbers
pub mod Line
pub mod Tokens
pub mod Printf
