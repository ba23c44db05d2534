-- ===== src/Compressor.antt =====
-- src/offload_server/compact/compressor.ts: the messages of a conversation are shortened or deleted
-- until their tokens fit. The array of messages and the array of their tokens, which every step
-- changes at the same index, are one list of slots; a `Set` of indices is a list of marks, one for
-- each slot. A number that the source lets go below zero is a difference of two numbers.
pub mod Slots
pub mod Truncate
pub mod Marks
pub mod Pairs
pub mod Deletion
pub mod Levels
pub mod Aggressive
pub mod Emergency
pub mod Mild
pub mod Oversized
pub mod Endless
pub mod Passes
pub mod Below
pub mod Steps
pub mod Closure
pub mod Batch
pub mod Keeps
pub mod Untouched
pub mod Stays
pub mod Accounts
pub mod Restored
pub mod Replaced
pub mod Examples
