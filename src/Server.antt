-- ===== src/Server.antt =====
-- server/: the server's side of a game. `Api` is what it uses of a socket, `Client` a player,
-- `State` the server's state with kicking and broadcasting, `Loop` the handlers of its main loop,
-- `Listening` the loop over the connections that the thread of the listener adds meanwhile.
-- `Main` is the whole program.
-- `Kick`, `Informed`, `Broadcast`, `Thinning`, `Shrinking`, `Invariant`, `Safety`, `Flush`, `Flushed`,
-- `Teams`, `Joining`, `Draining`, `Serving`, `Nobody` and `Refinement` have the proofs, the last one
-- against the contract that `Lobby` states.
pub mod Api
pub mod Client
pub mod State
pub mod Loop
pub mod Kick
pub mod Informed
pub mod Broadcast
pub mod Thinning
pub mod Shrinking
pub mod Invariant
pub mod Safety
pub mod Flush
pub mod Flushed
pub mod Teams
pub mod Joining
pub mod Lobby
pub mod Refinement
pub mod Main
pub mod Nobody
pub mod Listening
pub mod Draining
pub mod Serving
