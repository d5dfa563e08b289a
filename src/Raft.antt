-- ===== src/Raft.antt =====
-- One node of 6.824/src/Raft/raft.cpp: its state, its wire and file formats, and its handlers.
pub mod State
pub mod Codec
pub mod Persist
pub mod Vote
pub mod Election
pub mod Append
pub mod Leader
pub mod Node
pub mod Tests
