-- ===== src/Raft/Leader/Commit.antt =====
-- Which entries a leader of 6.824/src/Raft/raft.cpp commits: the place
-- `tmpIndex[tmpIndex.size() / 2]` of the sorted match indices.
pub mod Sorted
pub mod Quorum
pub mod Phantom
