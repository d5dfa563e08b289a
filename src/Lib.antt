-- ===== src/Lib.antt =====
-- Verification of the repository's own C++ programs.
--
-- The repository collects several projects. This library models the ones that are its own code:
-- one node of the Raft protocol of the 6.824 course (6.824/src/Raft/raft.cpp), the shard master of
-- its lab 4 (6.824/src/shardKv/shardmaster), the key/value server of its lab 3 (6.824/src/kvRaft),
-- the reduce phase of the MapReduce master of its lab 1 (6.824/src/MapReduce/master.cpp) and the
-- allocator of ConcurrentMemoryPool (ConcurrentMemoryPool/ConcurrentMemoryPool). The copies of
-- other projects (muduo/muduo, muduo/muduo-protorpc, muduo/muduo-tutorial, the buttonrpc-master
-- folders and 6.824/src/shardKv/Skiplist-CPP) are not modelled.
--
-- Prelude: lists, integers, tests, maps as association lists, and decimal text that the parts
-- share. A C `int` is an unbounded integer (`ℤ`); a `size_t` of the allocator is a number whose
-- arithmetic wraps at 2^64.
--
-- Raft: a node. State has the members of class Raft and the messages; Codec the text form of log
-- entries (getCmdAndTerm and the text that sendAppendEntries builds); Persist the persister's file
-- (serialize, deserialize, saveRaftState, readRaftState); Vote requestVote and checkLogUptodate;
-- Election electionLoop and callRequestVote; Append appendEntries; Leader sendAppendEntries,
-- start, processEntriesLoop, applyLogLoop. The nodes interact by messages alone: the arguments of
-- one node's append_args or vote_args go to another's append_entries or request_vote, and the
-- reply to append_reply or vote_reply. Each function models what runs under m_lock without a
-- break; a handler that gives the lock up (requestVote, callRequestVote, sendAppendEntries,
-- electionLoop at its wait) is several functions. Node makes events of them, and a history of a node
-- is a sequence of events; its event for a vote request joins the two sections of requestVote, so a
-- history is one in which no other thread comes between them, and Node/Race is about one that does.
-- Clock readings, the random timeout, messages and client calls are arguments. So are the bytes
-- behind the buffer of deserialize, which has no terminating NUL: the code makes a string of the
-- buffer and of what follows it in memory up to the first NUL (`behind`). A result `none` is a fault
-- of the code: an access out of range. Sockets, threads, printing and the opening of files are not
-- modelled; opening, reading and writing the persister's file are taken to succeed. Leader/BackOff
-- has the rounds in which a leader goes back until a peer takes its message.
--
-- ShardMaster: the service that assigns ten shards to groups of servers. Codec has the texts in
-- which groups, numbers and configurations cross the network (common.h); Balance balanceWorkLoad;
-- Service Operation and ApplyMsg (raft.hpp) and doJoinLeaveMove; Apply one round of applyLoop and
-- the RPC handlers (shardMaster.hpp). A handler hands its operation to Raft and waits; the loop
-- applies what Raft has agreed on and wakes the handler. What Raft's start returns, and whether
-- the wait timed out, are arguments, and the named pipe is a flag in the context of the request. A
-- priority queue is what it has on top, the pair of least or greatest size; which of equal pairs
-- is a parameter, as a heap and the order of an unordered_map decide it. An unordered_map is an
-- association list. Operation::index and OpContext::isIgnored, which nothing reads, are left out,
-- as are printing, threads, sockets, shardClerk.hpp and the Raft node in raft.hpp.
--
-- KvServer: the server of keys and values on Raft (server.cpp, with Operation and ApplyMsg of its
-- raft.hpp). Snapshot has getSnapShot, recoverySnapShot and a round of snapShotLoop; Apply one
-- round of applyLoop and the handlers of get and putAppend, with the same treatment of waits as in
-- ShardMaster. The server and Raft interact by messages: commands with an index and a term, and
-- snapshots. Whether the log is too long is an argument. The Raft node in raft.hpp and client.cpp
-- are left out.
--
-- MapReduce: the reduce phase of class Master: assignReduceTask, waitReduce, the end of a wait in
-- waitReduceTask, setReduceStat and Done. The RPC calls, the ends of waits and the workers' reports
-- interleave as steps. The map phase has like steps on members of its own, but is not modelled: its
-- queue holds pointers into strings of a vector that moves them. Nor is the worker.
--
-- Pool: the allocator. SizeClass has class SizeClass of Common.h (Index, Roundup, NumMoveSize,
-- NumMovePage). PageCache has class PageCache of PageCache.cpp: NewSpan and its search, split and
-- growth; Release has ReleaseSpanToPageCache, Big AllocBigPageObj and FreeBigPageObj. A span is a
-- number into a heap of spans, and a list of spans is a list of such numbers; the addresses that
-- the system gives are an argument, and that they are new memory is a hypothesis. Erase of a span
-- that is not on the list of its size, whose links the model does not have, gives `none`, which then
-- says nothing of the code. The free lists of objects, the central cache and the thread caches are
-- not modelled.
--
-- Not modelled are the sharded server (6.824/src/shardKv/server.cpp), the web server
-- (a-high-concurrency-webserver-in-linux) and the network library muduo/muduo_cpp11, which are for
-- the most part threads, sockets and system calls; tests, clients and benchmarks; and the locks of
-- the labs, which only call pthread.
--
-- Recursion is on lists and counters. One fuel, in the decimal digits of a number n, is n + 1,
-- which is more than the number of digits. The other is 129 passes for each loop of the page
-- cache's release: a pass that goes on adds the pages of a span, up to 128 in all. The fuel of the
-- balancing's loop is an argument: each round lowers the sum of the triangular numbers of the
-- loads, which is 55 at most for ten shards.
pub mod Prelude
pub mod Raft
pub mod Pool
pub mod KvServer
pub mod MapReduce
pub mod ShardMaster
