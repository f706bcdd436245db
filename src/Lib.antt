-- ===== src/Lib.antt =====
-- A key-value store replicated by Raft. This library models its servers and its client and proves
-- what the parts promise.
--
-- The program. src/RaftServer.cpp (include/RaftServer.h) is one node of Raft: a log in memory behind a
-- snapshot, its persister and snapshot files, the handlers of three RPCs, the senders of the same
-- three, an election loop and a loop that hands committed entries on. src/kvRaft.cpp
-- (include/kvRaft.h) is the store above it: it submits a client's request to its node, applies what
-- comes back committed, wakes the waiting request, and makes snapshots. src/client.cpp is a client,
-- and src/ThreadPool.cpp runs the senders.
--
-- Files.
--   Base, Text, Dict: numbers, lists, C++ integers, byte strings with atoi and to_string, and
--     unordered_map as an association list.
--   Raft/State: the state of a node and the messages (proto/raft.proto).
--   Raft/Log: CompressLogidx, lastindex, lastterm, CheckLogUptodate, PushBackLog.
--   Raft/Wire: GetCmdAndTerm, the text of SendAppendEntries, getCmd and GetOperation.
--   Raft/Persist: Serialize, Deserialize, SaveRaftState, ReadRaftState.
--   Raft/Vote: ReplyVote and CallRequestVote. Raft/Append: ReplyAppend.
--   Raft/Replicate: Start and SendAppendEntries. Raft/Election: ElectionLoop.
--   Raft/Snapshot: RecvSnapShot, SaveSnapShot, ReadSnapShot, installSnapShotTOkvServer,
--     ReplyInstallSnap, SendInstallSnapshot and Init. Raft/Apply: ApplyLogLoop.
--   Raft/Heartbeat: ProcessEntriesLoop, GetState, Stop and Activate.
--   Rpc: src/RaftRPC.cpp (include/RaftRPC.h), the service that calls the handlers.
--   Raft/Step: the handlers, senders and loops, but the heartbeat, as the steps of a node; below
--     it, the runs of one node and of a cluster whose nodes go at their own paces.
--   Raft/Cluster: the nodes with the appends and snapshots that are on their way between them.
--   Kv: ApplyLoop and RecoveryFromSnapShot. Kv/Machine: the store it keeps, as a machine of its own.
--   Kv/Requests: PutImpl, GetImpl, ParseRequest, HandleMessage. Kv/Compaction: getSnapShot and
--     CheckSnapShotLoop.
--   Kv/Startup: the server's constructor, Init, getRaftPort and getKvServerPort.
--   Client: src/client.cpp, a client's connections, requests and sessions.
--   Pool: src/ThreadPool.cpp (include/ThreadPool.h).
--   Tests: concrete nodes and servers.
-- Modules below one of these hold the theorems about it.
--
-- How code becomes definitions. A region under a mutex is one function on the state; a sender is two,
-- before and behind its RPC. Undefined behaviour, such as an index out of range or a destroyed
-- context, is `none`. Time is an argument. Loops are structural recursion, or recursion on a number
-- that is the loop's own bound, so no fuel runs out. `int` is an integer without overflow. Protobuf's
-- serializers are parameters, with its round trip of the messages in question as the hypothesis.
--
-- Not modelled: the gRPC server and channels, sockets, threads, printing, the TCP and logging
-- libraries, the generated protobuf code, and the test runs of main. Votes travel freely: a node may
-- be asked or answered anything at any time, and theorems say which votes they ask for. A restart
-- is no step of a node: Raft/Snapshot/Restart and Kv/Compaction/Restarting run Init on saved files.
pub mod Base
pub mod Client
pub mod Dict
pub mod Kv
pub mod Pool
pub mod Raft
pub mod Rpc
pub mod Tests
pub mod Text
