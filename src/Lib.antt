-- ===== src/Lib.antt =====
-- A verification of two kernel modules of this repository: kaodv, the AODV routing module (kaodv/src),
-- and the caching daemon (caching/src), which finds the fragments of files in the network and keeps
-- copies of those that are asked for often.
--
-- kaodv. Packets of the protocol come in through a netfilter hook (packet_in.c), which checks them and
-- puts a task for each into the task queue (task_queue.c). A thread (aodv_thread.c) takes the tasks and
-- calls the handlers of requests, replies, errors and hello messages (rreq.c, rrep.c, rerr.c, hello.c).
-- They read and change the routing table (aodv_route.c), mirrored in the kernel's (kernel_route.c), the
-- neighbours (aodv_neigh.c) and the floods that were seen (flood_id.c), send messages (socket.c) over
-- the devices (aodv_dev.c), and arm timers (timer_queue.c), which come back as tasks. The hook for
-- packets that leave (packet_out.c) asks for routes; the packets that wait for one stand in a queue of
-- their own (packet_queue.c).
--
-- The daemon. Its hook (cPacketIn.c) puts a task for each message into a task queue (cTask.c), and its
-- thread (cThread.c) calls the handlers. A file request floods the network (cFileReq.c, cFlood.c); nodes
-- that hold fragments answer with their lists (cFileRep.c); when a timer (cTimer.c) is over, the nearest
-- answers are used to ask for the fragments that are missing (cFragReq.c). Nodes on the way count the
-- requests that pass by (cReqList.c); at a threshold a node asks its neighbours for scores, and the best
-- is asked to keep a copy (cExchange.c) in its cache table (cacheTable.c), where the least used makes
-- room. Messages leave through cSocket.c.
--
-- The model. A module's global variables are the fields of a record, `World.World` for kaodv,
-- `PacketQueue.Packets` for its packet queue and `Caching.State.State` for the daemon. A function that
-- reads or writes them is a command: from a state to a result and the state after it, or to none, a
-- kernel oops. The clock, the allocator and the sockets' answers are functions of how often they were
-- asked, so that every theorem holds for every behaviour of theirs that its hypotheses allow. Calls that
-- leave the module are entries of a log. A loop over a linked list is a function by recursion on the
-- list; a record that pointers lead to carries its address. Words wrap around where the source's types
-- do. One function of the source is one definition of the same name, with helpers for its loops and
-- branches; names in mixed case have become lower case with underscores.
--
-- The files of kaodv. Types, Types/Const and Types/TaskType: aodv.h. Kernel: the macros on times and
-- byte order from the kernel's headers, as an interface with their documented laws. World: the state,
-- the commands, `getcurrtime` of utils.c; World/Memory: kmalloc and pointers; World/Gives, Frame, Kept,
-- Points and Healthy: runs that meet no oops, and what they leave alone. Utils: utils.c.
-- KernelRoute: kernel_route.c. Route, Update: aodv_route.c. Tasks: task_queue.c. Timers:
-- timer_queue.c. Flood: flood_id.c. Device: socket.c and the search of aodv_dev.c. Rerr: rerr.c.
-- Neigh: aodv_neigh.c. Hello: hello.c. Rrep: rrep.c. Rreq: rreq.c. Thread: aodv_thread.c. Packets:
-- packet_in.c and packet_out.c. PacketQueue: packet_queue.c.
--
-- The files of the daemon, under Caching. Types and Types/Const: cache.h. State: the state, and
-- `getcurrtime` of cUtils.c. Socket: cSocket.c. Table: cacheTable.c. ReqList: cReqList.c. Task: cTask.c.
-- Timer: cTimer.c. Flood: cFlood.c. Exchange and Exchange/Offers: cExchange.c. FragReq: cFragReq.c.
-- FileReq: cFileReq.c. FileRep, FileRep/Replies and FileRep/Choose: cFileRep.c. PacketIn: cPacketIn.c.
-- Thread: cThread.c. Prelude/Commands: the commands of the daemon.
--
-- The files below each are named for what they prove. Tests holds a small node of each kind on which
-- the theorems are tried.
--
-- Bounds and fuel. `Thread.drain` and `Caching.Thread.drain` run on fuel, one unit for each task;
-- `Utils.prefix_loop` on 33 units, one more than a word has bits; `PacketQueue.dequeue_loop` on one for
-- each packet in the list and one more; `Caching.FileRep.Choose.choose` on one for each reply in the
-- table and one more; `Caching.PacketIn.olsr_loop` on fuel that its caller gives, since a message of
-- size 0 keeps it running for ever. Times are compared by the kernel's macros, which are an order in a
-- window of half the range only, so theorems on the order of times ask for one.
--
-- Not modelled: locks (each command runs to its end), the kernel's own tables, sockets and timers, the
-- creation of devices and sockets, the set-up of the modules, signal.c, the readers of /proc, printing
-- and parsing of addresses, the files that hold the fragments; simpleFS/src.
pub mod Prelude
pub mod Types
pub mod Kernel
pub mod World
pub mod Utils
pub mod KernelRoute
pub mod Route
pub mod Tasks
pub mod Timers
pub mod Flood
pub mod Device
pub mod Rerr
pub mod Neigh
pub mod Update
pub mod Hello
pub mod Rrep
pub mod Rreq
pub mod Thread
pub mod Packets
pub mod PacketQueue
pub mod Caching
mod Tests
