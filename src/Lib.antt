-- ===== src/Lib.antt =====
-- HetBed's user plane function: the C program under
-- experiments/5G_experiment/images/f5gc-base/f5gc-upf-fixed (paths below are from there). It
-- is the part of a 5G core that forwards user packets. The SMF installs rules over the
-- protocol PFCP (lib/pfcp), whose requests and responses are transactions; a packet is matched
-- with a rule by its tunnel or its address (src/up). Both stand on a utility library
-- (lib/utlt) of object pools, linked lists, timers and buffers.
--
-- Parts, and the files that model them:
--   Base      Boolean tests, C arrays as lists, machine words with their wrap-around.
--   Pool      lib/utlt/include/utlt_pool.h. The macros PoolInit, PoolAlloc, PoolFree, PoolSize
--             are init, alloc, free, size on a record of the queue's fields. Pool/Refine states
--             the pool as a queue of free pointers, Pool/Ownership its use by clients.
--   Index     lib/utlt/include/utlt_index.h, pools whose objects carry their number.
--   ListHead  lib/utlt/include/utlt_list.h. A heap is the next and prev fields of all nodes, by
--             address; the macros are functions on heaps. ListHead/Chain says what a list is,
--             the other files what each macro does to it.
--   Xact      lib/pfcp/src/pfcp_xact.c, one function per function of the file, with the macros
--             of lib/pfcp/include/pfcp_message.h for the sequence number. The state is the pool
--             (Index), its objects and the links of their lists (ListHead).
--   Match     src/up/up_match.c. Match/Packet has the tests on packets, Match/Rules the tables
--             and searches (lists of ListHead), Match/Compile the way from a detection rule to a
--             match rule, Match/Entry the entry functions with the packets kept in buffers (Buff).
--   Timer     lib/utlt/src/utlt_timer.c. Timer/Ops has one function per function of the file, on
--             the pool (Pool), the timers and the links of the lists (ListHead); Timer/Sets,
--             Timer/Moves and Timer/Expiry say what they do to the lists.
--   Buff      lib/utlt/src/utlt_buff.c. Buff/Ops has the blocks, Buff/Alloc the functions in the
--             place of malloc; buffers are numbers in pools (Pool), with their bytes.
--   Message   lib/pfcp/src/pfcp_message.c. Message/Table is ieDescriptionTable, Message/Describe its
--             rows as trees, Message/Parse and Message/Build the functions that read and write a
--             message, on bytes; Message/Encode says what a message is on the wire, and
--             Message/Packet puts it behind the header that Xact makes. Sizes are those of Buff.
--   Hash      lib/utlt/src/utlt_hash.c. A table is its chains; Hash/Chain, Hash/Expand and Hash/Map
--             say what the operations mean for the searches, also when the table grows.
--   Context   src/upf_context.c. Context/Rules has the functions that the macros make for a kind
--             of rule, on the pool (Index), the links (ListHead), a table of ids and the mutex;
--             Context/Ids is that table as a hash table (Hash).
--             Context/Fresh follows the free nodes of the pool, Context/Shared two sessions
--             with the same id.
--   N4        src/n4/n4_pfcp_handler.c, the handlers of forwarding rules (N4/Far, N4/Handle) and
--             QoS rules (N4/Qer) on the stores of Context: N4/Rule is what they have in common,
--             N4/Session the loops over the new rules of a request, N4/Qer/Values what the
--             bytes of a QER mean, N4/Reach sequences of
--             requests. The answers of the kernel module are an argument (Kernel, QerKernel).
--
-- How it is written. A locked region is one step. Where C leaves the outcome undefined the
-- models say so: a transaction at step 0, whose last message would be seq[-1], ends in `fault`, a search
-- through a NULL link in `broken`; a packet is the memory from its pointer on, so that reads
-- behind its end are reads of that function. Addresses and indices are natural numbers, NULL
-- is 0; words keep their wrap-around. What the models do not read is an argument: the answers
-- of the buffer pool, the timers and the socket (Env of Xact), the current time (now of
-- Timer), the handlers of up_path.c and the lookups of forwarding rules (Env of Match/Entry),
-- the groups that regexec finds and the answers of inet_pton (FlowDescription of Match), the
-- seed of the hash, the callback of ListInsertSorted. A mutex that is held when a call wants it
-- is held for ever, since the calls are steps. The hash tables and the parser always get memory
-- from the buffer pool, and the kernel module gives the same answer to the same rule.
--
-- Fuel. The loop of PfcpXactFindByTransactionId has one round for each of the 256 objects of
-- the pool, the loops over other lists as many as the list has nodes (1024 for the timers),
-- that of TimerExpireCheck one more than the list has nodes, and the loop over the extension
-- headers of a packet one for each byte; the theorems about them say that this is enough, or
-- that no number is. The
-- tables of IEs are followed 6 rows deep, and no row goes deeper.
--
-- Not modelled: log lines; the sockets, queues and threads of lib/utlt, which wrap system
-- calls; the release of parsed messages, the sessions and detection rules of the context, the N4
-- handlers of detection rules, of associations and the responses, and up_path.c;
-- BufblkFmt and UTLT_Resize; the calls of the kernel module in updk, and the library
-- libgtp5gnl, which is kept there and belongs to another project; the scripts and manifests
-- around the program.
pub mod Base
pub mod Pool
pub mod Index
pub mod ListHead
pub mod Xact
pub mod Match
pub mod Timer
pub mod Buff
pub mod Message
pub mod Hash
pub mod Context
pub mod N4
