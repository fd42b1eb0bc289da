-- ===== src/Lib.antt =====
-- FaSS, the Fair-Share Scheduler for OpenNebula.
--
-- The daemon `fassd` stands between OpenNebula's scheduler and OpenNebula itself. Two threads work
-- in it. The priority manager (src/pm) reads the pending virtual machines of OpenNebula, computes
-- from the accounting records how much each user has consumed, gives each pending machine a
-- priority and keeps the queue as an XML text, in which each machine carries its priority. The
-- terminator (src/terminator) ends machines that run for too long, or wait for too long, and
-- records what each user holds at the moment. A server for XML-RPC (src/rpcm) hands the queue to
-- the scheduler and passes all other calls on to OpenNebula. A time series database (src/database)
-- keeps shares and usage.
--
-- Base holds what all other modules use: Boolean tests, lists, and the integers over the native
-- naturals. StdMap is `std::map` as a sorted list, whose `insert` leaves an entry that is there;
-- Text is `std::string` as the list of its bytes with `size_t` positions, with `lexical_cast` and
-- stream input of integers. Outcome is what a call comes to: a result, an exception, a read through
-- a null pointer or `end()`, or a wait without end. Signed 64-bit sums and products are not
-- wrapped, since an overflow has no behaviour in the language; a conversion to `unsigned short`
-- wraps, and so do `size_t` positions.
--
-- Parameters stand for the code that is not in the repository: Floating is the arithmetic on
-- `float` and `double`, with the laws of rounding that a theorem needs as hypotheses (IsRounded,
-- IsOrdered); Boost is `boost::split` and `boost::lexical_cast`; LibXml is libxml2; Transport, of
-- Client, is what a remote call comes to. Floating is instantiated with whole numbers, which
-- satisfy the laws, in the examples.
--
-- Xml is include/ObjectXML.h and src/xml/ObjectXML.cc, with Xml/VmObject for src/xml/VMObject.cc.
-- Client is src/client/XMLRPCClient.cc. VmPool is src/xml/VMPool.cc: `set_up` and `make_queue`.
-- User is include/User.h. AcctPool is src/xml/AcctPool.cc: `eval_user` is the body of the loop of
-- `eval_usage` over the users, `window` the test on one entry and one period; AcctPool/SetUp reads
-- the entries. Plugin is src/pm/BasicPlugin.cc, PriorityManager is src/pm/PriorityManager.cc.
-- Terminator is src/terminator/Terminator.cc, whose loop over the users is in Terminator/Loop: a
-- call of OpenNebula and a database record are events, in order. The mutex is a field of the state,
-- and to lock it twice blocks.
--
-- PriorityManager/Cycle is one round of `pm_loop` behind its wait, with `historical_usage`;
-- PriorityManager/Round follows a whole round, and Round/Rounds any number of them, through to the
-- nodes of VmPool/Nodes, to the client that asks for the queue, and over answers whose order is
-- forgotten, which VmPool/Order makes a quotient of. Rpc is src/rpcm/Request.cc, Rpc/Proxy is
-- src/rpcm/RequestOneProxy.cc, Rpc/Methods the registry of src/rpcm/RPCManager.cc with the two
-- methods of its own, and Rpc/Socket the start of its server, with the descriptor and the list of
-- addresses that it holds. Config is src/config/SharesConfigurator.cc over a property tree, which
-- is a parameter, and Database is src/database/InfluxDb.cc over the exchange of one request for one
-- response.
--
-- Manager is the loop that both threads share, with its wait and `finalize` of include/Manager.h,
-- as a step relation. Log is src/logger/Log.cc with `get_debug_level` of src/fass/Fass.cc, and
-- Config/Options is src/config/FassConfigurator.cc, with the options that src/fass/Fass.cc reads in
-- Config/Options/Reads.
--
-- Threads is the interleaving of the three threads that share the mutex of the terminator:
-- `tm_loop`, `pm_loop` and the end of `start` with `finalize`, a step at a time, where a failed
-- retrieval may keep the mutex. Xml/Memory is what an object of include/ObjectXML.h allocates and
-- frees, and Xml/Memory/Pools the objects that VMPool and AcctPool make with `new` and delete in
-- `flush`, where memory is to be had.
--
-- Daemon is `main` of src/fass/fassd.cc with the constructor of include/Fass.h; what the system
-- answers is a parameter. Daemon/Start is `start` of src/fass/Fass.cc as a sequence of stages, each
-- on what those before have made, with the constructors of the managers in Daemon/Managers; it
-- composes Config, Log, Client, PriorityManager and Rpc/Socket. Daemon/Stop is the rest of `start`,
-- behind the signal, with `finalize` and the loop of include/RPCManager.h and
-- src/rpcm/RPCManager.cc. Log/Shared is include/Log.h with its mutex: the threads append to one
-- file a piece of a line at a time. Daemon/Contact is the loop of src/fass/Fass.cc that waits for
-- OpenNebula.
--
-- All loops but that one run over lists, so they need no fuel; that one has fuel, of which more
-- than the number of failed attempts is enough. Left out are the places that log, but for one
-- before the log is open, the server itself, the HTTP exchange, and the deletion of other objects.
pub mod Base
pub mod StdMap
pub mod Text
pub mod Outcome
pub mod Xml
pub mod Client
pub mod VmPool
pub mod Boost
pub mod Terminator
pub mod PriorityManager
pub mod Floating
pub mod User
pub mod AcctPool
pub mod Plugin
pub mod Log
pub mod Daemon
pub mod Manager
pub mod Threads
pub mod Config
pub mod Database
pub mod Rpc
