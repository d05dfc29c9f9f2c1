-- ===== src/Lib.antt =====
-- QvPlugin-Netfilter: a plugin of Qv2ray for Windows that takes the traffic of applications to a SOCKS
-- proxy. A kernel driver hands TCP and UDP events to the plugin; the plugin redirects TCP connections
-- to the proxy with a SOCKS 4 request, and sends UDP datagrams through a SOCKS 5 relay.
--
-- The parts and how they interact. NetFilterCore (Start, Stop) gives the driver its rules and the
-- event handler. The event handler gets the events of each connection and endpoint, and owns the UDP
-- proxy. The UDP proxy opens one TCP and one UDP socket for each endpoint, negotiates the relay, queues
-- datagrams until the relay is granted, and hands back what comes from the relay. All of its I/O is
-- overlapped: the completion service takes completions off a port and calls the proxy's onComplete.
--
-- The files and the code that they model:
--   Base              lists, maps, bytes, fixed-width integers, and code with a state as functions
--                     from a state to a result and a state (Base.State)
--   System            Windows and the filtering SDK, as calls in a trace; Completions says which
--                     overlapped operations of a trace are in flight, Sent which datagrams were sent
--   Socks             netfilter/SOCKS.h; Sockaddr the address structures of Winsock
--   Sync              netfilter/sync.h; Sync.Owners proofs on the owners of handles
--   Locks             m_cs and the lock of the event handler, over all files of netfilter: Locks.Methods
--                     has what each method does with them, Order and Progress the proofs
--   Iocp              netfilter/iocp.h (IOCPService); Iocp.Restart proofs on init and free
--   ThreadPool        netfilter/threadpool.h, which no other file includes; ThreadPool.Threads proofs
--                     on its threads
--   Proxy             netfilter/UDPProxy.cpp and netfilter/UdpProxy.h. Proxy.Data has OV_DATA and
--                     PROXY_DATA; Overlapped has newOV_DATA, deleteOV_DATA, startConnect,
--                     startUdpReceive, startTcpReceive, startTcpSend; Send has udpSend; Handshake has
--                     onTcpReceiveComplete; Receive has onUdpReceiveComplete, onConnectComplete,
--                     deleteProxyConnection; Connections has onComplete, init, free,
--                     createProxyConnection; Worker has workerThread of netfilter/iocp.h
--   Proxy.Ownership   proofs on the life of OV_DATA objects; Proxy.Queue proofs on the queue of
--                     datagrams; Proxy.Relay proofs on the headers of datagrams;
--                     Proxy.Isolation proofs that connections do not disturb each other; Proxy.Progress
--                     proofs on the states of a connection; Proxy.Credentials proofs on the password
--                     message
--   Proxy.Channel     what the proxy promises its client: a machine with one channel for each endpoint;
--                     Calls, Submit and Completions prove that each method is an action of it; History,
--                     Fifo and Live what follows for histories
--   Proxy.Threads     the methods of the proxy as several threads run them: Sections has each method cut
--                     into its blocks under m_cs and its calls of the system; Sequential, Ownership
--                     and History the proofs on the sections in order and interleaved
--   Events            netfilter/NFEventHandler.cpp, netfilter/NFEventHandler.hpp,
--                     netfilter/UDPContext.hpp; Events.Posted proofs on the bytes of a TCP
--                     connection; Events.Contexts proofs on the contexts of UDP endpoints;
--                     Events.Delivery proofs on the datagrams of an endpoint over whole histories;
--                     Events.Routes and Events.Redirects proofs on single events; Events.Fallback on
--                     the datagrams after a failed connect
--   Events.Threads    the events of one thread of the filter beside handlers of completions, section by
--                     section: Sequential the proofs on the sections in order; Interference, Phases,
--                     Filter and History those on the sections interleaved
--   Redirector        netfilter/SocksRedirector.cpp; Redirector.Rules the rules of
--                     netfilter/include/nfdriver.h and core/Settings.hpp; Redirector.Order proofs on
--                     the list that the calls of nf_addRule and nf_addRuleEx build; Redirector.Lifecycle proofs on Start and Stop
--   Plugin            core/EventHandler.cpp; Plugin.Settings core/Settings.hpp; Plugin.Entry
--                     NetfilterPlugin.cpp and NetfilterPlugin.hpp
--   Ui                ui/Interface.hpp and the two widgets of ui
--   Utf8              netfilter/UTF-8.h
--   LinkedList        netfilter/linkedlist.h
--   Examples          the theorems at concrete inputs
--
-- How the model relates to the code. A method is a function from its arguments and the state of its
-- object to its result and the new state. The state of the proxy contains the world: the trace of all
-- calls of the system with their answers, and the next address that `new` yields. `Os` answers a call by
-- a function of the trace and of the call, so a theorem holds for every behaviour of the system, except
-- where it names an answer or says which calls succeed. `sent` has every datagram with which WSASendTo
-- was called, also when the system refused it. The map m_socketMap and the other maps are association
-- lists by endpoint, m_ovDataSet is a list of addresses. Memory is a list of bytes; a read past the end
-- of a list is 0. Lengths that the code subtracts wrap at 2^64 and are converted to int as the code does
-- it.
--
-- Bounds and fuel. The loop that empties the queue of datagrams runs on as many rounds as there are
-- datagrams, and the decoder of UTF-8 on as many as there are bytes; the theorems on them show that
-- this is enough. The loop over the leading bits of a byte has 8 rounds, one for each bit.
--
-- Threads and locks. Most histories take a method as one step, which stands for a caller that is alone
-- in the objects it touches. Two parts look inside the methods. In Proxy.Threads a task is the rest of
-- a method, section by section; a section is a block under m_cs, or what the code does outside of m_cs
-- with one call of the system; any number of threads take their sections in any order. What init and
-- free let the completion service do is one section, and so is each of the two loops of free, which
-- holds no lock. Events.Threads has the sections of the events of the filter, where the lock of the
-- event handler keeps no thread out, so that it has more interleavings than the program; an event that
-- calls nothing of the proxy is one section. In Locks the code is reduced to scopes with a lock, the
-- wait for the worker thread, and choices; m_cs may be entered again by its owner and the lock of the
-- event handler may not.
--
-- What is not modelled. What a thread does inside a section is not interleaved with others: a call of
-- the system by another thread comes before the block under m_cs or after it. m_connInfoMap, which is
-- used without a lock, is only changed by whole methods. A restart of the worker thread is not part of
-- Locks, and neither are locks inside Windows, Qt and the filtering SDK. The content of received
-- buffers is an argument of the completion. The pointer m_pProxyHandler is an argument of the functions
-- that call it. The conversion of log lines to Qt strings, the conversion of options to JSON and the
-- binding of a field to a widget are arguments. The texts and the icon of the plugin, the layout of its
-- widgets and the build are not modelled, and of the headers of the filtering SDK only the records and
-- flags that the rules and the connections use.
pub mod Base
pub mod Socks
pub mod Sockaddr
pub mod System
pub mod Sync
pub mod Iocp
pub mod Proxy
pub mod Events
pub mod Redirector
pub mod Plugin
pub mod Utf8
pub mod LinkedList
pub mod Examples
pub mod ThreadPool
pub mod Locks
pub mod Ui
