-- ===== src/Lib.antt =====
-- sylar: a C++ framework of coroutines for network servers. This library models its parts that
-- compute, and proves what makes them correct.
--
-- Parts and files:
--
--   Endian      sylar/endian.h. Byte orders: `byteswap`, `byteswapOnLittleEndian` and
--               `byteswapOnBigEndian`. Endian/Laws has their laws.
--   ByteArray   sylar/bytearray.h and sylar/bytearray.cpp. The buffer made of a chain of nodes:
--               `addCapacity`, both `read`s, `write`, `setPosition`, `clear`, `toString`, and the
--               functions that return `iovec`s. Valid has the representation invariant and the flat
--               stream that an object stands for; Chain the loops over the chain of nodes; Grow,
--               Write, Walk, Read, ReadAt, Position, Vectors and Buffers one operation each.
--   Codec       sylar/bytearray.cpp. The integers and strings that are written to a ByteArray and
--               read from it: `writeFint8` to `writeStringWithoutLength`, and the functions that read.
--   Timer       sylar/timer.h and sylar/timer.cpp. `Timer` and `TimerManager`. Order has the set in the
--               comparator's order, Change `addTimer`, `cancel`, `refresh` and `reset`, Due the time to
--               the next timer and which are due, Expire `listExpiredCb`.
--   FdManager   sylar/fd_manager.h and sylar/fd_manager.cpp. Context has `FdCtx`, Table `FdManager`.
--   Log         sylar/log.h and sylar/log.cpp. The names of the levels, with their laws in Level.
--               Format is LogFormatter: Parse has the loop of `init`, Directive what it reads behind
--               a percent sign, Pieces patterns as their pieces, RoundTrip what a formatter makes of
--               them. Output is Logger and its appenders:
--               Formatters has `setFormatter`, Write `log`. Manager is LoggerManager and the listener
--               of the configuration: Names has `getLogger`, Added and Configure the
--               listener.
--   Config      sylar/config.h and sylar/config.cpp. Keys and Lookup have the table of variables,
--               Change `fromString` and `setValue`, Listeners the map of listeners, Load
--               `LoadFromYaml`.
--   Fiber       sylar/fiber.h and sylar/fiber.cpp. Fibers on one thread and the switches between
--               them. Cells has the heap and the invariant, Turn what `swapIn` and a switch back do.
--   Scheduler   sylar/scheduler.h and sylar/scheduler.cpp. The queue of tasks and a round of `run`,
--               which uses Fiber. Queue has `schedule`, Pick the choice of a task, Round the turn of a
--               fiber, Callback that of a function.
--   IoManager   sylar/iomanager.h and sylar/iomanager.cpp. The events of descriptors. Idle is a round
--               of `idle`, which uses Timer. Counting and Valid have the invariant; Change `addEvent`,
--               Cancel `delEvent` and `cancelEvent`, CancelAll and Fire `cancelAll`, Idle/Ready the
--               reports of epoll_wait, Idle/Stopping the timeout and the end, Reach runs of all of it.
--   Address     sylar/address.h and sylar/address.cpp. Compare has the order of addresses, Host the two
--               parts of a host for `Lookup`, Path the paths of `UnixAddress`.
--   Hook        sylar/hook.cpp. `do_io` and `connect_with_timeout` against a list of what the kernel and
--               the I/O manager answer, which uses FdManager (Io), and the sleeps (Sleep). Fcntl has
--               the hooks that change what is remembered of a descriptor, Fcntl/Flags O_NONBLOCK.
--   Mutex       sylar/mutex.h and sylar/mutex.cpp. Scoped has the scoped locks, Waiters FiberSemaphore.
--   Socket      sylar/socket.h and sylar/socket.cpp. Own has the descriptors that a socket opens and
--               closes, Connect `connect`, Timeout the timeouts, which use Hook/Fcntl and FdManager.
--
-- How the code corresponds. An operation that changes an object is a function of the object's state
-- into `Step`: `done` with a result and the new state, `thrown` with the state an exception leaves,
-- or `fault`, which stands for undefined behaviour (NULL, or memory outside a block). Code that checks
-- itself by SYLAR_ASSERT, which is on unless NDEBUG is defined, returns a `Checked`: `ok`,
-- `assert_failed`, or `undefined`. Names are those of the code, `addCapacity` as `add_capacity`; a
-- helper that has no name in the code is a loop or a branch of the function it is named after. Machine integers are natural numbers with the wrap-around
-- written out (`sub64`, `u32`); a signed integer is its two's complement pattern. `m_cur` is an index
-- into the chain of nodes, NULL an index past the end. `fresh` gives the bytes that `new char[s]`
-- leaves uninitialised. A timer is an address in a store of objects, and what GetCurrentMS() returns
-- is an argument; a call of the manager is one step, since it holds the lock, and where it lets the
-- lock go what other threads do is an argument. The answers of epoll_ctl and the reports of epoll_wait
-- are arguments, and the calls of `schedule` on a scheduler are a list. A saved context of a fiber is
-- the place where it goes on. The byte order of the machine, SYLAR_BYTE_ORDER, is an argument.
--
-- Bounds and fuel. The loops over the chain of nodes are recursion on the chain, and those that copy
-- a number are recursion on the slots of the array `tmp`, 5 and 10: leaving the array is a fault. The
-- loops of `readUint32` and `readUint64` have fuel 32 and 64, and
-- make at most 5 and 10 rounds. The loop over the pattern of a formatter has as much fuel as there are
-- characters, and `Logger::log` is followed from a logger to its root, 2 deep, since the root has none. The theorems about growth ask that position, length and a node more
-- stay within 64 bits, and the invariant that the base size is not 0, by which the code divides.
--
-- Not modelled: exhausted memory; the destructor, `toHexString`, `writeToFile` and `readFromFile` of
-- ByteArray; the gaps between the two locks of `FdManager::get` and of `addEvent`; `start` and `stop` of
-- the scheduler and its threads together; the pipe of `tickle`; the IPv4 and IPv6 addresses; what YAML,
-- Boost and OpenSSL do, and with them `toYamlString`, the conversions of values and SSLSocket; the
-- macros that log; Thread, Semaphore and the mutexes, which hand on to pthread.
pub mod Common
pub mod Endian
pub mod ByteArray
pub mod Codec
pub mod Timer
pub mod FdManager
pub mod Log
pub mod Config
pub mod Fiber
pub mod Scheduler
pub mod IoManager
pub mod Mutex
pub mod Address
pub mod Hook
pub mod Socket
