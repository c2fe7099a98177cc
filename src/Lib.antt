-- ===== src/Lib.antt =====
-- CtrlrFx, a framework for controllers: its containers, its codecs for byte buffers, its devices and
-- binary streams, its synchronisation objects, and its distributed objects from the stub of a client
-- to the object on a server.
--
-- The parts and their files. Each module is named for its part; its children hold the invariants,
-- the theorems and runs on concrete inputs (Tests).
--   Prelude      shared names: the library's, Boolean tests, lists, `size_t` and `int` arithmetic
--   Memory       an array as a list of cells, and the element copy of the containers
--   CircQueue    CtrlrFx/CircQueue.h: `put`, `put_n` for put(buf, n), `get`, `get_n`, `set_buffer`
--                for set(buf, cap, own), `size`, `remaining`; CircQueue/Fifo is the specification
--   Stack        CtrlrFx/Stack.h: `push`, `push_n`, `pop`, `pop_n`
--   KeyArray     CtrlrFx/KeyArray.h: `find`, `put`, `get`, `remove`, `clear`
--   Buffer       CtrlrFx/Buffer.h: position, limit and mark, block and single transfers, copies
--   BufCodec     CtrlrFx/BufCodec.h and src/data/BufCodec.cpp: encoders and decoders over a Buffer
--   MsgQueue     CtrlrFx/MsgQueue.h: the blocking queue, alone and with any number of threads
--   MsgSlot      CtrlrFx/MsgSlot.h: the slot for one message
--   RdWrLock     CtrlrFx/os/generic/CtrlrFx/RdWrLock.h, src/os/generic/RdWrLock.cpp: the lock for
--                readers and writers, with any number of threads
--   SeqLock      CtrlrFx/SeqLock.h: one writer and readers that try again
--   Guard        CtrlrFx/Guard.h: a lock held for a block of code
--   RecursiveMutex, OsEvent   the generic versions under src/os/generic
--   Device       CtrlrFx/Device.h, src/io/Device/Device.cpp: `read_n` and `write_n` over the system's
--                read and write, and the life of the handle
--   SwapBytes    CtrlrFx/swap.h: reversing the bytes of a value
--   BinStream    CtrlrFx/BinStreamBuf.h (BinStream/StreamBuf: the areas of a stream's buffer),
--                CtrlrFx/MemBinStream.h (BinStream/MemStream: the buffer over a block of memory),
--                CtrlrFx/BinStream.h and BinStreamBase.h (BinStream/Stream: formatted input, output),
--                CtrlrFx/DevBinStream.h, src/io/BinStream/DevBinStream.cpp (BinStream/DevStream: the
--                buffers between a stream and a device, on the laws of a device's transfers)
--   DistObj      CtrlrFx/DistObj.h, src/DistObj/DistObj.cpp: the registry and its dispatch
--   DistObjSrvr  CtrlrFx/DistObjSrvr.h, CtrlrFx/BinDistObj.h, src/DistObj/DistObjSrvr.cpp: the
--                client's and the server's end of a port; `serve` is one round of the server's loop
--   DigIo        CtrlrFx/DigIO.h, DigIO_stub.h, DigIO_skel.h and their sources in src/DistObj: the
--                stubs and skeletons of digital ports. DigIo/Call joins a stub, the client, the
--                server, the registry and a skeleton into one call
--   ClockTime    CtrlrFx/os/posix/CtrlrFx/Time.h, src/os/posix/Time.cpp: normal form, sums,
--                differences and comparison of times, and durations in units
--   ThreadTimer  CtrlrFx/os/generic/CtrlrFx/ThreadTimer.h, src/os/generic/ThreadTimer.cpp: the calls
--                of a timer (ThreadTimer) with the body of its thread, and their interleavings
--   ConditionData  CtrlrFx/ConditionData.h: a value under a lock with a condition (ConditionData/Threads)
--   Pool         CtrlrFx/os/generic/CtrlrFx/MemPool.h, CtrlrFx/ObjPool.h: blocks taken and put back
--                through a message queue; Pool/Clients is the view of those who hold blocks
--   Socket       CtrlrFx/Socket.h, TcpSocket.h, TcpAcceptor.h, TcpConnector.h and src/io/net: who owns
--                a handle (Socket/Owners), opening it, and transfers of whole buffers
--   Cfxidl       tools/cfxidl: the interface compiler, which writes the stubs and skeletons; Cfxidl/Sources
--                has the texts (Iface.cpp; Stub and Skel below it), Cfxidl/Files their files, Cfxidl/Wire what they put on the wire,
--                and Cfxidl/Table the numbers of the commands
--
-- How the code is read. A pointer into an array is its offset; an access outside the array is
-- `none`. `size_t` is a number with its wrap-around
-- at 2 ^ 64 written out where the code adds or subtracts. A template's element type is a type `A`,
-- `new T[n]` a parameter. A call that waits is cut at its wait: the part up to a test is one
-- function, `none` where the caller waits, and the threads of a component are a step relation whose
-- steps are the parts that run under the lock. Semaphores are their counts.
--
-- Loops are recursion on the number of rounds. Fuel stands in `DistObj.find_free` and
-- `DistObj.find_key`, one more than the array has cells, which is one read more than can succeed; in
-- the loops of `ClockTime.normalize`, the whole seconds in the nanoseconds; and in the loops of
-- `Device.read_n` and `write_n`, the bytes asked for, since a round that goes on transfers one. The
-- loops `in_xsgetn` and `out_xsputn` have two rounds for each byte and two more: between two rounds
-- that fill or empty the buffer there is one that copies a byte at least.
-- The search for the start of a packet, and the server's loop, end only when the port does: their
-- fuel is an argument, and what is shown of them names the rounds that it needs.
--
-- The operating system and the ports are parameters: functions on a state of theirs, with what the
-- code relies on as named hypotheses.
--
-- Not modelled: the addresses and time limits of sockets, and the threads and files of the operating
-- systems, which only call them; the streams over C files or over a Buffer; BufPool and
-- AcqBufQueue, which call functions that their base classes lack; Array and FixedBuffer,
-- the state machine and the queue thread; the parser of the interface compiler, the bindings for other languages, examples and tests. Destructors and `delete[]` appear only as the
-- loss of the memory. Floating point values are left out of the codecs.
pub mod Prelude
pub mod Memory
pub mod CircQueue
pub mod Stack
pub mod KeyArray
pub mod Buffer
pub mod BufCodec
pub mod MsgQueue
pub mod MsgSlot
pub mod RdWrLock
pub mod SeqLock
pub mod RecursiveMutex
pub mod OsEvent
pub mod Guard
pub mod Device
pub mod SwapBytes
pub mod BinStream
pub mod DistObj
pub mod DistObjSrvr
pub mod DigIo
pub mod ClockTime
pub mod ThreadTimer
pub mod ConditionData
pub mod Pool
pub mod Socket
pub mod Cfxidl
