-- ===== src/Lib.antt =====
-- A file server over TCP: clients send messages (echo, list the directory, size of a file, a part
-- of a file, shut down), each with a first byte for its type and two compression flags, a 64-bit
-- length and a payload. A file can be fetched over several connections at once, which share a
-- session number.
--
-- The parts, and the files that model them:
--   compression.c          Codec and its children. `create_map` reads the dictionary of 256 codes bit by
--                          bit, `compress` and `decompress` are the loops of the code over the bits.
--   message_handling.c     Message: `get_description`, which reads one message from a socket.
--                          Response: `error_send`, `echo`, `file_size_response`, `directory_send`.
--                          Segments: `dissect_file_request`, `child_send`, `parent_send`.
--                          Config: `get_config`, with create_config.c.
--   multiplexlist.c        RequestList: the list of requests in progress, as pointers on a heap.
--   tp.c                   WorkQueue: the queue of waiting sockets, as pointers on a heap.
--                          Server: `client_handling`, which calls all of the above for one connection.
--   tp.c, server.c         Workers: `thread_worker` and the accept loop of `main`, as steps of threads that
--                          share a mutex, a condition variable and the queue.
--   tp_optimized.c         CircularQueue: its queue of 1024 sockets. Workers.Optimized: its worker and its
--                          `enqueue`. Optimized.Dispatch: `client_handling_optimized`.
--   message_handling_optimized.c
--                          Optimized.Reading: `read_full`, `get_description_optimized`. Optimized.Handlers:
--                          `send_all`, `echo_optimized`, `file_size_response_optimized`,
--                          `directory_send_optimized`. Optimized.Transfer: `parent_send_optimized`.
--   compression_optimized.c
--                          Optimized.Codec: a dictionary in text, and a codec with no length.
--   compression_opt.c      Trie: a codec over a trie of the codes.
--   server_optimized.c     Optimized.Standalone: what its worker does with one connection.
--   memory_pool.c          MemoryPool: blocks of three sizes.
-- Base has the shared names, tests and lemmas, Links what the two linked lists share, Wire integers
-- as bytes, and Fifo what both queues promise. The children of a module are named for what they
-- prove, and its Tests has concrete runs.
--
-- A worker takes a socket from the queue and runs `client_handling` on it: messages are read and
-- answered in turn. A file request looks its session up in the list: the first connection with a
-- session is the parent, which divides the range, writes the pieces to a pipe and sends one itself;
-- each later one takes a piece from the pipe.
--
-- State is passed explicitly; `Outcome` tells a normal result from a read or write out of range or
-- through a null or freed pointer (`fault`), an exit, and a loop out of fuel or a wait without end
-- (`unfinished`). Native integers are numbers with their wrap-around written out: an `int`
-- counter that overflows is a fault, in `compress`, `compress_optimized` and `directory_send`, or has a
-- bound in the theorem; `uint64_t` modulo 2^64. A socket is the sequence of what arrives
-- together; what stands in memory that is not set is an argument of the definitions that can see
-- it, and so are the files, the directory and the dictionary.
--
-- The optimised sources are models of their own over the same types, so that a theorem can set a function
-- beside the one that it stands for. They differ from them where the code does: reads and sends are
-- repeated until they are complete, but for the `send` of a type or a length, a buffer grows, the
-- standalone server does not look at the range of a request that joins a session.
-- `compress`, `decompress`, `child_send` and `error_send`, which they call and do not define, are those of
-- compression.c and message_handling.c.
--
-- Threads: Workers has one constructor for each step of a thread, and `Reach` for what any sequence of
-- steps comes to. A call of `dequeue` of tp.c, and one of `cq_dequeue` in the loop that empties the
-- queue at a shutdown, is two steps, the read of the first item and the store of what follows, since that loop
-- takes no mutex; what else is done between a lock and an unlock with no wait in between is one step. The
-- wait on the condition variable may end at any time.
--
-- Fuel: the walks of the request list have more fuel than the list has requests, which its theorems
-- show to be enough; `drain` and `cq_drain` have more than there are waiting sockets; `client_handling`
-- and its variants have a unit for each message and one more; `read_full` and `send_all` have a unit for
-- each byte and one more, `read_lines` one for each byte of the file and one more, since each round moves
-- on. The other loops are structural.
--
-- Not modelled: sockets themselves; in the models of `client_handling` and its variants an operation under
-- a lock is one step and what other threads do is an argument; `malloc` that fails, but where noted;
-- tp_create, tp_create_opt and the parts of the two `main` functions before their accept loops, which are
-- system calls in a row; the accept loop of server_optimized.c; functions that only free; the stress test,
-- the benchmark and the web frontend.
pub mod Base
pub mod Codec
pub mod RequestList
pub mod Links
pub mod Fifo
pub mod WorkQueue
pub mod CircularQueue
pub mod Wire
pub mod Message
pub mod Response
pub mod Segments
pub mod Server
pub mod Optimized
pub mod Trie
pub mod Workers
pub mod Config
pub mod MemoryPool
