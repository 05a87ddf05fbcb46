-- ===== src/Lib.antt =====
-- Rescale Interlink moves files between a workstation and a platform, with a command line, a desktop
-- application and a daemon. This library models the parts that carry its transfers:
--
-- - Transfer: the queue that every front end tracks transfers in (internal/transfer/queue.go), with
--   its tasks (internal/transfer/task.go) and its speed windows (internal/transfer/speed_window.go).
--   Callers make a task, activate and start it, report its progress and its end; the queue keeps the
--   states, counts the bytes of batches and publishes events. Queue.antt holds the state, and below
--   it Track.antt has TrackTransfer to UpdateProgress, Finish.antt Complete to ClearCompleted,
--   Report.antt and BatchReport.antt what the queue reports, Batch.antt the operations on batches
--   with the ticker, and Calls.antt all calls as one step function. Handle.antt is the handle of a
--   transfer on the pool of threads (internal/transfer/manager.go).
-- - Crypto: the padding (internal/crypto/encryption.go) and the chained CBC format of uploads in parts
--   (internal/crypto/streaming.go). Uploads encrypt part after part, and resume from a saved IV.
-- - Resources: the pool of threads that transfers share and the sizes of chunks
--   (internal/resources/manager.go), with the limits of internal/constants/app.go.
--   Pool/Concurrency.antt is the number of transfers that run at once.
-- - Transfer/Batch.antt: the workers of RunBatch as a relation of steps, and below it, in Scaling.antt,
--   the dispatcher of RunBatchFromChannel (internal/transfer/batch.go).
-- - RateLimit: the token bucket with its queue of waiters (internal/ratelimit/limiter.go), and the
--   coordinator that owns the buckets and leases of several processes (internal/ratelimit/coordinator):
--   Server.antt holds its state, Requests.antt its handlers, Upkeep.antt the cleanup and the watchdog,
--   and Steps.antt the order in which they come.
-- - Daemon: the state of downloaded jobs (internal/daemon/state.go), with File.antt for its file, and
--   the buffer of log entries (internal/daemon/logbuffer.go).
-- - Events: the event bus with the channels of its subscribers (internal/events/events.go), and the
--   ring buffer of recent events that it fills (internal/events/ringbuffer.go).
-- - Common: lists, maps, bytes, integers and Boolean tests that the parts share.
--
-- Types and functions have the names of the source, in lower case with underscores; a comment names
-- the function where the two differ. How the code is represented:
-- - A method that runs under one lock is one function from the state to the new state and its result.
--   A method that releases its lock on the way is a function for each locked part (CancelAll,
--   CancelBatch, Retry), and what other callers do in between is an argument or a sequence of steps.
-- - Tasks are shared by pointer, so the queue has a heap of tasks, and its list and index hold
--   addresses. The order in which Go iterates over a map is the order of the entries.
-- - A channel of the event bus is its place in a heap of channels. Publish holds a read lock, so two
--   calls may overlap; they are taken one after the other, and so are the receives of subscribers.
-- - Go's float64 is a parameter, a type with the operations that the code uses and no laws but
--   the one that a statement names. AES is a parameter with the laws of a block cipher. Instants are numbers
--   of nanoseconds and 0 is the zero time; sizes and counts are numbers that are not negative, and no
--   overflow of 64 bits is modelled but that of the end of a page, whose bounds are any integers of the
--   caller; the available threads are an integer.
-- - Events published, cancel functions called and tasks handed to the retry executor are lists in the
--   state of the queue, in the order in which that happens.
-- - Workers, waiters and callers take turns in any order: a run is a sequence of steps, or a list of
--   calls, each of which is a locked part of the code, or a part that touches no shared state. A request
--   to the coordinator is a step that tracks its client, a step of its handler and, where the handler
--   goes on without the lock, a step on a limiter; other steps come between them.
-- - The file system and JSON of the daemon are a record of operations (Os), with what the code relies on
--   as the record OsLaws. Random identifiers are arguments.
-- - There is no fuel: every loop of the code runs over a list or a count, and is recursion on it. The
--   ticker, which runs until the batches are done, is one tick per step, and so are the rounds of the
--   coordinator's cleanup and watchdog; that a batch ends is a theorem on its steps.
--
-- Not modelled: the per-part encryption format, whole-file encryption, the workers behind the dispatch
-- channel of RunBatchFromChannel, the rules that map endpoints to scopes, and the parts of the repository
-- that are input and output, operating-system calls, the command line and the user interface.

pub mod Common
pub mod Crypto
pub mod Daemon
pub mod Events
pub mod RateLimit
pub mod Resources
pub mod Transfer
