-- ===== src/Lib.antt =====
-- zedlibs: the data structures, schedulers' queues and synchronisation of the zedio coroutine
-- library, as functions of their state, with proofs.
--
-- Parts and files. Paths are those of the repository.
--
-- - Prelude: names of the libraries, Boolean tests, arrays with native indices (Prelude/Lists),
--   and the slices of an array and what std::copy does to them (Prelude/Slices), signed integers
--   (Prelude/Ints), permutations (Prelude/Perms), and sequences of calls against a specification
--   (Prelude/Runs).
-- - Errors: zedio/common/error.hpp, the error codes and Result.
-- - BoundedQueue: the specification of the ring buffers.
-- - Ring: zedio/common/util/ring_buffer.hpp. HeapRingBuffer keeps the names of its members; data_
--   is the field items. Ring/Index has the index arithmetic, Ring/Inv the invariant,
--   Ring/Contents the list that a buffer holds, Ring/Refine the refinement, Ring/Resize the
--   member resize, Ring/Stack the class StackRingBuffer.
-- - Channel: zedio/sync/channel/channel.hpp, which keeps its values in a HeapRingBuffer.
--   send_suspend and recv_suspend are the functions await_suspend of the two awaiters.
--   Channel/Cases lists their branches, Channel/Invariant has the invariant, Channel/Order the
--   order of the values, Channel/Close the end of a channel, Channel/History whole sequences of
--   calls.
--
-- - Wheel: zedio/runtime/timer/wheel.hpp and entry.hpp, and static_pow of
--   zedio/common/static_math.hpp. Wheel<LEVEL> is a type by recursion on the level;
--   list_add_entry and list_remove_entry are those of Wheel<0>. Wheel/Power has the widths of the
--   slots, Wheel/Bits the lowest bit of a bitmap, Wheel/Items what a wheel holds, Wheel/Loop the
--   loop of handle_expired_entries for any kind of slot, Wheel/Expire its levels, Wheel/Insert
--   add_entry, Wheel/Next next_expiration_time. The loop runs on fuel 65: each round clears one
--   of the 64 bits. The products of an index and the width of a slot stay below 2^43 up to the
--   highest level of the program, 6, so they are not taken modulo 2^64. Wheel/Rotate and
--   Wheel/Shift have rotate, Wheel/Levels level_up and level_down.
-- - Timer: zedio/runtime/timer/timer.hpp. The time now() is an argument. Root is the variant
--   root_wheel_, and level_up_and_add_entry recurs on the levels that are left up to MAX_LEVEL +
--   1, where the source asserts false. Timer/Invariant has the invariant, Timer/Insert add_entry,
--   Timer/Expire handle_expired_entries with maintenance, Timer/Next next_expiration_time.
-- - Queue: zedio/runtime/multi_thread/queue.hpp. Queue/Global has GlobalQueue, Queue/Local
--   LocalQueue, whose head_ is one packed word. A compare-and-exchange finds the value that was
--   loaded: the runs are those that no other thread interrupts. The rounds of
--   push_back_or_overflow are fuel, of which one round is enough. Queue/Words has the arithmetic
--   of the positions, Queue/Owner pop, Queue/Push push_back_or_overflow, Queue/Copy and
--   Queue/Steal steal_into, Queue/Shared pop_n.
-- - Mutex: zedio/sync/mutex.hpp. await_suspend is that of the awaiter that lock returns; an
--   awaiter is the number of its coroutine, and the linked lists are lists. Mutex/Fair is the
--   specification, Mutex/Refine the refinement.
-- - Buffer: zedio/io/buf/buffer.hpp, with Buffer/Bytes for what the buffer holds and Buffer/Find
--   for the search of a flag. std::copy and std::copy_n are copy_to of Prelude/Slices.
-- - Idle: zedio/runtime/multi_thread/idle.hpp, with Idle/Notify for worker_to_notify. The set of
--   sleeping workers is a list.
-- - CurrentThread: zedio/runtime/current_thread/queue.hpp; the names of LocalQueue's members
--   begin with local_.
-- - Worker: the workers of the runtime with many threads. Worker/Shared has
--   zedio/runtime/multi_thread/shared.hpp and the wake-ups at the end of worker.hpp,
--   Worker/Thread and Worker/Loop the class Worker of worker.hpp, Worker/Driver the part of
--   Driver::poll in zedio/runtime/driver.hpp that fills the queues, and execute of
--   zedio/runtime/timer/entry.hpp, whose request to cancel an operation that has timed out is not
--   modelled. The completions and expired entries that a poll finds are arguments, and each
--   driver_.wait of sleep takes the next of a list of them. Worker/Choice, Worker/Batch and
--   Worker/Next are about get_next_task, Worker/Pushed and Worker/Schedule about tasks that
--   become ready, Worker/Wake and Worker/Sleep about waking others up.
-- - CurrentWorker: zedio/runtime/current_thread/worker.hpp, over CurrentThread.
--   CurrentWorker/Next is about the order of the tasks, CurrentWorker/Sleep about the calls that
--   end a sleep.
-- - Semaphore, Latch: zedio/sync/semaphore.hpp and latch.hpp. Semaphore/Permits and Latch/Once
--   are the specifications with their refinement, Latch/Race has the counts of other threads
--   between the accesses of await_suspend.
-- - CondVar, SharedMutex: zedio/sync/condition_variable.hpp and shared_mutex.hpp, over Mutex.
--   SharedMutex/Exclusion is about lock, SharedMutex/Unlocks about lock_shared.
-- - BufRead: zedio/io/impl/impl_buf_read.hpp and impl_async_read.hpp. The file is a parameter,
--   BufRead/Source, with what read promises. The rounds of the loop are fuel: one for each byte
--   of the buffer, and one more. BufRead/Fill is about the buffer, BufRead/Read about read and
--   read_exact, BufRead/Lines about read_until, which is in BufRead/Until; there a round for each
--   character that is still to come, and one more, is enough.
-- - Interval: zedio/time/interval.hpp, with Interval/Ticks.
-- - Rpc: examples/rpc_examples/rpc_util.hpp, the frames of the RPC examples. Rpc/RoundTrip and
--   Rpc/Long are about which frames are read back.
-- - Logger: zedio/log/buffer.hpp, file.hpp and the FileLogger of logger.hpp. Logger/Pending says
--   what the files and the buffers hold together, Logger/Steps is about each step, Logger/Order
--   about the order of the texts over a whole run, Logger/Spare about the empty buffers that are
--   kept.
-- - Task: zedio/async/coroutine/task.hpp. The frames are a map from handles; Task/Chain and
--   Task/Calls are about coroutines that await each other, Task/Object is the class Task, and
--   Task/Owners, Task/Acts and Task/Ownership say who owns which frame, of coroutines that nobody
--   awaits; whether the body ends in Task::resume is an argument.
-- - FileBuilder: zedio/fs/builder.hpp, with Linux's numbers for the flags. FileBuilder/Flags
--   compares them with what the options ask for.
-- - ChannelHandles: zedio/sync/channel/sender.hpp and receiver.hpp, the handles of one channel;
--   ChannelHandles/Counts is about the channel's numbers, ChannelHandles/Closing about any
--   sequence of uses of the handles.
-- - NetAddr, UnixAddr: zedio/socket/net/addr.hpp and zedio/socket/unix_domain/addr.hpp.
--   NetAddr/Parts and UnixAddr/Names say what is read back. Bits has the lemmas on words that are
--   put together from bytes.
-- - Poller: zedio/runtime/io/linux/poller.hpp, when requests are submitted, with io_uring as a
--   parameter.
-- - Waker: zedio/runtime/io/linux/waker.hpp. The steps of the threads, the driver and the kernel
--   are a relation; Waker/Wakes shows that no wake-up is lost.
-- - BufWrite: zedio/io/impl/impl_buf_write.hpp and impl_async_write.hpp. The file is a parameter,
--   BufWrite/System, with what write and writev promise. The rounds of a loop are fuel: one for
--   each byte. BufWrite/Advance is about r_increase, BufWrite/Flush about flush, BufWrite/Accept
--   and BufWrite/Write about write and write_all.
--
-- Conventions. std::size_t and the other words are natural numbers with the wrap-around written
-- out. A failed assertion and an access out of range are the value none. A coroutine handle is a
-- number, and what a member hands to schedule_local is a list of wake-ups in the order of the
-- calls. An operation that runs under a mutex is one step.
--
-- Not modelled: the requests to io_uring and what the awaiters fill into them, sockets and their
-- options, operations on files and directories, signals, sleeping and time-outs, which are calls
-- into the operating system or register an entry with the timer; the creation of threads; and the
-- example programs, but for the RPC frames.
pub mod Prelude
pub mod Bits
pub mod BoundedQueue
pub mod Errors
pub mod NetAddr
pub mod Poller
pub mod Ring
pub mod Channel
pub mod UnixAddr
pub mod Waker
pub mod Wheel
pub mod Task
pub mod Timer
pub mod Queue
pub mod Logger
pub mod Mutex
pub mod Buffer
pub mod FileBuilder
pub mod Idle
pub mod CurrentThread
pub mod Semaphore
pub mod Latch
pub mod ChannelHandles
pub mod CondVar
pub mod SharedMutex
pub mod Worker
pub mod CurrentWorker
pub mod BufWrite
pub mod Interval
pub mod BufRead
pub mod Rpc
