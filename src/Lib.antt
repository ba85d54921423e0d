-- ===== src/Lib.antt =====
-- Verification of the core of the conference client: what the C++ sources under src/ promise about
-- closing, selecting, locking, blocking, running groups of tasks, caching messages and samples, the
-- handles of the C interface, the settings of the log and the names of pads; and what the client sends,
-- reads and registers when it subscribes, and how its source element feeds GStreamer.
--
-- Parts of the program, and the files that model them
--   * `Channel`: the writers `chan_must_write` and `chan_maybe_write` of src/public/cfgo/async.hpp
--     over an asiochan channel. The channel is code of another project: its operations are an
--     interface, the record `Channels`, with its documented laws; `slot` is a concrete instance.
--   * `CloseSignal`: `detail::CloseSignalState` and `CloseSignal` of src/async.cpp. `CloseSignal.Node`
--     is one object and what its methods do under its own lock, `CloseSignal.Tree` the tree of
--     objects and the methods that reach parents and children, `CloseSignal.Handle` the class
--     that users hold, which may be null. A world holds the objects by number, in place of the
--     shared pointers, and the channels of the waiters by number, in place of their addresses.
--     `Shutting`, `Closing`, `Effect`, `Leaving` and `Waking` carry the proofs.
--   * `Blocker`: `detail::AsyncBlocker` of src/async_locker.cpp, with `Blocker.Protocol` for every
--     interleaving of a manager, a worker and requests from elsewhere, and `Blocker.UserData` for the value it carries.
--   * `Manager`: `detail::AsyncBlockerManager` of the same file; each critical section is one
--     function. `Manager.Choice` is how `lock` chooses whom to block and whom to let go.
--   * `Tasks`: the loops of `AsyncTasksAll`, `AsyncTasksAny` and `AsyncTasksSome` of
--     src/public/cfgo/async.hpp; what the data channel yields is an argument.
--     `Tasks.Void` has their specialisations for tasks that yield no value.
--   * `Track`: `impl::Track` of src/impl/track.cpp and `Statistics` of src/public/cfgo/track.hpp: the
--     two caches of messages, the numbers that order them, and the counters. The ring buffer is
--     `boost::circular_buffer`: its operations are the interface `Buffers` of `Buffer`, with the
--     laws its documentation states; `ring` is a concrete instance. `Track.Sequence` has the
--     numbers, `Track.Renumbering` how they start again, `Track.Messages` what arrives,
--     `Track.Delivery` what is taken, `Track.Balance` the counters.
--   * `AppSink`: `gst::detail::AppSink` of src/gst/appsink.cpp, with the same channels and ring buffer.
--     `AppSink.Queue` has a sink with its one receiver, whose wait is a `select` on two channels, and
--     the queue that it implements; `Numbers`, `Receiving`, `Waking`, `Storing` and `Refine` carry the
--     proofs.
--   * `Select`: `select`, `select_or_throw`, the reads and writes that use them, `cancelable` and
--     `CancelError` of src/public/cfgo/async.hpp, over what a call sees: whether its close signal has a
--     waiter, whether that waiter or a result came first, and what the signal says then.
--     `Select.Combine` is `combine_read_op`, over the read operations of asiochan as a record.
--   * `AsyncMutex`: `AsyncMutex` of the same file and of src/async.cpp, as a step relation: a round of
--     the loop of `accquire` is a step, and so are the read of a channel, a cancel and a release.
--   * `CoEvent`: `CoEvent` of src/coevent.cpp as a step relation: a trigger, an `await` and the end of the
--     wait for the timer are steps.
--   * `Lock`: the guards of src/public/cfgo/async_locker.hpp over a table of mutexes: `AsyncLockGuard`,
--     `AsyncUniqueLock`, the locking of several mutexes (`Lock.Several`) and the scoped lock.
--   * `Handles`: the tables of src/capi.cpp that give objects to C by number. The macros are written out
--     once, with the kind of the object as an argument. `Handles.Cells` is one handle,
--     `Handles.Calls` all calls of a client, `Handles.Arrays` the copying of an array.
--   * `Log`: src/log.cpp over spdlog as a record; `Log.Settings` and `Log.Fields` are what the getters
--     find, `Log.Creation` the loggers that are made.
--   * `PadName`: `match_pad_name` of src/impl/pipeline.cpp.
--   * `Retry`: `async_retry` of src/public/cfgo/async.hpp, its loop on fuel; the function that is tried
--     is an argument.
--   * `Sio`: src/sio_helper.cpp, a message of socket.io and its text.
--   * `Client`: src/impl/client.cpp. `Client.Messages` and `Client.Reading` are the messages, with the
--     getters of socket.io as the record `Getters`; `Client.Callbacks` the callbacks of all events,
--     `Client.Candidates` and `Client.Tracks` two callbacks of `subscribe`, `Client.Scope` what it
--     registers (src/public/cfgo/defer.hpp and `MsgChanner`), `Client.Subscribe` its course for all
--     that the others may answer, and `Client.Requests` the other requests.
--   * `CfgoSrc`: src/gst/cfgosrc.cpp. `CfgoSrc.Life` has the states, `CfgoSrc.Owner` the owner and the
--     caps, `CfgoSrc.Pads`, `CfgoSrc.Channels` and `CfgoSrc.Switching` the channels with the references
--     they hold, `CfgoSrc.Loop` the loop, and `CfgoSrc.Posting` the buffers.
--   * `Common`: Boolean tests, lists, texts and integers over the native numbers.
-- The client and its source wait under a close signal, take turns by an async mutex and read one-slot
-- channels. The manager uses blockers, both use channels, and all of them wait on close signals. Track
-- and sink keep their messages in a ring buffer and wake their receiver through a channel.
--
-- Bounds and fuel
--   * `close`, `stop`, `resume` and `set_timeout` of a signal call themselves on children. They take
--     fuel, one unit for each level. For `close` more than the number of open signals is enough,
--     since every level closes one; for the others the depth of the tree is.
--   * `makesure_min_seq` of a track takes one unit more than there are messages in the caches; each
--     call of itself takes one message out.
--   * Ids, epochs and counters of 32 bits wrap at 2 ^ 32, those of bytes at 2 ^ 64, as `u32` and
--     `u64` write out. Durations are unbounded integers. Handles and the counts of references, which
--     are of type `int`, are unbounded too.
--   * The loop of `async_retry` takes one unit of fuel for each round; its body returns in the first.
--   * The theorems on samples ask for a ring buffer of fewer than 2 ^ 32 - 1 places: with as many, no
--     number is left after the renumbering.
--
-- Not modelled
--   * Other projects: asio, asiochan, GStreamer, socket.io, libdatachannel, spdlog. A timer and a
--     clock are parameters.
--   * Data races: a section under a lock is one step. Destructors, but for those of
--     the scope of `subscribe` and of a channel of the source: no other object dies.
--   * Of the client: the set-up of the connection, and which close signal a request takes. Of its source:
--     the names of the ghost pads.
--   * The links of a pipeline and the other GStreamer elements, which mostly call those projects; the
--     text of a double.
--   * `select` without the awaits in it: the timer of the signal and the channel of `stop`.
pub mod AppSink
pub mod AsyncMutex
pub mod Blocker
pub mod Buffer
pub mod CfgoSrc
pub mod Channel
pub mod Client
pub mod CloseSignal
pub mod CoEvent
pub mod Common
pub mod Handles
pub mod Lock
pub mod Log
pub mod Manager
pub mod PadName
pub mod Retry
pub mod Select
pub mod Sio
pub mod Tasks
pub mod Track
