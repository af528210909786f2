-- ===== src/Lib.antt =====
-- Verification library of the operating systems labs.
--
-- The repository holds programs that do not call each other: a library of user-level threads
-- (threads/), a file system in a file (fs/), a web server with worker threads and a cache (webserver/),
-- and exercises on points and words (warmup/).
--
-- Base: numbers, tests, lists, errors of C calls, signed integers.
--
-- Bitmap: fs/bitmap.c. A bitmap is its size in bits and its bytes; the functions keep their names less
-- the prefix `bitmap_`, a failed assertion is `fault`, an error code `err`. Bitmap.Bits is about the
-- bits of a byte, Valid the invariant, and the others are named for the functions they are about.
--
-- Threads: threads/thread.c. A control block is named by its index in `TCB`. Threads.State is the data,
-- Sched the scheduler (in four files), Wait the wait queues, Lock the locks and condition variables;
-- the functions keep their names. A call that switches to another thread ends in `switches`, with the
-- state in which the next thread goes on; `resume` is what that thread does with its saved context. The
-- new stack that `malloc` gives and the result of `getcontext` are arguments. The searches of the ready
-- queue run on as many rounds as there are identifiers, 1024, and so do the searches for a free
-- identifier and the count of the woken threads: a queue holds each thread at most once. Threads.Spec
-- is the view as lists and places, Threads.Seg the segments of `next` pointers, and Threads.Refine
-- connects the two. Threads.Interrupt is interrupt.c: the signal mask is `enabled` of the state, the
-- timer of the host a flag, and Interrupt.Preempt is about a signal that meets a thread.
--
-- Fs: the file system of fs/ over the bitmaps. Fs.State is what the functions share: the super block,
-- the file that is the device as blocks of bytes with its length, the two freemaps, the inodes in
-- memory by address, and the chains of their hash table. A function is a step on that state which gives
-- a result or `none`, the end of the process by an assertion or `EXIT`; a result is an `int`, negative
-- for an error. Fs.Bytes is memory: a structure is its bytes, the lowest first, as on x86-64. Fs.Block
-- is block.c, Super (with Alloc and Mount) super.c and the start of mktestfs.c (whose end is in
-- Dir.Create), Inode (with Alloc and Create) inode.c, ReadWrite (with Read, Allocate, Write and Free)
-- read_write.c, Dir (with Entries, Create and Show) dir.c, Number common.c, File file.c, Command (with
-- Run) testfs.c. The functions keep their names; what follows a call whose result is tested is a
-- function by clauses on that result. The hash and the chains of list.h are parameters (`Hlist`). A
-- loop over a directory runs on one round for each byte of its size and one more, and stops if these
-- are used up; an entry has nine bytes or more. The calls of pwd and ls go as deep as an argument says,
-- since the directories of a device can form a cycle. The loops over a read or a write run on as many
-- rounds as there are whole blocks in what is left. In Super, Consistent is the invariant, Changed a
-- step that keeps it, Allocate and Release are about allocation, HasBytes, Image, Remount and Closed
-- about mounting, Format about a new file system. Inode.Slot and Reload are about an inode on the
-- device, ReadWrite.Lookup and Found about the map of a file's blocks, Kept about the state while a
-- file is read. Dir.Scan and Listed are about a directory as a list of entries, Answers about the
-- commands for a name that is there or not, Number.Decimal about decimal numbers, Command.Words, Array,
-- Bounds and Dispatch about the words of a command and the command that is run. A buffer that the
-- source does not set before a read is taken as zeros: after a short read of an entry of a directory
-- the bytes behind those that were read are 0, where C leaves them open. The session of testfs has the
-- lines of its input as a list.
--
-- Server: webserver/server_thread.c. Buffer is the ring of requests between `server_request` and the
-- workers (`stub`), each call one pass under the lock, with what it waits for and what it signals as a
-- value; Fifo is about it as a queue, over the positions of Ring. Cache is the table of files, with its
-- order of use in Cache.Lru, `cache_lookup` in Cache.Probe, `cache_insert` and `cache_evict` in
-- Cache.Insert; Cache.Slots is about the probes, Roundtrip about finding what was stored. The probes
-- have a number of rounds as an argument, since they can go round for ever.
--
-- Server.Request is webserver/request.c: what a function writes to the connection is part of its
-- result, the lines of a request and the files of the host are arguments, and an access outside a
-- buffer is `none`; Request.Readfile is about the files that are served. Server.Serve is
-- `do_server_request`, which composes the request with the cache; what other threads do between its two
-- critical sections is an argument.
--
-- Points: warmup/point.c and warmup/sorted_points.c. The list is a sequence of nodes, and `double` with
-- its operations a parameter. The loop of `sp_add_point` runs on as many rounds as there are nodes.
--
-- WordCount: warmup/wc.c. The table is a function from its slots; the search for a slot runs on a
-- number of rounds that is an argument, since it can go round for ever. Counted says when a table
-- counts a list of words, Runs is about one word and Total about a text.
--
-- Not modelled: of fs/ the command lines of its programs; the sockets and programs of webserver/,
-- warmup/fact.c, and the test programs. fs/list.h is a copy of the list of the Linux kernel. `malloc`
-- that is not named above succeeds, and a file can be opened, positioned and written.
pub mod Base
pub mod Bitmap
pub mod Threads
pub mod Server
pub mod Points
pub mod WordCount
pub mod Fs
