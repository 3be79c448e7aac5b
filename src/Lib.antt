-- ===== src/Lib.antt =====
-- PXC-Core
--
-- A model of the core data structures of PXC-Core, with the theorems that make them correct.
--
-- The program is a C++ server core in three parts. pxcutils holds the data structures, the text and
-- number formats and the wrappers of the operating system; pxcactor runs actors on schedulers that
-- keep their mailboxes and timeouts in those structures; pxcnet accepts connections and drives them
-- by the poll flags of their sockets. This development models the following files.
--
--   VectorQueue        pxcutils/pxc/utils/VectorQueue.h, a queue over a vector and a read position.
--                      The source's moved-from elements stay in the model's vector; a read out of
--                      range is none.
--   OrderedEvents      pxcutils/pxc/utils/OrderedEventsProcessor.h, which holds events back until
--                      all earlier ones are there. The calls of the user function are the list an
--                      operation returns; a failed LOG_CHECK is none. Sequence numbers wrap at 2 ^ 64.
--   Changes            pxcutils/pxc/utils/ChangesProcessor.h, which hands over changes in the order of
--                      their addition, whatever the order in which they finish.
--   Poll               pxcnet/pxc/net/PollFlags.h and PollFlags.cpp: flags gathered by any thread and
--                      flushed by one. The atomic word and the local flags are the state; each atomic
--                      instruction is one step. What other threads write between the load and the
--                      exchange of flush is an argument of it, and a run is any sequence of calls.
--   Base64             pxcutils/pxc/utils/base64.cpp: both alphabets of the encoder, the decoder and
--                      the validity tests, over lists of bytes.
--   Utf8               pxcutils/pxc/utils/utf8.cpp and utf8.h: validation, reading and writing of one
--                      code, the counters and the truncations, over lists of bytes.
--   Container          pxcutils/pxc/utils/Container.h, slots reached by ids that carry a generation.
--   Heap               pxcutils/pxc/utils/Heap.h, a heap in an array with four children for each
--                      parent. The position that a HeapNode keeps is a function on nodes, none for
--                      -1; keys are natural numbers. A failed CHECK is none, and so is an insert at a
--                      position that is no int32.
--   Timers             pxcactor/pxc/actor/MultiTimeout.cpp and MultiTimeout.h, timeouts by key over the
--                      queue of Heap and the one timeout of their actor, with what
--                      pxcactor/pxc/actor/impl/Scheduler.cpp does for that actor in run_timeout and
--                      Scheduler.h in send_impl: the Timeout event is run at once or left in the
--                      mailbox. Whether the actor is idle, which decides it, and the times that the
--                      clock gives are arguments. Times are natural numbers; the callback is the list
--                      of keys it is called with.
--   FlatHash           pxcutils/pxc/utils/FlatHashTable.h and FlatHashTable.cpp with the MapNode of
--                      MapNode.h, a hash table with open addressing. A key is a natural number, 0 the
--                      empty one; the hash function and the greatest number of nodes are parameters.
--                      A CHECK or DCHECK that fails and a search that finds no end are errors of the result.
--   Urls               pxcutils/pxc/utils/HttpUrl.cpp and HttpUrl.h: parse_url and get_url, with the
--                      integers of misc.h and the digits of StringBuilder.cpp. A string is the list of
--                      its bytes, an int its bit pattern. Whether IPAddress accepts an IPv6 address is
--                      a parameter.
--   Parser             pxcutils/pxc/utils/Parser.h: the operations that take characters off the front
--                      of a text. The state is the text that is left.
--   Json               pxcutils/pxc/utils/JsonBuilder.cpp and JsonBuilder.h: the writers of strings,
--                      the decoder and the skipper of texts, over the Parser, and the fields of
--                      JsonObject. An error is a value of the result.
--   Tl                 pxcutils/pxc/utils/tl_parsers.h, tl_parsers.cpp, tl_storers.h and tl_helpers.h:
--                      values as bytes and back. The host is little-endian with a 64-bit size_t; a
--                      number is its bit pattern. The parser's pointer is the list of the bytes from
--                      it on; a read past them, a write past the buffer and a failed CHECK are
--                      faults. A type's own store and parse are a list of values and of their kinds.
--   Misc               pxcutils/pxc/utils/misc.cpp: hexadecimal digits, URL encoding and the encodings
--                      of runs of zero and one bytes.
--
-- Machine integers. A byte, a word and a size are natural numbers; an operation that may wrap keeps
-- its remainder (% 2 ^ w), and a subtraction that may go below zero adds 2 ^ w first.
--
-- Loops. A loop over a list is structural recursion, also that of ChangesProcessor::finish. Other
-- loops get fuel, enough for every input. The loop that hands over the ready events gets the
-- number of slots and one more, one round for each slot and the last test. The decoder of UTF-8
-- consumes at least one byte a round and gets the number of bytes; the strings, arrays and objects
-- of JSON consume at least one character a round and get the number of characters and one more,
-- and the depth of values is the source's own max_depth. The search of a hash table gets the
-- number of buckets, one of which is empty; the shift after an erased node gets the nodes up to
-- the end of the array and then the number of buckets; emplace starts again once at most, after a
-- resize. The loop over expired timeouts gets the size of the queue, and the one that prints an
-- int ten rounds, one for each digit. The search up a heap halves the position at least and gets
-- the position; the search down leaves the array after as many rounds as it has items.
--
-- Not modelled: the wrappers of the operating system (files, sockets, signals, clocks, threads),
-- of OpenSSL and zlib, the tables of Unicode properties, the lock-free queues and reclamation,
-- whose content is the memory model, and logging. Of JSON, the scopes that write values and the
-- fields of numbers; of HttpUrl.cpp, the parsers of queries and file names; of tl_helpers.h,
-- vectors, pointers and flags; of TlBufferParser, the slices of buffers. Of FlatHashTable.h, the
-- iterators, remove_if and the constructors from lists. The rest of the actors' scheduler and the
-- connections of pxcnet are not modelled either. Allocation never fails, and moved-from values are
-- not told apart from copies.
pub mod Prelude
pub mod Timers
pub mod Tl
pub mod Urls
pub mod Utf8
pub mod VectorQueue
pub mod Base64
pub mod Changes
pub mod Container
pub mod Misc
pub mod Parser
pub mod Json
pub mod FlatHash
pub mod Heap
pub mod OrderedEvents
pub mod Poll
