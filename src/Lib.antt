-- ===== src/Lib.antt =====
-- Verification of nwaku, the Nim implementation of the Waku protocols, and of the C programs that
-- use it as a library.
--
-- A node relays messages on pub-sub topics. The relay asks a validator for its verdict on each
-- message: with RLN, it is to hold the senders to one message in an epoch. Service nodes answer
-- requests: the archive keeps messages, and finds them again for the store protocol; the filter
-- protocol keeps the topics that each client subscribes to, and pushes to it the messages in them,
-- and a token bucket limits the requests. Content topics are sorted by the pub-sub topic that a
-- hash of their names chooses, and a node's record says which of these it serves. C programs use a
-- node through libwaku: two clients for the terminal, and an addon for Node.js.
--
-- Base. Shared names, Boolean tests, lists over the native numbers, bits, decimal digits, signed
--   integers, and C programs as state passing. `none` stands for undefined behaviour in C, and in
--   Nim for a Defect, which ends the program.
-- Base64. examples/cbindings/base64.c and examples/cpp/base64.cpp: b64_encoded_size and b64_encode,
--   and the encoding of RFC 4648 that they are compared with.
-- CClient. examples/cbindings/waku_example.c: the command line and its configuration (CClient,
--   Config), the calls of libwaku and its callbacks (Requests), publish_message (Publish), the loop
--   over the user's commands (Menu), main (Main), and the memory (Leaks). Requests also has the
--   declarations of library/libwaku.h as data.
-- CppClient. examples/cpp/waku.cpp: the same parts of the client in C++, and the calls of its main
--   (Main.Calls).
-- Addon. examples/nodejs/waku_addon.c: its state and callbacks (Addon), the functions that
--   JavaScript calls (Methods), what becomes of a call of WakuRelayPublish (Publish), and the memory
--   (Memory).
-- Libwaku. library: the threads of waku_thread.nim, the caller's and the node's, as steps on what they
--   share (Thread), which its children are about: Valid, Caller, Attending and Answers that calls are
--   answered in order, Rank and Progress that they end, Faults what a signal that is lost leaves
--   behind. Then inter_thread_communication, what the node makes of a request (Requests), the reader
--   of messages of json_message_event.nim (Json), and the functions of libwaku.nim (State, Api), for
--   which the two threads are one call of process. Calls and Replies are about one call, Runs about calls in any order,
--   Careful and Total about when they return, Program about those of a program that creates a node,
--   Published about waku_relay_publish, and Linked about the C client's main with this library.
-- Filter. waku/waku_filter_v2: the tables of subscriptions.nim (Tables), its operations, such as
--   addSubscription, removeSubscription and cleanUp (Subscriptions), and of protocol.nim
--   handleSubscribeRequest and maintainSubscriptions (Protocol). The invariant of the two tables is
--   in Valid. Runs, Delivery and Withdrawal are about sequences of requests, and about who is sent a
--   message behind them.
-- Message. waku/waku_core/message/message.nim: the record that the archive and RLN share.
-- Archive. waku/waku_archive: the keys of messages and their comparison, index.nim (Index), the queue
--   of queue_driver.nim (Queue) and its search for a page (Pages), findMessages (Find) and
--   handleMessage (Handle) of archive.nim. SortedSet says what the set of stew is relied on for, and
--   Order has the orders that keys are compared by. Bounded compares the queue with a set that
--   forgets nothing (Unbounded). Responses, Cursors, Split, Paging and Resuming are about a client
--   that asks for page after page, Stored and Handled about what it finds behind any sequence of
--   puts and of messages. Counts has what the driver says of itself, and ListSet is a set that has
--   the laws.
-- Store. waku/waku_store: handleQueryRequest, and of waku/node/waku_node.nim the translation of
--   queries and answers (Store). Aligned and Paging are about a client that asks for page after page,
--   and Limits about the number of queries that are answered.
-- RateLimit. waku/common/tokenbucket.nim and waku/common/ratelimit.nim: tryConsume, replenish and
--   checkUsage.
-- Rln. waku/waku_rln_relay: the log of nullifiers, hasDuplicate, updateLog and clearNullifierLog
--   (Log), validateMessage, validateMessageAndUpdateLog and the validator (Validation), when a message
--   is valid (Acceptance), sequences of messages (Limits, Clearing, Silence), slideRootQueue (Roots)
--   and getNonce (Nonces).
-- Topics. waku/waku_core/topics: the parsers and the printed forms of content topics (Content) and
--   of pub-sub topics (Pubsub), getGenZeroShard and getShard (Autosharding) and parseSharding
--   (Grouping). Text has what they take from Nim's string library.
-- Enr. waku/waku_enr/sharding.nim: toIndicesList, toBitVector and their readers.
--
-- Numbers are natural numbers, with the wrap-around of a width written out where an operation can
-- reach it. Each reading of the clock is an argument, and a length of time is a natural number. A
-- text is the list of its bytes, and a hash table is an association list, whose order stands for the
-- table's. Loops are structural recursion, on a list or on a number. The two that ask for page after
-- page (Archive.Paging, Store.Paging) take a number of requests at most: it is shown that as many
-- as there are messages and one more are enough.
--
-- Parameters stand for code that the modelled parts only call: for the C programs libwaku as they see
-- it (library/libwaku.h), which only Linked fills in; for libwaku the node itself and the readers of
-- JSON and base 64; Node-API, the sorted set of stew, its byte orders and its decimal decoder, SHA-256
-- and the hash of messages, the reader of protobuf fields, and the hash and the check of proofs of
-- zerokit.
--
-- libwaku is the build without RLN, with one context, whose threads start. Of its memory the blocks
-- from allocShared and createShared are counted, and not the signals and the threads. A channel of it holds one
-- item, and a signal that is fired is kept for one wait, as the libraries for them say.
--
-- Not modelled: connections, streams and timers, logging and metrics, set-up and configuration, the
-- databases, cryptography, and what stands on them: the SQL drivers of the archive and the retention
-- policies that only they carry out, and the encoding of requests. waku_store_query does nothing
-- yet. The legacy store protocol and the choice of peers have logic of their own, and no model here.
pub mod Base
pub mod Base64
pub mod CClient
pub mod Addon
pub mod RateLimit
pub mod Store
pub mod Enr
pub mod Filter
pub mod Topics
pub mod Rln
pub mod Archive
pub mod Message
pub mod CppClient
pub mod Libwaku
