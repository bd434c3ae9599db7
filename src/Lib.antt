-- ===== src/Lib.antt =====
-- DogServer: a WebSocket server for speech, with its client library.
--
-- The program. A client packs a message into a masked frame (src/websocket-client.cc). The server
-- accepts a connection, hands it to an event loop of its own (src/event-loop.cc), and runs
-- WebSocketData (src/websocket-data.cc) on what the poller reports: the HTTP handshake first, then
-- frames that arrive in any pieces, each message stored in a file and answered with a frame of its
-- own, until CLOSE, the text "EOS" or an error. Every thread logs through src/async-logging.cc.
--
-- Where the parts are modelled.
--   Base            lists, bytes, texts, Boolean tests and the lemmas that the parts share.
--   Client.Frame    src/websocket-client.cc: webSocket_enPackage is en_package,
--                   webSocket_dePackage is de_package, webSocket_getRandomString is
--                   get_random_string over a parameter for rand(). Casts to 32 bits are written
--                   out; a store behind the buffer is the outcome `fault`.
--   Client.Base64   src/websocket-client.cc: websocket_base64_encode and websocket_base64_decode;
--                   Standard is the text of RFC 4648, apart from the code.
--   Client.Sha1     src/websocket-client.cc: SHA1Reset, SHA1Input, SHA1PadMessage, SHA1Result and
--                   SHA1ProcessMessageBlock, with unsigned words of 32 bits; sha1_hash gives the
--                   digest. Standard is SHA-1 of RFC 3174, apart from the code.
--   Client.Keys     the printed digest, htoi, webSocket_buildShakeKey,
--                   webSocket_buildRespondShakeKey and webSocket_matchShakeKey, and the answer
--                   of RFC 6455 in terms of the two standards.
--   Client.Http     webSocket_buildHttpHead, webSocket_buildHttpRespond,
--                   webSocket_serverLinkToClient, and strstr and sscanf as the code uses them. The
--                   date of strftime is an argument.
--   Client.Link     webSocket_clientLinkToServer from its socket on; what connect and recv return is
--                   an argument, by the value of timeOut at the call.
--   Client.Transfer webSocket_send is web_socket_send, webSocket_recv is web_socket_recv over the
--                   calls of recv that it makes, each within the room that it gives.
--   Client.Program  bin/dog-client.cc: the messages that SendThread sends for a file; Listing is
--                   load_list; Senders is SendThread of every thread on the shared list and the loop
--                   of main with both of its exits, interleaved. What a thread finds in param->thread_id is an argument.
--   Server.Socket   ioctl(FIONREAD) and read as an interface with its laws.
--   Server.Packet   src/packet-buffer.h. `data_` is the first `len_` bytes of the buffer.
--   Server.Receive  readAndParsePacket, one function per block. Its children hold the decoder of
--                   byte lists that it refines, the invariant, and what pieces come to.
--   Server.Send     writeData over the calls of write that it makes, and sendResult.
--   Server.Http     readAndParseHead, parseHead and the responses; sha1 and base64_encode are
--                   arguments.
--   Server.Connection   WebSocketData: a record for its members, with what was sent and stored, and
--                   handle_read, handle_conn and all that they call. The calls of one handler to
--                   read and write are the record Calls; the text of formatJson is an argument.
--   Server.Loop     EventLoop: queueInLoop, wakeup, handleRead, doPendingFunctors as steps of the
--                   loop's thread and of the others; Descriptor is readn and writen over the
--                   calls of read and write that they make.
--   Server.Channel  src/channel.h: the members, EqualAndUpdateLastEvents and handleEvents, as the list
--                   of the handlers it calls.
--   Server.Poller   src/cur-epoll.cc: epoll_add, epoll_mod, epoll_del, poll, getEventsRequest. The
--                   kernel's side of epoll is an interface with its laws; channels are numbered objects.
--   Server.Pool     getNextLoop (src/event-loop-thread-pool.cc) over flags that change from round to
--                   round, and handNewConn (src/server.cc) over what accept gives; Serving is both a
--                   round at a time, while connections close.
--   Threads         Thread (src/cur-thread.cc), CountDownLatch (src/countdown-latch.cc),
--                   EventLoopThread (src/event-loop-thread.cc) and quit (src/event-loop.cc): a step for
--                   every shared access of the caller and of the new thread, a block under a mutex
--                   being one. Threads.Pool is EventLoopThreadPool::start over many of them.
--   Logging.Async   src/fixed-buffer.h and src/async-logging.cc: append, and threadFunc in two
--                   steps, the block under the mutex and the rest of the loop; Stopping adds start
--                   and stop.
--   Logging.Stream  src/log-stream.cc: convert and the operators, and the line that src/logging.cc
--                   builds. A ℤ of its own stands on the native numbers.
--   Logging.File    src/log-util.cc: AppendFile::append over the results of fwrite; src/log-file.cc:
--                   append_unlocked with its count.
--   Interop         the client against the server: the handshake, the client's frames at the server,
--                   and the server's frames at the client, whole and in pieces.
--   Tests           runs on small inputs.
--
-- Bounds. Lengths are numbers with the source's casts written out: u32 in the client's code, the
-- int of Packet::resize, the uint64_t of body_size_. Messages of the client are taken shorter than
-- 2 ^ 31, since from there on Packet::resize allocates nothing. Most loops are structural on the
-- bytes, on the lines or on the calls that the system answers, and an outcome says so where those
-- calls are used up inside a loop. Six run on fuel: the two of webSocket_clientLinkToServer, for
-- which their time-outs make 2001 rounds enough; getNextLoop, which has no bound of its own;
-- convert, with the number and one for it, since each round divides by ten; and the pieces of a
-- file and the lines of load_list, with the length of the file.
--
-- Not modelled. The copies of other projects (src/cJSON.cc, src/sha1.cc, src/base64.cc) are
-- arguments; where a theorem needs them to compute the standard's digest and text, it says so. The
-- socket options and command lines are calls of the system; the
-- build with `_ADD_ASR` needs a recogniser that is not in the repository. The names and cached
-- identifiers of threads and the client's name lookup and network interface functions
-- are not modelled. The sum this_conn_bytes_ and the round of getNextLoop are numbers without the
-- overflow of int; the memory that no code has written is an argument. In dog-client a report of the poller is handled before its connection is
-- taken out of the poller.
pub mod Base
pub mod Client
pub mod Server
pub mod Interop
pub mod Logging
mod Tests
pub mod Threads
