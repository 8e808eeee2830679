-- ===== src/Lib.antt =====
-- The chat kit of a desktop messenger (mac/chatkit/cim): a client that logs in to a gate server over
-- TCP, frames protobuf messages with a header of sixteen bytes, and takes such packets apart again.
--
-- The parts, from below:
--   Prelude and its children: natural numbers, tests, lists, text and its decimal numbers, memory as a
--     list of bytes (`window` reads, `blit` writes), and the result `Outcome` of code that may stop at
--     an assert or a null pointer, or in other undefined behaviour: a read behind a string, and the end
--     of a function that has no `return` there.
--   Buffer (base/buffer.h): the byte buffer. Buffer itself has the state, the growth and the writes,
--     Buffer/Read the peeks, reads and searches, Buffer/Bytes the orders of bytes. Buffer/Valid has the
--     invariant and the bytes that a buffer holds; Grow, Contents and Integers say what each
--     operation does to them, and Queue any sequence of them.
--   Slice (base/slice.h): a view of bytes. Compare and Order relate its comparisons to the bytes.
--   Md5 (crypt/md5.cpp, md5.h): Md5/Transform is the block function, Md5 the class. Blocks runs the block
--     function over a message, Pieces and Stream relate an object to the bytes that it was given,
--     Digest and Hex treat what comes out. The session hashes the password with it.
--   Tcp (base/tcp_client.h, tcp_client.cpp): the objects of the class, the map from descriptors to
--     objects, and the handlers that libuv calls. Registry has the invariant of the map, Lifecycle the
--     reachable states and the life of a connection, Stale what a stale descriptor does,
--     Address what the address of the other end is shown as.
--   Files (base/file/file_util.cpp): Files cuts a path into components, Directories creates it with its
--     parents; Paths says which paths are cut right.
--   Client (core/client.h, client.cpp, core/chat_manager.cpp): Client has the state, Frame the two
--     sends, Session login, logout, the connection callback, the timer and the login response,
--     Receive onMessage. Packets and Sending say what goes out, Callbacks what a change of the line
--     does, Timeouts what the timer says, Parsing, Delivery, Answers and Refused what becomes of bytes
--     that come in. Consumption and Termination treat the loop, Invariant what the handlers keep,
--     LoggedOut and Reachable the login status. Silence, Places and Origin say where a response
--     comes from.
--   EventLoop (base/event_loop.cpp): the loop and the memory of its timers; Timers says who may free
--     what.
--   Config (db/config_dao.cpp, db/sqlite3_helper.cpp): the table of settings over the SQL statements
--     that it runs. Laws says what they do, Memory is a database that does it; Query, Update and Create treat
--     the operations, Connection the opening of the database.
--   System: an event of libuv on its way through Tcp to Client, as `login` binds them; Wiring follows
--     a connection that calls its client back, Login is a login from the button to the answer, Loss its
--     end when the line breaks; Invariant and Steps treat all that may happen, Answers which events
--     bring a response.
--   Log (base/log.h, log.cpp): the logger; Levels says what gets through, Places where it is written
--     and when there is a logger.
--   StringUtil (base/util/string_util.cpp): UTF-8 to code points and back; Points treats one code point,
--     RoundTrip a text.
--   StackTrace (base/Exception.cpp): the text of a stack trace, under an OS_LINUX that no build file
--     defines; Frames says what becomes of a frame.
--   Kit (cim_helper.cpp, with the settings of cim_def.h): the start and the end of all parts together;
--     Lifetime says how they end, and what the start answers.
--   UserManager (core/user_manager.cpp): the two HTTP requests; Replies says when they succeed.
--   MsgTime (`FormatMsgTime` of core/chat_manager.cpp): how long ago a message was; Shown
--     says what the text shows of it.
--   MessageModel (cim_def.h, cim_def.cpp): a message as the program keeps it.
--   Dialogs (mac/hellochat/gui): what the buttons of the dialogs do, registration with the
--     user manager's answer; Clicks says what they let through. Email is the regular expression of an
--     address, Words and Addresses say what it describes, Validator is a program that decides it. Acceptance has
--     the callbacks of the login, and says when the dialog accepts.
--   Program (mac/hellochat/main.cpp): the start and the end of the program around the dialogs, with the
--     steps that may lie between; Start says when it gets behind its first call, Life how it ends.
--   Tests: a concrete run for each theorem that has conditions.
--
-- How the code is read. A C++ object is a record and a member function a function from the state to
-- the new state, under `Outcome` where there is an assert; asserts are taken as compiled in. A stop
-- at an assert hides the calls of callbacks before it. A `size_t` wraps at 2^64, a `uint32_t` and a
-- `uint16_t` at their width. Signed integers that are only stored and sent are their bit patterns.
-- The host is little-endian, and `unsigned long` has 64 bits. Callbacks and writes to the socket are
-- lists of events, in order; a callback does not call back into the client. What libuv, the socket
-- calls, the clock and the generated protobuf code give is an argument, or a field of the record
-- `Protobuf`, of which the theorems ask no more than they name.
--
-- Fuel. The loop of `MD5::update` has the length of its input as fuel, the loop of `onMessage` the
-- length of the buffer and one more. That both are enough is proved: the one takes 64 bytes in
-- each round, the other sixteen.
--
-- Interfaces. What the repository does not hold is a record of operations, with a record of laws where
-- the code relies on some: `FileSystem` and `IsFileSystem`, `Database` with `IsLawful` and `IsWorking`,
-- `Json`, `Protobuf`, `Spdlog` with `IsSpdlog`, `DailySink`. The laws of a database say what a statement
-- that does not throw does; that none throws is asked only where a theorem says that the database works.
--
-- Not modelled: the generated protobuf code, the patterns of the log, the widgets,
-- the QML front end, the libuv demonstration in mac/test, the tests; and of the threads, their
-- interleaving inside an operation: each operation and each event of libuv is one step.
pub mod Prelude
pub mod Buffer
pub mod Slice
pub mod Md5
pub mod EventLoop
pub mod Tcp
pub mod Files
pub mod Client
pub mod Config
pub mod System
pub mod Log
pub mod Kit
pub mod UserManager
pub mod MsgTime
pub mod Dialogs
pub mod MessageModel
pub mod StringUtil
pub mod StackTrace
pub mod Program
pub mod Tests
