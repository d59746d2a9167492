-- ===== src/Lib.antt =====
-- A model of SocketProgram: a C++ library of RAII sockets with TLS (libs/Inet), the protocols written
-- on it (libs/Protocols: plain messages, an FTP server, both sides of HTTP), and small programs (src/).
--
-- How the parts interact. A program makes a `ServerSocket` and gives each `IOSocket` that `accept`
-- returns to a protocol object, or makes a `ConnectSocket`. A protocol keeps a reference to its
-- `IOSocket` and calls `putMessage`, `getMessage` and `putClose`. `ProtocolFtp` makes and deletes a
-- second socket, the data connection, which it wraps in a `ProtocolSimple`.
--
-- The effects. A call is a function from a state to an outcome (Base/Effects.antt): it returns, throws
-- one of the program's exceptions and leaves a state, runs into undefined behaviour (`fault`), or does
-- not come to an end within its fuel (`diverged`). `>>=` is the semicolon, `try_catch` the try block,
-- and destructors are calls where C++ runs them. Log lines are left out.
--
-- The files, with the paths of the code they are about:
--   Base/*          helpers: tests, lists and numbers on the native naturals, C integers with their
--                   wrap-around (Int), texts with `find`, `to_string` and the `sscanf` directives
--                   (Text, Decimal), outcomes and the rules of proof for them (Effects, Ensure).
--   Inet/Os         the system calls and OpenSSL functions, a record of functions on a world.
--   Inet/Socket     libs/Inet/Socket.h and Socket.cpp: BaseSocket, SSLSocket, `putClose`. The
--                   object is the record SslSocket of its three members; a method runs on Held, the
--                   object with the world. Socket/Moves: the move constructor.
--   Inet/Io         `IOSocket::putMessage`, and `getMessage` of libs/Inet/Socket.tpp. Io/Transport
--                   states what they rely on in read, write and their TLS forms; Io/Delivery and
--                   Io/Stream are the theorems.
--   Inet/Ctx        SSLCtx.
--   Inet/Connect    ConnectSocket, ServerSocket and `accept`. Connect/Descriptors states what they
--                   rely on for the set of open descriptors; Balance, Leaks, Server and Accept are
--                   the theorems, and Sets is about sets of descriptors.
--   Protocols/Simple    libs/Protocols/ProtocolSimple.cpp. Simple/Stream: `recvMessage`.
--   Protocols/Ftp       libs/Protocols/ProtocolFtp.cpp: State (members and shared methods),
--                       Commands and Data (the handlers without and with the data connection),
--                       Session (HandleLogin and startProtocol). Data/Ports, Data/Ownership,
--                       Session/Answers and Session/Dispatch are the theorems, and Quiet/Rounds,
--                       with Quiet/*, one for each group of handlers, for what they leave open. A
--                       directory and a file that are open have a descriptor (Dir, Contents).
--   Protocols/Http      libs/Protocols/ProtocolHttp.cpp: State, Request (recvRequest, _ReadLine,
--                       _ParseRequestHeader), Resource (_GetBodySize), Response (sendResponse,
--                       _SendBody, _ResponseError), Client (sendRequest, sendRequestFd,
--                       recvMessage). Sending, Request/Lines, Request/Parsing, Request/Roundtrip,
--                       Resource/Ranges, Resource/Names, Response/Body, Response/Errors,
--                       Response/Serving, Response/Partial and Client/Requests are the proofs.
--   Ffmpeg/*        libs/Ffmpeg/muxer.cpp and muxer.h: State (OutputStream), Streams (add_stream,
--                   open_audio, open_video, close_stream), Image (fill_yuv_image), Frames
--                   (get_audio_frame and the others), with Library for FFmpeg. Streams/Choice and
--                   Opening, Image/Pixels and Filling, Frames/Sound, Audio, Video, Rounds and
--                   Audio/Steps are the proofs; Frames/Laws and the record Opens of Streams/Opening
--                   state what they rely on.
--   Programs/Muxer  src/muxer.cpp. Muxer/Interleaving: its loop.
--   Programs/Echo   src/sserver.cpp, on its own calls of OpenSSL (Echo/Library): the loops (Echo),
--                   what a client gets back (Echo/Echoing), and `password_cb` (Echo/Password).
--                   Echo/Laws states what they rely on.
--   Programs/Server src/server.cpp and src/ftpServer.cpp, which differ in the function of their
--                   threads: http_session and ftp_session, each from its start to its end.
--                   accept_one is a round of the accept loop. Server/Accepting, Threads and
--                   Leftover are the proofs, with Inet/Io/Quiet, Protocols/Http/Quiet and
--                   Protocols/Ftp/Quiet, which say what the calls on a socket leave alone.
--   Programs/Client src/client.cpp. Client/Descriptors: the descriptors that it leaves.
--   Programs/Person src/Person.cpp, on a heap of its own (Person/Memory). The code frees memory of
--                   `new char[]` by `delete`, which is undefined; whether the implementation takes
--                   it for `delete[]` is an argument (lenient), and the theorems say that it does.
--                   Person/Blocks, Ownership and Sequences are the proofs.
--   Tests/*         a test machine and the theorems applied to runs on it.
--
-- Parameters, for code that is not the program's: the system and OpenSSL (Os), the capacity that
-- `std::string::reserve` gives (Reserve), the name service and the file system (Host, Site), the
-- allocator behind `new` (Alloc). The theorems name what they need of them: Outgoing, Incoming,
-- Descriptors, Bounded; Still, that a call on an open socket leaves the set of open descriptors
-- alone; and SiteFiles and HostFiles, that opening a file or a directory gives a descriptor that was
-- not open, or fails, that closing it closes that, and that the clock and the name service open
-- none. Tests/Wire has an instance of the first three, Tests/Messages of Bounded and Tests/Servers
-- and Tests/Sessions of the last three. OpenSSL for the echo server and FFmpeg are parameters as
-- well (Echo/Library, Ffmpeg/Library), with the hypotheses of Echo/Laws, Frames/Laws and
-- Streams/Opening, and instances in Tests/Programs and Tests/Muxer.
--
-- Numbers: descriptors and returned codes are integers; `size_t` counts keep the wrap-around at 2 ^ 64
-- where the code can reach it (add_size, sub_size), and an `int` that takes such a count is narrowed
-- (to_int). A theorem that needs a buffer below 2 ^ 31 bytes says so, since `putMessage` and
-- `getMessage` keep the count of a call in an `int`.
--
-- Fuel: `putMessage` and `getMessage` have a round for each byte and one more, and are proved to come
-- to an end in them, since each round moves a byte. `recvMessage` takes its rounds as an argument, and
-- the theorem says how many are enough. `SSL_shutdown` is called until it gives something other than 0:
-- its rounds are an argument, and Descriptors says that they are enough. `while(HandleLogin() != 0)`,
-- `while(1)`, and the loop over the lines of a file take their rounds as an argument too; the first two
-- have no bound in the code. The loops of the echo server and of the muxer take their rounds too, and the
-- theorems say how many are enough for a client and for a file.
--
-- Not modelled: threads of a server that run at once, and so the loop that starts them;
-- src/muxServer.cpp beyond what it shares with src/server.cpp, since the class ProtocolMuxer of
-- its threads is not in the repository; src/Elevator.cpp, src/main.cpp and src/vimtest.cpp,
-- exercises with threads, time and the vectors of the standard library; and the build files.
pub mod Base
pub mod Inet
pub mod Ffmpeg
pub mod Protocols
pub mod Programs
pub mod Tests
