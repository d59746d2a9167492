-- ===== src/Tests/Sessions.antt =====
-- Sessions of the FTP server on a test machine whose reads give a command at a time.
use socket_program.Base.{
  Leaves, false, Bool-cases, inl, inr, subst, if◌then◌else◌, ◌==ℤ◌, minus_one,
}
use socket_program.Base.{take, drop}
use socket_program.Inet.Os.{Os}
use socket_program.Inet.Socket.{shutdown_loop}
use socket_program.Inet.Connect.Descriptors.{Descriptors}
use socket_program.Protocols.Ftp.State.{Ftp}
use socket_program.Inet.Connect.Sets.{Adds}
use socket_program.Base.{pos, ◌≡◌, refl, true, none, some, [], codes, length}
use socket_program.Inet.Socket.{SslSocket}
use socket_program.Inet.Io.Quiet.{Still}
use socket_program.Inet.Connect.Descriptors.{FdSet, with_fd}
use socket_program.Programs.Server.{ftp_session}
use socket_program.Protocols.Ftp.State.{new_ftp}
use socket_program.Protocols.Ftp.Session.{start_protocol}
use socket_program.Protocols.Ftp.Quiet.Leaky.{Leaky}
use socket_program.Protocols.Ftp.Quiet.Connection.{HostFiles}
use socket_program.Protocols.Ftp.Quiet.Rounds.{start_protocol-Leaky}
use socket_program.Tests.Servers.{taken_still, given_still, no_descriptor, one_descriptor, two_open}
use socket_program.Tests.Wire.{World, wire, wire_descriptors}
use socket_program.Tests.Files.{host, directory, contents}
use socket_program.Base.{contains, is_prefix, to_string, digits_onto, ◌+ℤ◌, ◌-ℤ◌}
use socket_program.Programs.Server.{end_session}
use socket_program.Protocols.Ftp.Session.{
  login_loop, command_loop, handle_login, first_message, ask_password, serve_one, run_handler,
  select_handler, select_from,
}
use socket_program.Protocols.Ftp.Commands.{handle_pwd}
use socket_program.Protocols.Ftp.Data.{
  handle_list, list_body, list_names, list_line, kind_mark, size_column,
}
use socket_program.Protocols.Ftp.State.{drop_client, reply, send, recv, handle_error}
use socket_program.Inet.Io.{
  put_message, put_loop, put_once, get_message, get_loop, get_next, get_once, read_ready, read_once,
}
use socket_program.Inet.Socket.{destroy, close_ssl, destroy_base, close}
use socket_program.Base.{Outcome, done, threw, fault, diverged, Bool}

host-HostFiles : HostFiles host (λ w. w.is_open)
host-HostFiles = record {
  get_host_by_name = λ name w. refl;
  stat = λ name w. refl;
  dir_fails = λ name w. no_descriptor 8 directory w;
  dir_works = λ name w d got.
      let (same, out, opens) = one_descriptor 8 directory w d got in
      subst (λ e. Adds w.is_open e.handle (host.open_dir name w).1.is_open) same (refl, out, opens);
  dir_closes = λ d w. refl;
  file_fails = λ name w. no_descriptor 7 contents w;
  file_works = λ name w c got.
      let (same, out, opens) = one_descriptor 7 contents w c got in
      subst (λ e. Adds w.is_open e.handle (host.open_file name w).1.is_open) same
        (refl, out, opens);
  file_closes = λ c w. refl;
}

-- A read gives four bytes at most, and the peer of descriptor 5 takes nothing.
abbrev messages : Os
messages = record wire {
  read = λ fd room w.
      ((pos (length (take 4 w.inbox)), take 4 w.inbox), record w { inbox = drop 4 w.inbox });
  write = λ fd rest w. if fd ==ℤ pos 5 then (minus_one, w) else wire.write fd rest w;
}

messages-Still : (set : FdSet) → Still messages (λ w. w.is_open ≡ set)
messages-Still set = record {
  write = λ fd rest w h. elim (Bool-cases (fd ==ℤ pos 5)) [
    | inl e ↦ rw e h
    | inr e ↦ rw e (taken_still set 0 (pos 0) rest w h)
  ];
  read = λ fd room w h. h;
  select = λ fd timeout w h. h;
  ssl_write = taken_still set;
  ssl_read = given_still set;
  ssl_shutdown = λ p w h. h;
  ssl_free = λ p w h. h;
  shutdown_write = λ fd w h. h;
}

unfoldable messages_descriptors : Descriptors messages 1
unfolding wire_descriptors shutdown_loop
messages_descriptors = record {
  is_open = λ w. w.is_open;
  socket_lem = wire_descriptors.socket_lem;
  accept_lem = wire_descriptors.accept_lem;
  close_lem = wire_descriptors.close_lem;
  connect_keeps = λ fd host port w. refl;
  connect_invalid = λ host port w. refl;
  reuse_keeps = λ fd w. refl;
  bind_keeps = λ fd port w. refl;
  bind_invalid = λ port w. refl;
  listen_keeps = λ fd backlog w. refl;
  ssl_new_keeps = λ ctx w. refl;
  set_fd_keeps = λ p fd w. refl;
  set_mode_keeps = λ p mode w. refl;
  ssl_accept_keeps = λ p w. refl;
  ssl_free_keeps = λ p w. refl;
  certificate_keeps = λ p file w. refl;
  private_key_keeps = λ p file w. refl;
  check_keeps = λ p w. refl;
  shutdown_lem = λ p w. refl;
}

abbrev control : SslSocket
control = record { socket = pos 4; ssl = none; sslctx = none }

-- The peer logs in and asks for the directory.
abbrev typing : World
typing = record two_open { inbox = codes "USERabcdLIST" }

-- With a data connection, on which the listing fails.
abbrev listing : Ftp World
listing =
    record (new_ftp control
      (record typing { is_open = with_fd two_open.is_open (pos 5) true; fresh = 6 })) {
        client = some (record { socket = pos 5; ssl = none; sslctx = none });
      }

start_protocol-Leaky_example :
    Leaves
      (Leaky messages 1 messages_descriptors host two_open.is_open (pos 4))
      (start_protocol messages host (λ old wanted. some wanted) 1 15 3 listing)
unfolding messages_descriptors
start_protocol-Leaky_example =
    start_protocol-Leaky messages 1 messages_descriptors two_open.is_open messages-Still (pos 4)
      host host-HostFiles (λ old wanted. some wanted) 15 3 listing
      ([], (tt, tt, (refl, (refl, refl, refl))))

-- The peer logs in and asks for the name of the directory.
abbrev naming : World
naming = record two_open { inbox = codes "USERabcdPWD " }

-- How these runs end: with a result or an exception, and whether the directory, at descriptor 8, is open.
has_end : {W A : Type 0} → Outcome W A → Bool
has_end (done u w) = true
has_end (threw e w) = true
has_end fault = false
has_end diverged = false

directory_open : {A : Type 0} → Outcome (Ftp World) A → Bool
directory_open (done a f) = f.world.is_open (pos 8)
directory_open (threw e f) = f.world.is_open (pos 8)
directory_open fault = false
directory_open diverged = false

-- The session ends by itself.
session_ends :
    has_end (ftp_session messages 1 host (λ old wanted. some wanted) 3 control naming) ≡ true
unfolding has_end ftp_session end_session start_protocol login_loop command_loop handle_login
    first_message ask_password serve_one run_handler select_handler select_from contains is_prefix
    handle_pwd reply send recv handle_error put_message put_loop put_once get_message get_loop
    get_next get_once read_ready read_once destroy close_ssl destroy_base close ◌+ℤ◌ ◌-ℤ◌
session_ends = refl

-- The directory whose listing was broken off is open at the end.
listing_leaks :
    directory_open (start_protocol messages host (λ old wanted. some wanted) 1 15 3 listing) ≡ true
unfolding directory_open start_protocol login_loop command_loop handle_login first_message
    ask_password serve_one run_handler select_handler select_from contains is_prefix handle_list
    list_body list_names list_line kind_mark size_column to_string digits_onto drop_client reply
    send recv handle_error put_message put_loop put_once get_message get_loop get_next get_once
    read_ready read_once destroy close_ssl destroy_base close ◌+ℤ◌ ◌-ℤ◌
listing_leaks = refl
