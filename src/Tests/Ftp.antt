-- ===== src/Tests/Ftp.antt =====
-- The theorems on FTP, applied to runs of the test machine.
use socket_program.Base.{
  true, some, pos, ◌≡◌, refl, false, none, [], Bytes, codes, arith, contains, is_prefix, to_string,
  digits_onto, scan_text, scan_word, skip_spaces, span_word, c_str,
}
use socket_program.Inet.Socket.{SslSocket}
use socket_program.Protocols.Ftp.State.{Ftp, new_ftp}
use socket_program.Protocols.Ftp.Commands.{scan_argument}
use socket_program.Protocols.Ftp.Data.{handle_port, open_client}
use socket_program.Inet.Connect.Descriptors.{with_fd}
use socket_program.Protocols.Ftp.Data.Ports.{Target, handle_port-command}
use socket_program.Protocols.Ftp.Session.{cwd, select_handler, run_handler}
use socket_program.Protocols.Ftp.Session.Answers.{Answered, run_handler-Answers}
use socket_program.Protocols.Ftp.Session.Dispatch.{select_handler-Pass, is_transfer}
use socket_program.Tests.Wire.{World, wire, wire_outgoing, start}
use socket_program.Tests.Files.{host, exact}

abbrev control_socket : SslSocket
control_socket = record { socket = pos 2; ssl = none; sslctx = none }

-- A session that has received a command.
abbrev after : Bytes → Ftp World
after message = record (new_ftp control_socket (start [])) { recv_message = message }

run_handler-Answers_example :
    Answered wire wire_outgoing
      (after (codes "CWD docs\r\n"))
      (codes "250 Directory successfully changed.\r\n", codes "/home/ho80//docs")
      (run_handler wire host exact 1 15 cwd (after (codes "CWD docs\r\n")))
unfolding scan_argument scan_text scan_word skip_spaces span_word c_str is_prefix
run_handler-Answers_example =
    run_handler-Answers wire wire_outgoing host exact 1 15 cwd (after (codes "CWD docs\r\n")) _ refl
      (omega arith)

select_handler-Pass_example : is_transfer (select_handler (codes "RETR PASS.txt\r\n")) ≡ false
unfolding contains is_prefix
select_handler-Pass_example = select_handler-Pass (codes "RETR PASS.txt\r\n") refl

abbrev desk : Target
desk = record { a = 192; b = 168; c = 0; d = 7; port = 5001 }

handle_port-command_example :
    handle_port wire host exact 1 (after (codes "PORT 192,168,0,7,19,137\r\n"))
    ≡ open_client wire host exact 1
        (codes "192.168.0.7")
        (pos 5001)
        (after (codes "PORT 192,168,0,7,19,137\r\n"))
unfolding to_string digits_onto
handle_port-command_example =
    handle_port-command wire host exact 1 (after (codes "PORT 192,168,0,7,19,137\r\n")) desk
      ((omega arith, (omega arith, (omega arith, (omega arith, tt)))), omega arith) refl

-- A session with a data connection on the descriptor 3.
abbrev connected : Ftp World
connected =
    let w : World = start [] in
    record (new_ftp control_socket
      (record w { is_open = with_fd w.is_open (pos 3) true; fresh = 4 })) {
        client = some (record { socket = pos 3; ssl = none; sslctx = none });
      }
