-- ===== src/Tests/Files.antt =====
-- The file system, the name service and the string library of the tests.
use socket_program.Base.{pos, true, false, none, some, [], ◌∷◌, drop, codes, if◌then◌else◌}
use socket_program.Inet.Connect.Descriptors.{with_fd}
use socket_program.Protocols.Simple.{Reserve}
use socket_program.Protocols.Ftp.Data.{Dir, Contents, Host, regular}
use socket_program.Protocols.Http.State.{File, Site}
use socket_program.Tests.Wire.{World}

abbrev pub page : File
page = record { handle = pos 9; end = pos 7; bytes_from = λ n. drop n (codes "<p>hi\r\n") }

-- The page is at descriptor 9, unless that is open.
abbrev pub site : Site World
site = record {
  open_file = λ name w.
      if w.is_open (pos 9)
      then (none, w)
      else (some page, record w { is_open = with_fd w.is_open (pos 9) true });
  close_file = λ f w. record w { is_open = with_fd w.is_open f.handle false };
  date = λ w. (codes "Mon Dec 25\n", w);
}

abbrev pub directory : Dir
directory = record { handle = pos 8; names = codes "a" ∷ [] }

abbrev pub contents : Contents
contents = record { handle = pos 7; text = codes "data" }

-- The directory is at descriptor 8 and the file at 7, unless these are open.
abbrev pub host : Host World
host = record {
  get_host_by_name = λ name w. (some (name ∷ []), w);
  open_dir = λ name w.
      if w.is_open (pos 8)
      then (none, w)
      else (some directory, record w { is_open = with_fd w.is_open (pos 8) true });
  close_dir = λ d w. record w { is_open = with_fd w.is_open d.handle false };
  stat = λ name w. (some (record { kind = regular; size = 7; links = 1; uid = 0 }), w);
  open_file = λ name w.
      if w.is_open (pos 7)
      then (none, w)
      else (some contents, record w { is_open = with_fd w.is_open (pos 7) true });
  close_file = λ c w. record w { is_open = with_fd w.is_open c.handle false };
}

abbrev pub exact : Reserve
exact old asked = some asked
