-- ===== src/Programs/Server/Leftover.antt =====
-- Which descriptors a thread of src/ftpServer.cpp leaves open.
use socket_program.Base.{ℤ, ◌≡◌, ◌⊎◌, ◌∷◌, List}
use socket_program.Inet.Os.{Os}
use socket_program.Inet.Connect.Descriptors.{FdSet, Descriptors}
use socket_program.Protocols.Ftp.State.{Ftp}
use socket_program.Protocols.Ftp.Data.{Host}
use socket_program.Protocols.Ftp.Quiet.Leaky.{Leaky, Directories}
use socket_program.Inet.Connect.Sets.{opened, AllFresh}

-- All of them were given by `opendir`, but for the first at most.
abbrev pub ButOne : {W : Type 0} → Host W → List ℤ → Type 0
ButOne host fds =
    Directories host fds ⊎ ((fd : ℤ) × (more : List ℤ) × (fds ≡ fd ∷ more) × Directories host more)

-- The same set, and descriptors that are valid and were not open before.
abbrev pub OnlyMore : {W : Type 0} → Host W → FdSet → FdSet → Type 0
OnlyMore host before now =
    (left : List ℤ) × (AllFresh before left × ButOne host left × (now ≡ opened before left))
