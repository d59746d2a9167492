-- ===== src/Protocols/Ftp/Quiet/Leaky.antt =====
-- What a session of libs/Protocols/ProtocolFtp.cpp leaves open, with directories whose listing was broken
-- off.
use socket_program.Base.{ℕ, ℤ, some, List, [], ◌++◌, ◌∷◌, Bytes, ◌≡◌, sym, subst}
use socket_program.Base.{Outcome, Leaves, Leaves-map}
use socket_program.Inet.Os.{Os}
use socket_program.Inet.Connect.Descriptors.{FdSet, Descriptors}
use socket_program.Inet.Connect.Sets.{opened, AllFresh, opened-append, AllFresh-append}
use socket_program.Protocols.Ftp.State.{Ftp}
use socket_program.Protocols.Ftp.Data.{Dir, Host}
use socket_program.Protocols.Ftp.Quiet.{Kept}

-- A descriptor that `opendir` gave.
abbrev pub OfDirectory : {W : Type 0} → Host W → ℤ → Type 0
OfDirectory {W} host fd =
    (name : Bytes) × (w : W) × (d : Dir) × ((host.open_dir name w).0 ≡ some d) × (d.handle ≡ fd)

abbrev pub Directories : {W : Type 0} → Host W → List ℤ → Type 0
Directories host [] = Unit {0}
Directories host (fd ∷ fds) = OfDirectory host fd × Directories host fds

pub Directories-append :
    {W : Type 0} (host : Host W) (xs ys : List ℤ)
    → Directories host xs
    → Directories host ys
    → Directories host (xs ++ ys)
Directories-append host [] ys dx dy = dy
Directories-append host (x ∷ xs) ys (d, dx) dy = (d, Directories-append host xs ys dx dy)

-- The same, with descriptors that nothing in the object stands for any more: those of directories whose
-- listing was broken off.
abbrev pub Leaky :
    (os : Os) (fuel : ℕ) → Descriptors os fuel → Host os.World → FdSet → ℤ → Ftp os.World → Type 0
Leaky os fuel fds host base fd f =
    (leaked : List ℤ) × (AllFresh base leaked
      × Directories host leaked
      × Kept os fuel fds (opened base leaked) fd f)

module _ (os : Os) (fuel : ℕ) (fds : Descriptors os fuel) (host : Host os.World) (base : FdSet)
    (fd : ℤ) where
  -- What keeps the one keeps the other.
  pub carried :
      {A : Type 0} (leaked : List ℤ) (o : Outcome (Ftp os.World) A)
      → AllFresh base leaked
      → Directories host leaked
      → Leaves (Kept os fuel fds (opened base leaked) fd) o
      → Leaves (Leaky os fuel fds host base fd) o
  carried leaked o fresh dirs l = Leaves-map (λ f k. (leaked, (fresh, dirs, k))) o l

  pub carried_on :
      {A : Type 0} (leaked : List ℤ) (o : Outcome (Ftp os.World) A)
      → AllFresh base leaked
      → Directories host leaked
      → Leaves (Leaky os fuel fds host (opened base leaked) fd) o
      → Leaves (Leaky os fuel fds host base fd) o
  carried_on leaked o fresh dirs l =
      Leaves-map
        (λ f (more, (fresh', dirs', k)). (
          more ++ leaked,
          (
            AllFresh-append base more leaked fresh fresh',
            Directories-append host more leaked dirs' dirs,
            subst (λ set. Kept os fuel fds set fd f) (sym (opened-append base more leaked)) k,
          ),
        ))
        o l
