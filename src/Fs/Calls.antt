-- ===== src/Fs/Calls.antt =====
-- 4-fs/fisopfs.c: the table `operations` that is handed to FUSE, as one function over the calls
-- that change the superblock.
pub mod Rules
pub mod Sound
pub mod Reach
use sistemas_operativos_fiub.Common.{ℕ, List}
use sistemas_operativos_fiub.Fs.State.{Superblock, Reply, ok, err, Outcome, done, fault, Host}
use sistemas_operativos_fiub.Fs.Create.{create, mkdir, rmdir, unlink, utimens}
use sistemas_operativos_fiub.Fs.Content.{write, truncate}
use sistemas_operativos_fiub.Fs.Links.{Tails, symlink, link}

-- A call of FUSE with its arguments.
pub data Call : Type 0 where
  create_call : List ℕ → Call
  mkdir_call : List ℕ → Call
  rmdir_call : List ℕ → Call
  unlink_call : List ℕ → Call
  utimens_call : List ℕ → ℕ → ℕ → Call
  truncate_call : List ℕ → ℕ → Call
  write_call : List ℕ → List ℕ → ℕ → Call
  symlink_call : List ℕ → List ℕ → Call
  link_call : Tails → List ℕ → List ℕ → Call

-- The status alone.
abbrev pub status_of : {A : Type 0} → Outcome A → Outcome (Unit {0})
status_of (done (ok a) sb) = done (ok tt) sb
status_of (done (err e) sb) = done (err e) sb
status_of fault = fault

unfoldable pub exec : Host → Call → Superblock → Outcome (Unit {0})
exec h (create_call path) sb = create h path sb
exec h (mkdir_call path) sb = mkdir h path sb
exec h (rmdir_call path) sb = rmdir path sb
exec h (unlink_call path) sb = unlink path sb
exec h (utimens_call path atime mtime) sb = utimens path atime mtime sb
exec h (truncate_call path offset) sb = truncate path offset sb
exec h (write_call path buffer offset) sb = status_of (write h path buffer offset sb)
exec h (symlink_call oldpath newpath) sb = symlink h oldpath newpath sb
exec h (link_call tails oldpath newpath) sb = link h tails oldpath newpath sb
