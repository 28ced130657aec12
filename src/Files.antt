-- ===== src/Files.antt =====
-- lib/common.cpp: the file functions.
use sanitizer_symbolizer_too.Prelude.{ℕ, Bool, true, false, Option, none, some, Bytes}
use sanitizer_symbolizer_too.System.{
  Fd, Io, failed, FileKind, regular, directory, special, OpenFlags, reads_from, writes_to, closes,
  opens, stats, Os,
}
use sanitizer_symbolizer_too.System.Monad.{Sys, pure, emit, answer}

pub data FileAccessMode : Type 0 where
  rd_only wr_only rd_wr : FileAccessMode

-- EINVAL of Linux
abbrev pub einval : ℕ
einval = 22

unfoldable pub open_flags : FileAccessMode → OpenFlags
open_flags rd_only = record { reads = true; writes = false; creates = false; truncates = false }
open_flags wr_only = record { reads = false; writes = true; creates = true; truncates = true }
open_flags rd_wr = record { reads = true; writes = true; creates = true; truncates = false }

-- `if (fd != kInvalidFd) CloseFile(fd)`
unfoldable pub close_valid : Fd → Sys (Unit {0})
close_valid none = pure tt
close_valid (some fd) = emit (closes fd)

module _ (os : Os) where
  open os use {read, write, open_path, stat}

  -- A null name is refused before any call. The error is what `*errno_p` gets.
  unfoldable pub open_file : Option Bytes → FileAccessMode → Sys (Io ℕ)
  open_file none mode = pure (failed einval)
  open_file (some filename) mode =
      answer (λ l. open_path l filename (open_flags mode)) (opens filename (open_flags mode))

  -- The flag says that `buff` is not null.
  unfoldable pub read_from_file : Bool → ℕ → ℕ → Sys (Io Bytes)
  read_from_file false fd buff_size = pure (failed einval)
  read_from_file true fd buff_size = answer (λ l. read l fd buff_size) (reads_from fd)

  unfoldable pub write_to_file : ℕ → Option Bytes → Sys (Io ℕ)
  write_to_file fd none = pure (failed einval)
  write_to_file fd (some buff) = answer (λ l. write l fd buff) (writes_to fd buff)

  abbrev is_regular : Option FileKind → Bool
  is_regular none = false
  is_regular (some regular) = true
  is_regular (some directory) = false
  is_regular (some special) = false

  abbrev is_directory : Option FileKind → Bool
  is_directory none = false
  is_directory (some regular) = false
  is_directory (some directory) = true
  is_directory (some special) = false

  unfoldable pub file_exists : Option Bytes → Sys Bool
  file_exists none = pure false
  file_exists (some filename) = answer (λ l. is_regular (stat l filename)) (stats filename)

  unfoldable pub dir_exists : Option Bytes → Sys Bool
  dir_exists none = pure false
  dir_exists (some path) = answer (λ l. is_directory (stat l path)) (stats path)
