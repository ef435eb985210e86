-- ===== src/FileDescriptor.antt =====
-- src/util/file_descriptor.{hh,cc}: a Unix file descriptor with its counters.
pub mod Writes
pub mod Construct
use koho.Prelude.{
  ℕ, zero, suc, ◌+◌, ◌*◌, ◌%◌, ◌^◌, min, Bool, true, false, ◌||◌, ◌&&◌, not, Option, List, [], ◌∷◌,
  ◌++◌, leb, ◌==◌, if◌then◌else◌, length, is_empty, take, drop, increment, minus_one, is_negative,
  Exception, unix_error, runtime_error, Outcome, ok, thrown, running, throw_if, system_call, M,
  ◌>>=◌, ◌>>◌, ◌>>>◌,
}

pub record FileDescriptor : Type 0 where
  pub fd : ℕ
  pub eof : Bool
  pub read_count : ℕ
  pub write_count : ℕ

-- maximum size of a read
abbrev pub buffer_size : ℕ
buffer_size = 1024 * 1024

-- What read(2) and write(2) do on each descriptor: the bytes that a read of so many brings, and how
-- many bytes a write takes. `none` is the return value -1.
pub record Os : Type 0 where
  pub read : ℕ → ℕ → Option (List ℕ)
  pub write : ℕ → List ℕ → Option ℕ

-- `fcntl` answers the call that sets FD_CLOEXEC.
unfoldable pub construct : ℕ → Option ℕ → Outcome FileDescriptor
construct fd fcntl = do
  throw_if (is_negative fd || leb fd 2) (unix_error "FileDescriptor: fd <= 2")
  flags ← system_call "fcntl FD_CLOEXEC" fcntl
  ok (record { fd = fd; eof = false; read_count = 0; write_count = 0 })

-- the new descriptor, and what is left of the old one
unfoldable pub move : FileDescriptor → FileDescriptor × FileDescriptor
move other = (other, record other { fd = minus_one })

-- the descriptors that the destructor closes; a failure of close(2) is printed and forgotten
unfoldable pub destroy : FileDescriptor → List ℕ
destroy s = if is_negative s.fd then [] else s.fd ∷ []

unfoldable pub read : Os → ℕ → M FileDescriptor (List ℕ)
read os limit s = (system_call "read" (os.read s.fd (min buffer_size limit)), s) >>> λ bytes t.
    (ok bytes, record t { eof = is_empty bytes || t.eof; read_count = increment t.read_count })

-- A descriptor with all that the kernel has taken from it.
pub record Sink : Type 0 where
  pub descriptor : FileDescriptor
  pub accepted : List ℕ

abbrev pub wrote : Sink → ℕ → List ℕ → Sink
wrote s n buffer = record {
  descriptor = record s.descriptor { write_count = increment s.descriptor.write_count };
  accepted = s.accepted ++ take n buffer;
}

-- `write( begin, end )`: the list is [begin, end), and the result is what is left of it.
unfoldable pub write_some : Os → List ℕ → M Sink (List ℕ)
write_some os buffer s =
    (
      do
        throw_if (is_empty buffer) (runtime_error "nothing to write")
        system_call "write" (os.write s.descriptor.fd buffer),
      s,
    )
    >>> λ n t.
        if n == 0
        then (thrown (runtime_error "write returned 0"), t)
        else (ok (drop n buffer), wrote t n buffer)

-- `do … while ( write_all and it != end )`
unfoldable pub write_loop : ℕ → Os → Bool → List ℕ → M Sink (List ℕ)
unfolding write_some
write_loop zero os write_all buffer s = (running, s)
write_loop (suc fuel) os write_all buffer s = write_some os buffer s >>> λ rest t.
    let again = write_loop fuel os write_all rest t in
    if write_all && not (is_empty rest) then again else (ok rest, t)

-- Each round but the last takes a byte at least.
unfoldable pub write : Os → List ℕ → Bool → M Sink (List ℕ)
unfolding write_loop
write os buffer write_all s = write_loop (suc (length buffer)) os write_all buffer s
