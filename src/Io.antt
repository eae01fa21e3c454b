-- ===== src/Io.antt =====
-- crates/tpx-io: the file behind a buffer for appends (mmap.rs), as lists of bytes. The file system
-- itself does not fail here, but for a file that is not there or is locked, and a read past the end;
-- offsets stay below the 2 ^ 63 bytes that it allows.
pub mod Contents
pub mod Refine
pub mod Examples
use orthos_i_dart_tpx.Base.{
  ℕ, ◌+◌, ◌-◌, ◌*◌, List, [], ◌∷◌, ◌++◌, length, take, drop, replicate, leb, ltb, ◌==◌, ◌||◌, max,
  if◌then◌else◌, Bool, Option, none, some,
}
use orthos_i_dart_tpx.Core.Error.{
  Result, ok, err, io, unexpected_eof, os_error, already_locked, read_only_mode,
}
use orthos_i_dart_tpx.Core.Types.{OpenMode, read_only, read_write, append}

-- `WRITE_BUFFER_LIMIT`.
abbrev pub write_buffer_limit : ℕ
write_buffer_limit = 1024 * 1024

-- `seek` and `write_all`: bytes over and behind those of a file; a gap reads as zeros.
unfoldable pub write_span : List ℕ → ℕ → List ℕ → List ℕ
write_span file offset [] = file
write_span file offset (b ∷ bytes) =
    take offset file
    ++ (replicate (offset - length file) 0
        ++ ((b ∷ bytes) ++ drop (offset + length (b ∷ bytes)) file))

-- `seek` and `read_exact`.
unfoldable pub read_span : List ℕ → ℕ → ℕ → Result (List ℕ)
read_span file offset len =
    if (len == 0) || leb (offset + len) (length file)
    then ok (take len (drop offset file))
    else err (io unexpected_eof)

-- `set_len`: a longer file is filled with zeros.
unfoldable pub set_len : List ℕ → ℕ → List ℕ
set_len file len = take len file ++ replicate (len - length file) 0

pub record Backend : Type 0 where
  pub file : List ℕ
  pub write_buffer : List ℕ
  pub write_buffer_start : ℕ
  pub logical_len : ℕ
  pub mode : OpenMode

abbrev pub opened : List ℕ → OpenMode → Backend
opened file mode = record {
  file = file;
  write_buffer = [];
  write_buffer_start = length file;
  logical_len = length file;
  mode = mode;
}

writer : Bool → List ℕ → OpenMode → Result Backend
writer locked file mode = if locked then err already_locked else ok (opened file mode)

-- `open_or_create` over the file that is there, if any; `locked` is another writer's lock. Error 2 is
-- the operating system's for a file that is not there.
unfoldable pub open_or_create : Option (List ℕ) → Bool → OpenMode → Result Backend
unfolding writer
open_or_create none locked read_only = err (io (os_error 2))
open_or_create (some file) locked read_only = ok (opened file read_only)
open_or_create none locked read_write = writer locked [] read_write
open_or_create (some file) locked read_write = writer locked file read_write
open_or_create none locked append = writer locked [] append
open_or_create (some file) locked append = writer locked file append

-- `flush_buffer_internal`.
unfoldable pub flush_buffer : Backend → Backend
flush_buffer s = if length s.write_buffer == 0 then s else record s {
  file = write_span s.file s.write_buffer_start s.write_buffer;
  write_buffer_start = s.write_buffer_start + length s.write_buffer;
  write_buffer = [];
}

abbrev pub can_write : OpenMode → Bool
can_write read_only = Bool.false
can_write read_write = Bool.true
can_write append = Bool.true

place_at : ℕ → List ℕ → Backend → Backend
place_at offset bytes s =
    let end = offset + length bytes in
    record s {
      file = write_span s.file offset bytes;
      logical_len = max s.logical_len end;
      write_buffer_start = max s.write_buffer_start end;
    }

unfoldable pub write_at : ℕ → List ℕ → Backend → Backend × Result (Unit {0})
unfolding flush_buffer place_at
write_at offset bytes s =
    if can_write s.mode
    then (place_at offset bytes (flush_buffer s), ok tt)
    else (s, err read_only_mode)

-- `read_at` and `read_at_into`.
unfoldable pub read_at : ℕ → ℕ → Backend → Backend × Result (List ℕ)
unfolding flush_buffer
read_at offset len s =
    let s' = if ltb s.write_buffer_start (offset + len) then flush_buffer s else s in
    (s', read_span s'.file offset len)

-- The file once the buffer is written out.
abbrev pub drained : Backend → List ℕ
drained s =
    if length s.write_buffer == 0
    then s.file
    else write_span s.file s.write_buffer_start s.write_buffer

-- `append` of data that does not go through the buffer.
append_direct : List ℕ → Backend → Backend
append_direct bytes s = record s {
  file = write_span (drained s) s.logical_len bytes;
  write_buffer = [];
  write_buffer_start = s.logical_len + length bytes;
  logical_len = s.logical_len + length bytes;
}

append_buffered : List ℕ → Backend → Backend
append_buffered bytes s =
    let wb = s.write_buffer ++ bytes in
    if leb write_buffer_limit (length wb)
    then record s {
      file = write_span s.file s.write_buffer_start wb;
      write_buffer = [];
      write_buffer_start = s.write_buffer_start + length wb;
      logical_len = s.logical_len + length bytes;
    }
    else record s { write_buffer = wb; logical_len = s.logical_len + length bytes }

-- The result is the offset of the data.
unfoldable pub append_bytes : List ℕ → Backend → Backend × Result ℕ
unfolding append_direct append_buffered
append_bytes bytes s =
    if can_write s.mode
    then (
      if leb write_buffer_limit (length bytes)
          then append_direct bytes s
          else append_buffered bytes s,
      ok s.logical_len,
    )
    else (s, err read_only_mode)

-- `len`.
unfoldable pub file_len : Backend → ℕ
file_len s = s.logical_len

-- `sync`, and `close` beside it, which only gives up the lock as well.
unfoldable pub sync : Backend → Backend
unfolding flush_buffer
sync s = if can_write s.mode then flush_buffer s else s

unfoldable pub close : Backend → Backend
unfolding flush_buffer
close s = if can_write s.mode then flush_buffer s else s

-- `truncate`: the buffer is dropped.
unfoldable pub truncate : ℕ → Backend → Backend
truncate len s = record s {
  file = set_len s.file len;
  write_buffer = [];
  write_buffer_start = len;
  logical_len = len;
}
