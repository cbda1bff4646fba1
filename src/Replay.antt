-- ===== src/Replay.antt =====
-- src/laige-sim/replay.cpp: the log of a run and its recorder; Replay.Parser reads a log. Files are lists of bytes, and
-- whether a call of the C library on a file succeeds is an argument.
pub mod Bytes
pub mod Parser
pub mod Reading
pub mod Loading
pub mod Recording
mod Tests
use laige_cpp.Prelude.{
  ℕ, zero, suc, ◌+◌, ◌-◌, ◌%◌, ◌^◌, Bool, true, false, not, ◌&&◌, ◌||◌, ltb, ◌==◌, if◌then◌else◌,
  Option, some, none, List, [], ◌∷◌, ◌++◌, length,
}
use laige_cpp.Result.{
  invalid_argument, malformed_input, budget_exhausted, io_error, ErrorCode, Result, success,
  failure, Status, done, failed,
}
use laige_cpp.Replay.Bytes.{encode_le, decode_le, fnv_extend, fnv1a64, same_bytes}

pub record ReplayIdentity : Type 0 where
  pub seed : ℕ
  pub tick_rate_hz : ℕ
  pub component_schema_hash : ℕ
  pub math_backend_id : ℕ
  pub config_hash : ℕ

pub record ReplayFrame : Type 0 where
  pub tick : ℕ
  pub bytes : List ℕ

pub record ReplayLog : Type 0 where
  pub identity : ReplayIdentity
  pub frames : List ReplayFrame

-- "LGRP".
abbrev pub replay_magic : List ℕ
replay_magic = 0x4c ∷ 0x47 ∷ 0x52 ∷ 0x50 ∷ []

abbrev pub replay_format_version : ℕ
replay_format_version = 1

abbrev pub replay_header_size : ℕ
replay_header_size = 40

abbrev pub replay_frame_record_overhead : ℕ
replay_frame_record_overhead = 12

abbrev pub replay_trailer_size : ℕ
replay_trailer_size = 16

abbrev pub min_replay_size_limit : ℕ
min_replay_size_limit = 56

abbrev pub max_replay_frame_bytes : ℕ
max_replay_frame_bytes = 1048576

abbrev pub default_replay_size_limit : ℕ
default_replay_size_limit = 134217728

unfoldable pub encode_header : ReplayIdentity → List ℕ
encode_header id =
    replay_magic
    ++ (encode_le 2 replay_format_version
        ++ (encode_le 2 0
            ++ (encode_le 8 id.seed
                ++ (encode_le 4 id.tick_rate_hz
                    ++ (encode_le 8 id.component_schema_hash
                        ++ (encode_le 4 id.math_backend_id ++ encode_le 8 id.config_hash))))))

unfoldable pub encode_record : ℕ → List ℕ → List ℕ
encode_record tick bytes = encode_le 8 tick ++ (encode_le 4 (length bytes) ++ bytes)

-- `file_`: no file, an open one, or the pointer to a file that was closed.
pub data FilePointer : Type 0 where
  null_file open_file closed_file : FilePointer

-- `temp` is what the temporary file holds, `published` what was renamed to the final path.
pub record Recorder : Type 0 where
  pub max_bytes : ℕ
  pub file : FilePointer
  pub bytes_written : ℕ
  pub frame_count : ℕ
  pub file_hash : ℕ
  pub error : Status
  pub finished : Bool
  pub temp : Option (List ℕ)
  pub published : Option (List ℕ)

abbrev pub size_cap : ℕ → ℕ
size_cap max_bytes = if max_bytes == 0 then default_replay_size_limit else max_bytes

abbrev pub is_nil : List ℕ → Bool
is_nil [] = true
is_nil (b ∷ bs) = false

-- `create`: whether the temporary file was opened, and the header written.
unfoldable pub create : Bool → Bool → ReplayIdentity → List ℕ → ℕ → Result Recorder
create opened written id path max_bytes =
    if is_nil path
    then failure invalid_argument
    else if ltb (size_cap max_bytes) min_replay_size_limit
    then failure invalid_argument
    else if not opened
    then failure io_error
    else if not written
    then failure io_error
    else success (record {
      max_bytes = size_cap max_bytes;
      file = open_file;
      bytes_written = replay_header_size;
      frame_count = 0;
      file_hash = fnv1a64 (encode_header id);
      error = done;
      finished = false;
      temp = some (encode_header id);
      published = none;
    })

abbrev pub is_done : Status → Bool
is_done done = true
is_done (failed e) = false

abbrev pub is_null : FilePointer → Bool
is_null null_file = true
is_null _ = false

abbrev pub append_to : Option (List ℕ) → List ℕ → Option (List ℕ)
append_to none bs = none
append_to (some old) bs = some (old ++ bs)

-- An error that is kept, with the file as it is, and with the file closed and removed.
abbrev pub refuse : ErrorCode → Recorder → Status × Recorder
refuse e r = (failed e, record r { error = failed e })

abbrev pub abandon : ErrorCode → Recorder → Status × Recorder
abandon e r = (failed e, record r { error = failed e; file = null_file; temp = none })

-- `writeFrame`: whether the record and the data were written.
unfoldable pub write_frame : Bool → ℕ → List ℕ → Recorder → Status × Recorder
write_frame written tick bytes r =
    if not (is_done r.error)
    then (r.error, r)
    else if r.finished
    then refuse invalid_argument r
    else if not (tick == (r.frame_count + 1) % 2 ^ 64)
    then refuse invalid_argument r
    else if ltb max_replay_frame_bytes (length bytes)
    then refuse invalid_argument r
    else if ltb r.max_bytes
        ((r.bytes_written + replay_frame_record_overhead + length bytes) % 2 ^ 64)
    then refuse budget_exhausted r
    else if is_null r.file
    then refuse io_error r
    else if not written
    then abandon io_error r
    else (
      done,
      record r {
        bytes_written = (r.bytes_written + (replay_frame_record_overhead + length bytes)) % 2 ^ 64;
        frame_count = (r.frame_count + 1) % 2 ^ 64;
        file_hash = fnv_extend r.file_hash (encode_record tick bytes);
        temp = append_to r.temp (encode_record tick bytes);
      },
    )

unfoldable pub encode_trailer : ℕ → ℕ → List ℕ
encode_trailer count hash = encode_le 8 count ++ encode_le 8 hash

-- `finish`: whether the trailer was written, the file closed, and renamed.
unfoldable pub finish : Bool → Bool → Bool → Recorder → Status × Recorder
finish written closed replaced r =
    let trailer = encode_trailer r.frame_count r.file_hash in
    let whole = record r {
      bytes_written = (r.bytes_written + replay_trailer_size) % 2 ^ 64;
      temp = append_to r.temp trailer;
    } in
    if not (is_done r.error)
    then (r.error, r)
    else if r.finished
    then refuse invalid_argument r
    else if is_null r.file
    then refuse io_error r
    else if ltb r.max_bytes ((r.bytes_written + replay_trailer_size) % 2 ^ 64)
    then abandon budget_exhausted r
    else if not written
    then abandon io_error r
    else if not closed
    then refuse io_error (record whole { file = null_file })
    else if not replaced
    then refuse io_error (record whole { file = closed_file })
    else (
      done,
      record whole {
        file = closed_file;
        finished = true;
        temp = none;
        published = append_to r.temp trailer;
      },
    )

-- What the destructor closes, and the temporary file that it leaves.
unfoldable pub destroy : Recorder → FilePointer × Option (List ℕ)
destroy r = if r.finished then (null_file, r.temp) else (r.file, none)

-- The move out of a recorder, and the assignment of one to another, with what the other had open.
unfoldable pub move_out : Recorder → Recorder × Recorder
move_out r = (r, record r { file = null_file; finished = true })

unfoldable pub assign : Recorder → Recorder → (FilePointer × Option (List ℕ)) × Recorder × Recorder
assign target source = (destroy target, (move_out source).0, (move_out source).1)
