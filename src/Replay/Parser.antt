-- ===== src/Replay/Parser.antt =====
-- `parseReplay` and `loadReplay` (src/laige-sim/replay.cpp).
use laige_cpp.Prelude.{
  take, drop, ℕ, zero, suc, ◌+◌, ◌-◌, ◌%◌, ◌^◌, Bool, not, ltb, ◌==◌, if◌then◌else◌, List, [], ◌∷◌,
  ◌++◌, length,
}
use laige_cpp.Result.{malformed_input, io_error, Result, success, failure}
use laige_cpp.Replay.{
  ReplayIdentity, ReplayFrame, ReplayLog, replay_magic, replay_format_version, replay_header_size,
  replay_frame_record_overhead, replay_trailer_size, max_replay_frame_bytes, size_cap, is_nil,
}
use laige_cpp.Replay.Bytes.{decode_le, fnv1a64, same_bytes}

-- The integer of `n` bytes at an offset.
abbrev pub field : List ℕ → ℕ → ℕ → ℕ
field bytes at n = decode_le (take n (drop at bytes))

-- The frames up to the end of the body, behind `count` of them, on fuel.
abbrev pub cons_frame : ReplayFrame → Result (List ReplayFrame) → Result (List ReplayFrame)
cons_frame f (success fs) = success (f ∷ fs)
cons_frame f (failure e) = failure e

unfoldable pub parse_frames : ℕ → ℕ → List ℕ → Result (List ReplayFrame)
parse_frames fuel count [] = success []
parse_frames zero count (b ∷ bs) = failure malformed_input
parse_frames (suc fuel) count (b ∷ bs) =
    let body = b ∷ bs in
    let len = field body 8 4 in
    let rest = parse_frames fuel (count + 1) (drop len (drop replay_frame_record_overhead body)) in
    if ltb (length body) replay_frame_record_overhead
    then failure malformed_input
    else if not (field body 0 8 == (count + 1) % 2 ^ 64)
    then failure malformed_input
    else if ltb max_replay_frame_bytes len
    then failure malformed_input
    else if ltb (length body) (replay_frame_record_overhead + len)
    then failure malformed_input
    else cons_frame
        (record {
          tick = field body 0 8;
          bytes = take len (drop replay_frame_record_overhead body);
        })
        rest

abbrev pub read_identity : List ℕ → ReplayIdentity
read_identity bytes = record {
  seed = field bytes 8 8;
  tick_rate_hz = field bytes 16 4;
  component_schema_hash = field bytes 20 8;
  math_backend_id = field bytes 28 4;
  config_hash = field bytes 32 8;
}

-- The checks of the trailer, which starts at `body_end`.
abbrev pub check_trailer : List ℕ → ℕ → Result (List ReplayFrame) → Result ReplayLog
check_trailer bytes body_end (failure e) = failure e
check_trailer bytes body_end (success frames) =
    if not (field bytes body_end 8 == length frames)
    then failure malformed_input
    else if not (fnv1a64 (take body_end bytes) == field bytes (body_end + 8) 8)
    then failure malformed_input
    else success (record { identity = read_identity bytes; frames = frames })

-- `parseReplay`, of bytes that are there.
unfoldable pub parse_replay : List ℕ → Result ReplayLog
parse_replay bytes =
    let body_end = length bytes - replay_trailer_size in
    let body = take (body_end - replay_header_size) (drop replay_header_size bytes) in
    if ltb (length bytes) replay_header_size
    then failure malformed_input
    else if not (same_bytes (take 4 bytes) replay_magic)
    then failure malformed_input
    else if not (field bytes 4 2 == replay_format_version)
    then failure malformed_input
    else if not (field bytes 6 2 == 0)
    then failure malformed_input
    else if ltb body_end replay_header_size
    then failure malformed_input
    else check_trailer bytes body_end (parse_frames (length body) 0 body)

-- The chunks that `fread` answers, the last one before the end or an error of the file, and the bytes that
-- were read before them.
unfoldable pub read_chunks : Bool → ℕ → List ℕ → List (List ℕ) → Result (List ℕ)
read_chunks broken limit bytes [] = if broken then failure io_error else success bytes
read_chunks broken limit bytes (chunk ∷ chunks) =
    let rest = read_chunks broken limit (bytes ++ chunk) chunks in
    if is_nil chunk
    then if broken then failure io_error else success bytes
    else if ltb limit (length (bytes ++ chunk) % 2 ^ 64)
    then failure malformed_input
    else rest

abbrev pub parse_read : Result (List ℕ) → Result ReplayLog
parse_read (failure e) = failure e
parse_read (success bytes) = parse_replay bytes

-- `loadReplay`: whether the file was opened, and what `fread` answers.
unfoldable pub load_replay : Bool → Bool → List (List ℕ) → List ℕ → ℕ → Result ReplayLog
load_replay opened broken chunks path max_bytes =
    if is_nil path
    then failure malformed_input
    else if not opened
    then failure io_error
    else parse_read (read_chunks broken (size_cap max_bytes) [] chunks)
