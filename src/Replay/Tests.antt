-- ===== src/Replay/Tests.antt =====
-- Concrete logs (src/laige-sim/replay.cpp).
use laige_cpp.Prelude.{
  take, drop, ℕ, ◌≡◌, refl, arith, true, false, none, some, List, [], ◌∷◌, length,
}
use laige_cpp.Result.{io_error, success, failed}
use laige_cpp.Replay.{
  ReplayIdentity, ReplayFrame, Recorder, closed_file, encode_record, encode_header, encode_trailer,
  finish, destroy,
}
use laige_cpp.Replay.Parser.{load_replay}
use laige_cpp.Replay.Bytes.{encode_le}
use laige_cpp.Replay.Loading.{joined, AreChunks, load_replay-record_log}
use laige_cpp.Replay.Reading.{AreFrames, IsIdentity, records, body_bytes, log_bytes}
use laige_cpp.Replay.Recording.{record_log, destroy-finish, created, created-Recording}

abbrev identity : ReplayIdentity
identity = record {
  seed = 42;
  tick_rate_hz = 60;
  component_schema_hash = 7;
  math_backend_id = 1;
  config_hash = 9;
}

abbrev two_frames : List ReplayFrame
two_frames = (record { tick = 1; bytes = 5 ∷ 6 ∷ [] }) ∷ (record { tick = 2; bytes = [] }) ∷ []

identity-IsIdentity : IsIdentity identity
identity-IsIdentity = record {
  seed = omega arith;
  tick_rate = omega arith;
  schema = omega arith;
  backend = omega arith;
  config = omega arith;
}

two_frames-AreFrames : AreFrames 0 two_frames
unfolding AreFrames
two_frames-AreFrames = (refl, omega arith, (refl, omega arith, omega arith))

size_two_frames : length (log_bytes identity two_frames) ≡ 82
unfolding log_bytes body_bytes records encode_header encode_record encode_trailer encode_le
size_two_frames = refl

-- The file in two chunks.
abbrev two_chunks : List (List ℕ)
two_chunks = take 50 (log_bytes identity two_frames) ∷ drop 50 (log_bytes identity two_frames) ∷ []

two_chunks-AreChunks : AreChunks two_chunks
unfolding AreChunks log_bytes body_bytes records encode_header encode_record encode_trailer
    encode_le
two_chunks-AreChunks = (omega arith, (omega arith, omega arith))

joined-two_chunks : joined two_chunks ≡ log_bytes identity two_frames
unfolding joined log_bytes body_bytes records encode_header encode_record encode_trailer encode_le
joined-two_chunks = refl

load_replay-record_log_example :
    (record_log identity (120 ∷ []) 100 two_frames ≡ some (joined two_chunks))
    × (load_replay true false two_chunks (120 ∷ []) 0
        ≡ success (record { identity = identity; frames = two_frames }))
load_replay-record_log_example =
    load_replay-record_log identity (120 ∷ []) 100 0 two_frames two_chunks refl (omega arith)
      identity-IsIdentity two_frames-AreFrames (omega (arith, size_two_frames))
      (omega (arith, size_two_frames)) two_chunks-AreChunks joined-two_chunks

abbrev empty_log : Recorder
empty_log = created identity 100

size_nothing : length (body_bytes identity []) ≡ 40
unfolding body_bytes records encode_header encode_le
size_nothing = refl

destroy-finish_example :
    ((finish true true false empty_log).0 ≡ failed io_error)
    × ((finish true true false empty_log).1.temp ≡ some (log_bytes identity []))
    × (destroy (finish true true false empty_log).1 ≡ (closed_file, none))
destroy-finish_example =
    destroy-finish identity 100 (omega arith) [] empty_log (created-Recording identity 100)
      (omega (arith, size_nothing))
