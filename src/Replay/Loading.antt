-- ===== src/Replay/Loading.antt =====
-- What `loadReplay` (src/laige-sim/replay.cpp) reads of a file that a recorder finished.
use laige_cpp.Prelude.{
  ℕ, ◌%◌, ◌^◌, ◌≤◌, ◌<◌, ◌≡◌, refl, sym, ap, ◌∙◌, arith, true, false, ltb, some, List, [], ◌∷◌,
  ◌++◌, length, length-append, append_assoc, append-nil,
}
use laige_cpp.Result.{success}
use laige_cpp.Replay.{ReplayIdentity, ReplayFrame, size_cap, is_nil}
use laige_cpp.Replay.Parser.{read_chunks, load_replay}
use laige_cpp.Replay.Reading.{
  AreFrames, IsIdentity, log_bytes, length-body_bytes, body_end-log, parse_replay-log_bytes,
}
use laige_cpp.Replay.Recording.{record_log, length-records, record_log-log_bytes}

-- What a file holds, and chunks of it that are not empty.
unfoldable pub joined : List (List ℕ) → List ℕ
joined [] = []
joined (chunk ∷ chunks) = chunk ++ joined chunks

unfoldable pub AreChunks : List (List ℕ) → Type 0
AreChunks [] = 0 ≤ 0
AreChunks (chunk ∷ chunks) = (1 ≤ length chunk) × AreChunks chunks

is_nil-length : (xs : List ℕ) → 1 ≤ length xs → is_nil xs ≡ false
is_nil-length [] l = absurd (omega (arith, l))
is_nil-length (x ∷ xs) l = refl

read_chunks-joined :
    (limit : ℕ) (bytes : List ℕ) (chunks : List (List ℕ))
    → AreChunks chunks
    → length (bytes ++ joined chunks) ≤ limit
    → read_chunks false limit bytes chunks ≡ success (bytes ++ joined chunks)
unfolding read_chunks joined AreChunks
read_chunks-joined limit bytes [] v l = ap success (sym (append-nil bytes))
read_chunks-joined limit bytes (chunk ∷ chunks) v l =
    let whole = append_assoc bytes chunk (joined chunks) in
    let size = length-append (bytes ++ chunk) (joined chunks) in
    let fits : ltb limit (length (bytes ++ chunk) % 2 ^ 64) ≡ false =
      ground (arith, l, size, ap length whole) in
    rw (is_nil-length chunk v.0, fits)
      (read_chunks-joined limit (bytes ++ chunk) chunks v.1 (omega (arith, l, ap length whole))
        ∙ ap success whole)

-- A log that is recorded while no call on the file fails, of an identity with fields in range and of frames with the
-- ticks 1, 2, 3 and so on and blobs within the bound, under a path that is not empty and within the
-- limits on its size, is the file of the log, and is loaded as that identity and those
-- frames, whatever chunks that are not empty the file is read in, while no reading fails.
pub load_replay-record_log :
    (id : ReplayIdentity) (path : List ℕ) (most_written most_read : ℕ) (fs : List ReplayFrame)
    (chunks : List (List ℕ))
    → is_nil path ≡ false
    → size_cap most_written < 2 ^ 64
    → IsIdentity id
    → AreFrames 0 fs
    → length (log_bytes id fs) ≤ size_cap most_written
    → length (log_bytes id fs) ≤ size_cap most_read
    → AreChunks chunks
    → joined chunks ≡ log_bytes id fs
    → (record_log id path most_written fs ≡ some (joined chunks))
      × (load_replay true false chunks path most_read
          ≡ success (record { identity = id; frames = fs }))
unfolding load_replay
load_replay-record_log id path most_written most_read fs chunks named word v w room loaded u whole =
    let few : length fs < 2 ^ 64 =
      omega (arith, room, word, body_end-log id fs, length-body_bytes id fs, length-records fs) in
    let read =
      read_chunks-joined (size_cap most_read) [] chunks u
        (omega (arith, loaded, ap length whole)) in
    (
      record_log-log_bytes id path most_written fs named word w room ∙ ap some (sym whole),
      rw (named, read, whole) (parse_replay-log_bytes id fs v w few),
    )
