-- ===== src/Replay/Recording.antt =====
-- What a `ReplayRecorder` (src/laige-sim/replay.cpp) leaves in its file.
use laige_cpp.Prelude.{
  ℕ, ◌+◌, ◌*◌, ◌%◌, ◌^◌, ◌≤◌, ◌<◌, ◌≡◌, refl, sym, ap, subst, ◌∙◌, arith, true, false, ltb, ◌==◌,
  Option, some, none, List, [], ◌∷◌, ◌++◌, length, length-append, append_assoc, append-nil,
}
use laige_cpp.Result.{io_error, Result, success, failure, Status, done, failed}
use laige_cpp.Replay.Bytes.{encode_le, fnv_extend, fnv1a64, fnv_extend-append}
use laige_cpp.Replay.{
  ReplayIdentity, ReplayFrame, Recorder, null_file, open_file, closed_file, max_replay_frame_bytes,
  min_replay_size_limit, size_cap, is_nil, append_to, replay_header_size,
  replay_frame_record_overhead, encode_header, encode_record, create, write_frame, finish, destroy,
}
use laige_cpp.Replay.Reading.{
  AreFrames, records, body_bytes, log_bytes, length-encode_record, length-body_bytes, body_end-log,
}

-- How a recorder stands when it has taken the frames.
pub record Recording (id : ReplayIdentity) (most : ℕ) (fs : List ReplayFrame) (r : Recorder)
    : Type 0 where
  pub healthy : r.error ≡ done
  pub going : r.finished ≡ false
  pub opened : r.file ≡ open_file
  pub limit : r.max_bytes ≡ most
  pub size : r.bytes_written ≡ length (body_bytes id fs)
  pub count : r.frame_count ≡ length fs
  pub hash : r.file_hash ≡ fnv1a64 (body_bytes id fs)
  pub stored : r.temp ≡ some (body_bytes id fs)

records-append : (fs gs : List ReplayFrame) → records (fs ++ gs) ≡ records fs ++ records gs
unfolding records
records-append [] gs = refl
records-append (f ∷ fs) gs =
    ap (◌++◌ (encode_record f.tick f.bytes)) (records-append fs gs)
    ∙ sym (append_assoc (encode_record f.tick f.bytes) (records fs) (records gs))

body_bytes-snoc :
    (id : ReplayIdentity) (fs : List ReplayFrame) (f : ReplayFrame)
    → body_bytes id (fs ++ f ∷ []) ≡ body_bytes id fs ++ encode_record f.tick f.bytes
unfolding body_bytes records
body_bytes-snoc id fs f =
    ap (◌++◌ (encode_header id)) (
      records-append fs (f ∷ [])
      ∙ ap (◌++◌ (records fs)) (append-nil (encode_record f.tick f.bytes)))
    ∙ sym (append_assoc (encode_header id) (records fs) (encode_record f.tick f.bytes))

-- What `write_frame` leaves of a recorder that takes a frame.
abbrev with_frame : ReplayFrame → Recorder → Recorder
with_frame f r = record r {
  bytes_written = (r.bytes_written + (replay_frame_record_overhead + length f.bytes)) % 2 ^ 64;
  frame_count = (r.frame_count + 1) % 2 ^ 64;
  file_hash = fnv_extend r.file_hash (encode_record f.tick f.bytes);
  temp = append_to r.temp (encode_record f.tick f.bytes);
}

module _ (id : ReplayIdentity) (most : ℕ) (fs : List ReplayFrame) (r : Recorder)
    (v : Recording id most fs r) where
  write_frame-with_frame :
      (f : ReplayFrame)
      → f.tick ≡ length fs + 1
      → length f.bytes ≤ max_replay_frame_bytes
      → length (body_bytes id fs) + 12 + length f.bytes ≤ most
      → most < 2 ^ 64
      → length fs + 1 < 2 ^ 64
      → write_frame true f.tick f.bytes r ≡ (done, with_frame f r)
  unfolding write_frame
  write_frame-with_frame f t small room word few =
      let next : (f.tick == (r.frame_count + 1) % 2 ^ 64) ≡ true = ground (arith, v.count) in
      let short : ltb max_replay_frame_bytes (length f.bytes) ≡ false = ground arith in
      let fits : ltb r.max_bytes ((r.bytes_written + 12 + length f.bytes) % 2 ^ 64) ≡ false =
        ground (arith, v.size, v.limit) in
      rw (v.healthy, v.going, next, short, fits, v.opened) refl

  with_frame-Recording :
      (f : ReplayFrame)
      → length (body_bytes id fs) + 12 + length f.bytes ≤ most
      → most < 2 ^ 64
      → length fs + 1 < 2 ^ 64
      → Recording id most (fs ++ f ∷ []) (with_frame f r)
  unfolding fnv1a64
  with_frame-Recording f room word few =
      let bytes = encode_record f.tick f.bytes in
      let more = body_bytes-snoc id fs f in
      record {
        healthy = v.healthy;
        going = v.going;
        opened = v.opened;
        limit = v.limit;
        size = omega (
          arith,
          v.size,
          length-append (body_bytes id fs) bytes,
          length-encode_record f.tick f.bytes,
          ap length more,
        );
        count = omega (arith, v.count, length-append fs (f ∷ []));
        hash =
            ap (λ h. fnv_extend h bytes) v.hash
            ∙ sym (fnv_extend-append _ (body_bytes id fs) bytes)
            ∙ ap fnv1a64 (sym more);
        stored = ap (λ t. append_to t bytes) v.stored ∙ ap some (sym more);
      }

-- The frames, one after the other.
unfoldable pub record_all : List ReplayFrame → Recorder → Recorder
record_all [] r = r
record_all (f ∷ fs) r = record_all fs (write_frame true f.tick f.bytes r).1

pub length-records : (fs : List ReplayFrame) → 12 * length fs ≤ length (records fs)
unfolding records
length-records [] = omega arith
length-records (f ∷ fs) = omega (
  arith,
  length-records fs,
  length-append (encode_record f.tick f.bytes) (records fs),
  length-encode_record f.tick f.bytes,
)

module _ (id : ReplayIdentity) (most : ℕ) (word : most < 2 ^ 64) where
  record_all-Recording :
      (fs gs : List ReplayFrame) (r : Recorder)
      → Recording id most fs r
      → AreFrames (length fs) gs
      → length (body_bytes id fs) + length (records gs) ≤ most
      → Recording id most (fs ++ gs) (record_all gs r)
  unfolding record_all AreFrames records
  record_all-Recording fs [] r v w room =
      subst (λ hs. Recording id most hs r) (sym (append-nil fs)) v
  record_all-Recording fs (f ∷ gs) r v w room =
      let size = length-append (encode_record f.tick f.bytes) (records gs) in
      let head = length-encode_record f.tick f.bytes in
      let few : length fs + 1 < 2 ^ 64 =
        omega (arith, length-records fs, length-body_bytes id fs, word, room) in
      let fits : length (body_bytes id fs) + 12 + length f.bytes ≤ most =
        omega (arith, size, head, room) in
      let taken = write_frame-with_frame id most fs r v f w.0 w.1 fits word few in
      let kept = with_frame-Recording id most fs r v f fits word few in
      let rest =
        record_all-Recording (fs ++ f ∷ []) gs (with_frame f r) kept
          (subst (λ n. AreFrames n gs) (sym (length-append fs (f ∷ []))) w.2)
          (omega (
            arith,
            size,
            head,
            room,
            ap length (body_bytes-snoc id fs f),
            length-append (body_bytes id fs) (encode_record f.tick f.bytes),
          )) in
      subst (λ hs. Recording id most hs (record_all (f ∷ gs) r)) (append_assoc fs (f ∷ []) gs)
        (subst (λ q. Recording id most ((fs ++ f ∷ []) ++ gs) (record_all gs q))
          (sym (ap (λ p. p.1) taken)) rest)

  -- A trailer that fits is written, and the file renamed.
  finish-Recording :
      (fs : List ReplayFrame) (r : Recorder)
      → Recording id most fs r
      → length (body_bytes id fs) + 16 ≤ most
      → ((finish true true true r).0 ≡ done)
        × ((finish true true true r).1.published ≡ some (log_bytes id fs))
        × (destroy (finish true true true r).1 ≡ (null_file, none))
  unfolding finish destroy log_bytes
  finish-Recording fs r v room =
      let fits : ltb r.max_bytes ((r.bytes_written + 16) % 2 ^ 64) ≡ false =
        ground (arith, v.size, v.limit) in
      rw (v.healthy, v.going, fits, v.opened, v.stored, v.count, v.hash) (refl, refl, refl)

  -- Of a recorder that took the frames, with room for the trailer, a `finish` whose renaming fails keeps the
  -- error, and the whole log in the temporary file, and the destructor then closes a file that is closed, and
  -- removes the temporary file.
  pub destroy-finish :
      (fs : List ReplayFrame) (r : Recorder)
      → Recording id most fs r
      → length (body_bytes id fs) + 16 ≤ most
      → ((finish true true false r).0 ≡ failed io_error)
        × ((finish true true false r).1.temp ≡ some (log_bytes id fs))
        × (destroy (finish true true false r).1 ≡ (closed_file, none))
  unfolding finish destroy log_bytes
  destroy-finish fs r v room =
      let fits : ltb r.max_bytes ((r.bytes_written + 16) % 2 ^ 64) ≡ false =
        ground (arith, v.size, v.limit) in
      rw (v.healthy, v.going, fits, v.opened, v.stored, v.count, v.hash) (refl, refl, refl)

-- A log that is created, filled and finished, while no call on the file fails.
abbrev finished_log : Status × Recorder → Option (List ℕ)
finished_log (failed e, r) = none
finished_log (done, r) = r.published

abbrev record_from : Result Recorder → List ReplayFrame → Option (List ℕ)
record_from (failure e) fs = none
record_from (success r) fs = finished_log (finish true true true (record_all fs r))

unfoldable pub record_log : ReplayIdentity → List ℕ → ℕ → List ReplayFrame → Option (List ℕ)
record_log id path max_bytes fs = record_from (create true true id path max_bytes) fs

abbrev pub created : ReplayIdentity → ℕ → Recorder
created id most = record {
  max_bytes = most;
  file = open_file;
  bytes_written = replay_header_size;
  frame_count = 0;
  file_hash = fnv1a64 (encode_header id);
  error = done;
  finished = false;
  temp = some (encode_header id);
  published = none;
}

pub created-Recording : (id : ReplayIdentity) (most : ℕ) → Recording id most [] (created id most)
unfolding body_bytes records encode_header encode_le
created-Recording id most = record {
  healthy = refl;
  going = refl;
  opened = refl;
  limit = refl;
  size = refl;
  count = refl;
  hash = refl;
  stored = refl;
}

module _ (id : ReplayIdentity) (path : List ℕ) (max_bytes : ℕ) (fs : List ReplayFrame) where
  pub record_log-log_bytes :
      is_nil path ≡ false
      → size_cap max_bytes < 2 ^ 64
      → AreFrames 0 fs
      → length (log_bytes id fs) ≤ size_cap max_bytes
      → record_log id path max_bytes fs ≡ some (log_bytes id fs)
  unfolding record_log create body_bytes encode_header encode_le records
  record_log-log_bytes named word w room =
      let most = size_cap max_bytes in
      let size = body_end-log id fs in
      let least = length-body_bytes id fs in
      let big : ltb most min_replay_size_limit ≡ false = ground (arith, room, size, least) in
      let head = length-body_bytes id [] in
      let kept =
        record_all-Recording id most word [] fs (created id most) (created-Recording id most) w
          (omega (arith, room, size, least, head)) in
      let ended = finish-Recording id most word fs _ kept (omega (arith, room, size, least)) in
      rw (named, big)
        (ap
            (λ (s : Status).
              finished_log (s, (finish true true true (record_all fs (created id most))).1))
            ended.0
          ∙ ended.1)
