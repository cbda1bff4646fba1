-- ===== src/Replay/Reading.antt =====
-- What `parseReplay` (src/laige-sim/replay.cpp) reads from the bytes of a log.
use native.Mathlib.Nat.{le_refl}
use laige_cpp.Prelude.{
  take, drop, drop_add, take-append, drop-append, ℕ, zero, suc, ◌+◌, ◌-◌, ◌%◌, ◌^◌, ◌≤◌, ◌<◌, ◌≡◌,
  refl, sym, ap, ap₂, ◌∙◌, arith, true, false, ltb, ==_self, List, [], ◌∷◌, ◌++◌, length,
  length-append, append_assoc,
}
use laige_cpp.Result.{success}
use laige_cpp.Replay.Bytes.{
  encode_le, decode_le, fnv1a64, same_bytes, decode_le-encode_le, fnv1a64-bound,
}
use laige_cpp.Replay.{
  ReplayIdentity, ReplayFrame, replay_magic, replay_header_size, replay_frame_record_overhead,
  replay_trailer_size, max_replay_frame_bytes, encode_header, encode_record, encode_trailer,
}
use laige_cpp.Replay.Parser.{field, cons_frame, parse_frames, read_identity, parse_replay}

-- Frames with the ticks behind `count`, in order, and no blob above the bound.
unfoldable pub AreFrames : ℕ → List ReplayFrame → Type 0
AreFrames count [] = 0 ≤ 0
AreFrames count (f ∷ fs) =
    (f.tick ≡ count + 1) × (length f.bytes ≤ max_replay_frame_bytes) × AreFrames (count + 1) fs

pub record IsIdentity (id : ReplayIdentity) : Type 0 where
  pub seed : id.seed < 256 ^ 8
  pub tick_rate : id.tick_rate_hz < 256 ^ 4
  pub schema : id.component_schema_hash < 256 ^ 8
  pub backend : id.math_backend_id < 256 ^ 4
  pub config : id.config_hash < 256 ^ 8

unfoldable pub records : List ReplayFrame → List ℕ
records [] = []
records (f ∷ fs) = encode_record f.tick f.bytes ++ records fs

-- The bytes of a log.
unfoldable pub body_bytes : ReplayIdentity → List ReplayFrame → List ℕ
body_bytes id fs = encode_header id ++ records fs

unfoldable pub log_bytes : ReplayIdentity → List ReplayFrame → List ℕ
log_bytes id fs = body_bytes id fs ++ encode_trailer (length fs) (fnv1a64 (body_bytes id fs))

pub length-encode_record :
    (tick : ℕ) (bytes : List ℕ) → length (encode_record tick bytes) ≡ 12 + length bytes
unfolding encode_record encode_le
length-encode_record tick bytes = omega arith

-- The head of a record.
record-field :
    (tick : ℕ) (bytes rest : List ℕ)
    → tick < 256 ^ 8
    → length bytes < 256 ^ 4
    → (field (encode_record tick bytes ++ rest) 0 8 ≡ tick)
      × (field (encode_record tick bytes ++ rest) 8 4 ≡ length bytes)
      × (drop 12 (encode_record tick bytes ++ rest) ≡ bytes ++ rest)
unfolding encode_record encode_le
record-field tick bytes rest l m =
    (decode_le-encode_le 8 tick l, decode_le-encode_le 4 (length bytes) m, refl)

identity-field :
    (id : ReplayIdentity) (rest : List ℕ)
    → IsIdentity id
    → read_identity (encode_header id ++ rest) ≡ id
unfolding encode_header encode_le
identity-field id rest v = λ i. record {
  seed = decode_le-encode_le 8 id.seed v.seed i;
  tick_rate_hz = decode_le-encode_le 4 id.tick_rate_hz v.tick_rate i;
  component_schema_hash = decode_le-encode_le 8 id.component_schema_hash v.schema i;
  math_backend_id = decode_le-encode_le 4 id.math_backend_id v.backend i;
  config_hash = decode_le-encode_le 8 id.config_hash v.config i;
}

parse_frames-nil : (fuel count : ℕ) → parse_frames fuel count [] ≡ success []
unfolding parse_frames
parse_frames-nil zero count = refl
parse_frames-nil (suc fuel) count = refl

-- A round of the loop, on a body that starts with the next frame.
parse_frames-round :
    (fuel count : ℕ) (body bytes rest : List ℕ)
    → field body 0 8 ≡ count + 1
    → field body 8 4 ≡ length bytes
    → drop replay_frame_record_overhead body ≡ bytes ++ rest
    → length body ≡ 12 + length bytes + length rest
    → length bytes ≤ max_replay_frame_bytes
    → count + 1 < 2 ^ 64
    → parse_frames (suc fuel) count body
      ≡ cons_frame (record { tick = count + 1; bytes = bytes }) (parse_frames fuel (count + 1) rest)
unfolding parse_frames
parse_frames-round fuel count [] bytes rest t l d n small word = absurd (omega (arith, n))
parse_frames-round fuel count (b ∷ bs) bytes rest t l d n small word =
    let next : (count + 1) % 2 ^ 64 ≡ count + 1 = omega arith in
    let long : ltb (length (b ∷ bs)) replay_frame_record_overhead ≡ false = ground (arith, n) in
    let fits : ltb max_replay_frame_bytes (length bytes) ≡ false = ground arith in
    let inside : ltb (length (b ∷ bs)) (replay_frame_record_overhead + length bytes) ≡ false =
      ground (arith, n) in
    rw
      (
        t,
        l,
        d,
        next,
        long,
        fits,
        inside,
        ==_self (count + 1),
        take-append bytes rest,
        drop-append bytes rest,
      )
      refl

parse_frames-records :
    (fuel count : ℕ) (fs : List ReplayFrame)
    → length (records fs) ≤ fuel
    → AreFrames count fs
    → count + length fs < 2 ^ 64
    → parse_frames fuel count (records fs) ≡ success fs
unfolding records AreFrames
parse_frames-records fuel count [] l v word = parse_frames-nil fuel count
parse_frames-records zero count (f ∷ fs) l v word = absurd (
    omega (
      arith,
      l,
      length-append (encode_record f.tick f.bytes) (records fs),
      length-encode_record f.tick f.bytes,
    ))
parse_frames-records (suc fuel) count (f ∷ fs) l v word =
    let size = length-append (encode_record f.tick f.bytes) (records fs) in
    let head = length-encode_record f.tick f.bytes in
    let at = record-field f.tick f.bytes (records fs) (omega (arith, v.0)) (omega (arith, v.1)) in
    parse_frames-round fuel count (encode_record f.tick f.bytes ++ records fs) f.bytes (records fs)
      (at.0 ∙ v.0) at.1 at.2 (omega (arith, size, head)) v.1 (omega arith)
    ∙ rw (parse_frames-records fuel (count + 1) fs (omega (arith, l, size, head)) v.2 (omega arith))
        (ap (λ t. success (record { tick = t; bytes = f.bytes } ∷ fs)) (sym v.0))

-- The head and the end of a log.
module _ (id : ReplayIdentity) (fs : List ReplayFrame) where
  pub body_end-log : length (log_bytes id fs) - replay_trailer_size ≡ length (body_bytes id fs)
  unfolding log_bytes encode_trailer encode_le
  body_end-log = omega (
    arith,
    length-append (body_bytes id fs) (encode_trailer (length fs) (fnv1a64 (body_bytes id fs))),
  )

  pub length-body_bytes : length (body_bytes id fs) ≡ 40 + length (records fs)
  unfolding body_bytes encode_header encode_le
  length-body_bytes = omega arith

  take-log : take (length (body_bytes id fs)) (log_bytes id fs) ≡ body_bytes id fs
  unfolding log_bytes
  take-log = take-append (body_bytes id fs) _

  drop-log :
      drop (length (body_bytes id fs)) (log_bytes id fs)
      ≡ encode_trailer (length fs) (fnv1a64 (body_bytes id fs))
  unfolding log_bytes
  drop-log = drop-append (body_bytes id fs) _

  header-log :
      (take 4 (log_bytes id fs) ≡ replay_magic)
      × (field (log_bytes id fs) 4 2 ≡ 1)
      × (field (log_bytes id fs) 6 2 ≡ 0)
      × (drop replay_header_size (log_bytes id fs)
          ≡ records fs ++ encode_trailer (length fs) (fnv1a64 (body_bytes id fs)))
  unfolding log_bytes body_bytes encode_header encode_le decode_le
  header-log = (refl, refl, refl, refl)

  identity-log : IsIdentity id → read_identity (log_bytes id fs) ≡ id
  unfolding log_bytes body_bytes
  identity-log v =
      ap read_identity (append_assoc (encode_header id) (records fs) _) ∙ identity-field id _ v

  trailer-log :
      length fs < 2 ^ 64
      → (field (log_bytes id fs) (length (body_bytes id fs)) 8 ≡ length fs)
        × (field (log_bytes id fs) (length (body_bytes id fs) + 8) 8 ≡ fnv1a64 (body_bytes id fs))
  unfolding encode_trailer encode_le
  trailer-log word = (
    ap (λ xs. decode_le (take 8 xs)) drop-log ∙ decode_le-encode_le 8 (length fs) (omega arith),
    ap (λ xs. decode_le (take 8 xs))
          (drop_add (length (body_bytes id fs)) 8 (log_bytes id fs) ∙ ap (drop 8) drop-log)
        ∙ decode_le-encode_le 8 (fnv1a64 (body_bytes id fs)) (fnv1a64-bound (body_bytes id fs)),
  )

  body-log :
      take
        (length (body_bytes id fs) - replay_header_size)
        (drop replay_header_size (log_bytes id fs))
      ≡ records fs
  body-log = ap₂ take (omega (arith, length-body_bytes)) header-log.3 ∙ take-append (records fs) _

  magic-log : same_bytes (take 4 (log_bytes id fs)) replay_magic ≡ true
  unfolding same_bytes
  magic-log = ap (λ xs. same_bytes xs replay_magic) header-log.0

  -- The bytes of a log, of an identity with fields in range and of frames with the ticks 1, 2, 3 and so on
  -- and blobs within the bound, are parsed to that log.
  pub parse_replay-log_bytes :
      IsIdentity id
      → AreFrames 0 fs
      → length fs < 2 ^ 64
      → parse_replay (log_bytes id fs) ≡ success (record { identity = id; frames = fs })
  unfolding parse_replay
  parse_replay-log_bytes v w word =
      let long : ltb (length (log_bytes id fs)) replay_header_size ≡ false =
        ground (arith, body_end-log, length-body_bytes) in
      let room : ltb (length (body_bytes id fs)) replay_header_size ≡ false =
        ground (arith, length-body_bytes) in
      let frames = parse_frames-records (length (records fs)) 0 fs (le_refl _) w (omega arith) in
      rw
        (
          long,
          magic-log,
          header-log.1,
          header-log.2,
          body_end-log,
          room,
          body-log,
          frames,
          (trailer-log word).0,
          (trailer-log word).1,
          take-log,
          ==_self (length fs),
          ==_self (fnv1a64 (body_bytes id fs)),
          identity-log v,
        )
        refl
