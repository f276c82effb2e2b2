-- ===== src/Http2/Pieces.antt =====
-- src/xzero/http/http2/Generator.cc `generateData`: how data is cut into frames.
use x.Base.{
  ℕ, zero, suc, ◌<◌, ◌≤◌, ◌≡◌, refl, sym, ap, ◌∙◌, arith, Bool, true, false, not, ◌&&◌, [], ◌∷◌,
  ◌++◌, Bytes, length, take, drop, length-drop, length-take, take-append-drop, ltb, leb, Bool-cases,
  ◌==◌, min, if◌then◌else◌, append-nil, inl, inr,
}
use x.Http2.{data_frame}
use x.Http2.Generator.{generate_frame_header, data_loop, generate_data}

abbrev flags_of : Bool → ℕ
flags_of end = if end then 1 else 0

-- DATA frames that carry some bytes on a stream: each but the last is full, and the last ends the stream.
-- The others end it as well where the end was asked for.
pub data Frames (limit sid : ℕ) (last : Bool) : Bytes → Bytes → Type 0 where
  final :
      (bytes : Bytes) {wire : Bytes}
      → length bytes ≤ limit
      → wire ≡ generate_frame_header data_frame 1 sid (length bytes) ++ bytes
      → Frames limit sid last bytes wire
  full :
      (piece : Bytes) {bytes rest after wire : Bytes}
      → length piece ≡ limit
      → 0 < length rest
      → bytes ≡ piece ++ rest
      → Frames limit sid last rest after
      → wire ≡ generate_frame_header data_frame (flags_of last) sid limit ++ piece ++ after
      → Frames limit sid last bytes wire

take_all : (bytes : Bytes) → take (length bytes) bytes ≡ bytes
take_all [] = refl
take_all (b ∷ bytes) = ap (λ (l : Bytes). b ∷ l) (take_all bytes)

module _ (fuel limit sid : ℕ) (bytes : Bytes) (last : Bool) where
  -- A round of the loop that sends `size` bytes.
  abbrev sends : ℕ → Bytes
  sends size =
      generate_frame_header data_frame (if not last && ltb size (length bytes) then 0 else 1) sid
        size
      ++ take size bytes
      ++ (if size == length bytes then [] else data_loop fuel limit sid (drop size bytes) last)

  pub data_loop-final :
      length bytes ≤ limit
      → data_loop (suc fuel) limit sid bytes last
        ≡ generate_frame_header data_frame 1 sid (length bytes) ++ bytes
  unfolding data_loop
  data_loop-final h =
      ap sends {x = min (length bytes) limit} {y = length bytes} (omega (arith, h))
      ∙ rw (not_more, all_sent, take_all bytes, append-nil bytes) refl
    where
      not_more : (not last && ltb (length bytes) (length bytes)) ≡ false
      not_more = ground arith

      all_sent : (length bytes == length bytes) ≡ true
      all_sent = ground arith

  data_loop-full :
      limit < length bytes
      → data_loop (suc fuel) limit sid bytes last
        ≡ generate_frame_header data_frame (flags_of last) sid limit
          ++ take limit bytes
          ++ data_loop fuel limit sid (drop limit bytes) last
  unfolding data_loop
  data_loop-full h =
      ap sends {x = min (length bytes) limit} {y = limit} (omega (arith, h))
      ∙ rw (flags h, not_all h) refl
    where
      flags :
          limit < length bytes
          → (if not last && ltb limit (length bytes) then 0 else 1) ≡ flags_of last
      flags h = ground (arith, h)

      not_all : limit < length bytes → (limit == length bytes) ≡ false
      not_all h = ground (arith, h)

data_loop-Frames :
    (fuel limit sid : ℕ) (bytes : Bytes) (last : Bool)
    → 0 < limit
    → length bytes ≤ fuel
    → Frames limit sid last bytes (data_loop (suc fuel) limit sid bytes last)
data_loop-Frames zero limit sid bytes last some enough =
    final bytes (omega (arith, enough))
      (data_loop-final zero limit sid bytes last (omega (arith, enough)))
data_loop-Frames (suc fuel) limit sid bytes last some enough =
    elim (Bool-cases (leb (length bytes) limit)) [
      | inl fits ↦
          final bytes (ground (arith, fits))
            (data_loop-final (suc fuel) limit sid bytes last (ground (arith, fits)))
      | inr over ↦
          (let lt : limit < length bytes = ground (arith, over) in
            full (take limit bytes) (omega (arith, length-take limit bytes, lt))
              (omega (arith, length-drop limit bytes, lt)) (sym (take-append-drop limit bytes))
              (data_loop-Frames fuel limit sid (drop limit bytes) last some
                (omega (arith, length-drop limit bytes, lt, enough, some)))
              (data_loop-full (suc fuel) limit sid bytes last lt))
    ]

-- `generateData` with room for a byte in a frame sends the data in full frames and one more that holds
-- the rest and ends the stream, in order, and nothing else.
pub generate_data-Frames :
    (limit sid : ℕ) (bytes : Bytes) (last : Bool)
    → 0 < limit
    → Frames limit sid last bytes (generate_data limit sid bytes last)
unfolding generate_data
generate_data-Frames limit sid bytes last some =
    data_loop-Frames (length bytes) limit sid bytes last some (omega arith)
