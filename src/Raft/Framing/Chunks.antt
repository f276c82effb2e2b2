-- ===== src/Raft/Framing/Chunks.antt =====
-- However the stream of a generator is cut into chunks, the parser delivers its messages.
use x.Base.{
  ℕ, zero, suc, ◌+◌, ◌%◌, ◌^◌, ◌≤◌, ◌<◌, ◌≡◌, inl, inr, refl, sym, ap, ◌∙◌, arith, List, [], ◌∷◌,
  Bytes, ◌++◌, append_assoc, append-nil, length, length-append, length-drop, drop-append, All,
}
use x.Wire.{write_var_uint}
use x.Wire.VarUInt.{length-write_var_uint}
use x.Raft.Rpc.{Message}
use x.Raft.Generator.{payload, flush_frame, generate}
use x.Raft.Framing.{
  Parser, fresh, unread, deliver, Fragment, parsed, thrown, stuck, parse_frames, after_frame,
  parse_fragment,
}
use x.Raft.Framing.Frames.{
  FitsFrame, stream, append_split, unread-deliver, parse_frame_whole, parse_frame_cut,
  deliver-received, deliver-inside, parse_frame_none,
}

-- Too little has arrived for the next message.
abbrev Quiet : Bytes → List Message → Type 0
Quiet b [] = Unit
Quiet b (m ∷ ms) = length b < length (generate m)

-- The parser and the messages that are still to come agree with the bytes that are still to come.
record Agrees (p : Parser) (ms : List Message) (future : Bytes) : Type 0 where
  same : unread p ++ future ≡ stream ms
  inside : p.input_offset ≤ length p.input_buffer
  fits : All FitsFrame ms

-- Where the loop ends: the messages that it delivered and those to come are the ones there were.
record Settles (p : Parser) (ms : List Message) (future : Bytes) (r : Fragment) : Type 0 where
  last : Parser
  count : ℕ
  rest : List Message
  ends : r ≡ parsed last count
  agrees : Agrees last rest future
  quiet : Quiet (unread last) rest
  got : last.received ++ rest ≡ p.received ++ ms

length-generate : (m : Message) → FitsFrame m → 0 < length (generate m)
unfolding generate flush_frame
length-generate m (f, fl) = omega (
  arith,
  length-append (write_var_uint (length (payload m))) (payload m),
  length-write_var_uint (length (payload m)) fl,
)

nil_of_append : (xs ys : Bytes) → xs ++ ys ≡ [] → xs ≡ []
nil_of_append [] ys e = refl
nil_of_append (x ∷ xs) ys e = cc

-- Delivering a message keeps the agreement, and shortens what is unread.
deliver-Agrees :
    (p : Parser) (m : Message) (ms : List Message) (t future : Bytes)
    → Agrees p (m ∷ ms) future
    → unread p ≡ generate m ++ t
    → stream ms ≡ t ++ future
    → Agrees (deliver p m t) ms future
deliver-Agrees p m ms t future a e₁ e₂ = record {
  same = rw (unread-deliver p m (generate m) t e₁) (sym e₂);
  inside = deliver-inside p m t;
  fits = a.fits.1;
}

deliver-shorter :
    (p : Parser) (m : Message) (t : Bytes)
    → FitsFrame m
    → unread p ≡ generate m ++ t
    → length (unread (deliver p m t)) < length (unread p)
deliver-shorter p m t f e =
    rw (unread-deliver p m (generate m) t e)
      (omega (arith, ap length e, length-append (generate m) t, length-generate m f))

Settles-deliver :
    (p : Parser) (m : Message) (ms : List Message) (t future : Bytes) {r : Fragment}
    → Settles (deliver p m t) ms future r
    → Settles p (m ∷ ms) future r
Settles-deliver p m ms t future s = record {
  last = s.last;
  count = s.count;
  rest = s.rest;
  ends = s.ends;
  agrees = s.agrees;
  quiet = s.quiet;
  got =
      s.got
      ∙ ap (λ (l : List Message). l ++ ms) (deliver-received p m t)
      ∙ append_assoc p.received (m ∷ []) ms;
}

parse_frames-Settles :
    (fuel : ℕ) (p : Parser) (count : ℕ) (ms : List Message) (future : Bytes)
    → Agrees p ms future
    → length (unread p) < fuel
    → Settles p ms future (parse_frames fuel p count)
unfolding parse_frames after_frame
parse_frames-Settles zero p count ms future a h = absurd (omega arith)
parse_frames-Settles (suc fuel) p count [] future a h =
    rw (parse_frame_none p (nil_of_append (unread p) future a.same)) (record {
      last = p;
      count = count;
      rest = [];
      ends = refl;
      agrees = a;
      quiet = tt;
      got = refl;
    })
parse_frames-Settles (suc fuel) p count (m ∷ ms) future a h =
    elim (append_split (generate m) (stream ms) (unread p) future (sym a.same)) [
      | inl (t, e₁, e₂) ↦ rw (parse_frame_whole p m t a.fits.0 e₁) (
          Settles-deliver p m ms t future (
            parse_frames-Settles fuel (deliver p m t) ((count + 1) % 2 ^ 32) ms future
              (deliver-Agrees p m ms t future a e₁ e₂)
              (omega (arith, deliver-shorter p m t a.fits.0 e₁))))
      | inr (y, t, e₁) ↦ rw (parse_frame_cut p m y t a.fits.0 e₁) (record {
        last = p;
        count = count;
        rest = m ∷ ms;
        ends = refl;
        agrees = a;
        quiet = omega (arith, ap length e₁, length-append (unread p) (y ∷ t));
        got = refl;
      })
    ]

Quiet-nil : (ms : List Message) → All FitsFrame ms → Quiet [] ms
Quiet-nil [] f = tt
Quiet-nil (m ∷ ms) f = length-generate m f.0

-- One chunk after the other, as a connection's read handler passes them on.
unfoldable pub feed : Parser → List Bytes → Fragment
feed p [] = parsed p 0
feed p (chunk ∷ chunks) = elim (parse_fragment p chunk) [
  | parsed q count ↦ feed q chunks
  | thrown q e ↦ thrown q e
  | stuck ↦ stuck
]

abbrev pub join : List Bytes → Bytes
join [] = []
join (chunk ∷ chunks) = chunk ++ join chunks

parse_fragment-Settles :
    (p : Parser) (chunk : Bytes) (ms : List Message) (future : Bytes)
    → Agrees p ms (chunk ++ future)
    → Settles p ms future (parse_fragment p chunk)
unfolding parse_fragment
parse_fragment-Settles p chunk ms future a =
    let s =
      parse_frames-Settles (suc (length (p.input_buffer ++ chunk)))
        (record p { input_buffer = p.input_buffer ++ chunk }) 0 ms future
        (record {
          same =
              rw (drop-append p.input_offset p.input_buffer chunk a.inside)
                (append_assoc (unread p) chunk future ∙ a.same);
          inside = omega (arith, a.inside, length-append p.input_buffer chunk);
          fits = a.fits;
        })
        (omega (arith, length-drop p.input_offset (p.input_buffer ++ chunk))) in
    record {
      last = s.last;
      count = s.count;
      rest = s.rest;
      ends = s.ends;
      agrees = s.agrees;
      quiet = s.quiet;
      got = s.got;
    }

feed-Settles :
    (chunks : List Bytes) (p : Parser) (ms : List Message)
    → Agrees p ms (join chunks)
    → Quiet (unread p) ms
    → (q : Parser) × (n : ℕ) × (feed p chunks ≡ parsed q n)
      × (q.received ≡ p.received ++ ms)
      × (unread q ≡ [])
unfolding feed
feed-Settles [] p [] a q =
    (p, 0, refl, sym (append-nil p.received), nil_of_append (unread p) [] a.same)
feed-Settles [] p (m ∷ ms) a q = absurd (
    omega (
      arith,
      ap length a.same,
      length-append (unread p) [],
      length-append (generate m) (stream ms),
    ))
feed-Settles (c ∷ cs) p ms a q =
    let s = parse_fragment-Settles p c ms (join cs) a in
    let (r, n, fed, got, empty) = feed-Settles cs s.last s.rest s.agrees s.quiet in
    (r, n, rw (s.ends, feed) fed, got ∙ s.got, empty)

-- Cut the bytes that a generator wrote for a list of messages into any chunks: fed to a fresh
-- parser one after the other, they deliver those messages in order, and leave nothing unread.
pub feed-stream :
    (ms : List Message) (chunks : List Bytes)
    → All FitsFrame ms
    → join chunks ≡ stream ms
    → (q : Parser) × (n : ℕ) × (feed fresh chunks ≡ parsed q n)
      × (q.received ≡ ms)
      × (unread q ≡ [])
feed-stream ms chunks f e =
    feed-Settles chunks fresh ms (record { same = e; inside = omega arith; fits = f })
      (Quiet-nil ms f)
