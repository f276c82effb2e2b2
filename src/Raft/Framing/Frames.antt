-- ===== src/Raft/Framing/Frames.antt =====
-- One call of `parseFrame` on a whole frame, on the beginning of one, and on nothing.
use x.Base.{
  ℕ, suc, ◌-◌, ◌≤◌, ◌≡◌, ◌⊎◌, inl, inr, refl, sym, ap, ◌∙◌, arith, true, false, List, [], ◌∷◌,
  Bytes, ◌++◌, append_assoc, length, length-append, drop, take, take-append-drop,
  drop-length-append, ltb-ge, lt→ltb, ok,
}
use x.Wire.{IsU64, write_var_uint, try_parse_var_uint}
use x.Wire.VarUInt.{try_parse-write_var_uint, try_parse-write_var_uint_cut}
use x.Raft.Rpc.{Message, Fits}
use x.Raft.Generator.{payload, flush_frame, generate}
use x.Raft.Parser.RoundTrip.{parse_message_lem}
use x.Raft.Framing.{Parser, unread, deliver, parse_payload, parse_frame}

-- A message whose numbers fit, in a frame whose length fits too.
abbrev pub FitsFrame : Message → Type 0
FitsFrame m = Fits m × IsU64 (length (payload m))

abbrev pub stream : List Message → Bytes
stream [] = []
stream (m ∷ ms) = generate m ++ stream ms

-- Two ways to cut one list: the first front reaches as far as the second, or stops inside it.
pub append_split {ℓ} :
    {A : Type ℓ} (a b c d : List A)
    → a ++ b ≡ c ++ d
    → ((t : List A) × (c ≡ a ++ t) × (b ≡ t ++ d)) ⊎ ((y : A) × (t : List A) × (a ≡ c ++ y ∷ t))
append_split [] b c d e = inl (c, refl, e)
append_split (x ∷ a) b [] d e = inr (x, a, refl)
append_split (x ∷ a) b (z ∷ c) d e = elim (append_split a b c d (ground arith)) [
  | inl (t, e₁, e₂) ↦ inl (t, ground arith, e₂)
  | inr (y, t, e₁) ↦ inr (y, t, ground arith)
]

drop_suffix : (xs ys : Bytes) → drop (length (xs ++ ys) - length ys) (xs ++ ys) ≡ ys
drop_suffix xs ys = ap (λ (n : ℕ). drop n (xs ++ ys)) count ∙ drop-length-append xs ys
  where
    count : length (xs ++ ys) - length ys ≡ length xs
    count = omega (arith, length-append xs ys)

pub unread-deliver :
    (p : Parser) (m : Message) (front rest : Bytes)
    → unread p ≡ front ++ rest
    → unread (deliver p m rest) ≡ rest
unfolding deliver
unread-deliver p m front [] e = refl
unread-deliver p m front (b ∷ rest) e =
    rw (lt→ltb 0 (suc (length rest)) (omega arith))
      (rw whole (drop_suffix (take p.input_offset p.input_buffer ++ front) (b ∷ rest)))
  where
    whole : p.input_buffer ≡ (take p.input_offset p.input_buffer ++ front) ++ (b ∷ rest)
    whole =
        sym (take-append-drop p.input_offset p.input_buffer)
        ∙ ap (◌++◌ (take p.input_offset p.input_buffer)) e
        ∙ sym (append_assoc (take p.input_offset p.input_buffer) front (b ∷ rest))

pub parse_frame_whole :
    (p : Parser) (m : Message) (tail : Bytes)
    → FitsFrame m
    → unread p ≡ generate m ++ tail
    → parse_frame p ≡ ok (deliver p m tail, true)
unfolding parse_frame parse_payload generate flush_frame
parse_frame_whole p m tail (f, fl) e =
    rw (e, append_assoc, try_parse-write_var_uint (length (payload m)) (payload m ++ tail) fl)
      (rw
        (ltb-ge (length (payload m ++ tail)) (length (payload m))
          (omega (arith, length-append (payload m) tail)))
        (rw ((parse_message_lem m f).run tail)))

pub parse_frame_cut :
    (p : Parser) (m : Message) (y : ℕ) (back : Bytes)
    → FitsFrame m
    → generate m ≡ unread p ++ (y ∷ back)
    → parse_frame p ≡ ok (p, false)
unfolding parse_frame parse_payload generate flush_frame
parse_frame_cut p m y back (f, fl) e =
    elim (append_split (write_var_uint (length (payload m))) (payload m) (unread p) (y ∷ back) e) [
      | inl (t, e₁, e₂) ↦ rw e₁ (
          rw (try_parse-write_var_uint _ t fl) (
            rw (
              lt→ltb (length t) (length (payload m))
                (omega (arith, ap length e₂, length-append t (y ∷ back))))))
      | inr (z, t, e₁) ↦ rw (try_parse-write_var_uint_cut _ z (unread p) t fl e₁)
    ]

pub deliver-received :
    (p : Parser) (m : Message) (rest : Bytes) → (deliver p m rest).received ≡ p.received ++ (m ∷ [])
unfolding deliver
deliver-received p m rest = ground arith

pub deliver-inside :
    (p : Parser) (m : Message) (rest : Bytes)
    → (deliver p m rest).input_offset ≤ length (deliver p m rest).input_buffer
unfolding deliver
deliver-inside p m rest = ground arith

pub parse_frame_none : (p : Parser) → unread p ≡ [] → parse_frame p ≡ ok (p, false)
unfolding parse_frame parse_payload try_parse_var_uint
parse_frame_none p e = rw e
