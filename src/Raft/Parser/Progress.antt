-- ===== src/Raft/Parser/Progress.antt =====
-- No parser leaves more bytes than it was given.
use x.Base.{
  ℕ, zero, suc, ◌≤◌, ◌≡◌, ◌%◌, arith, [], Bytes, Bool, true, false, length, length-drop, ok, raise,
  if◌then◌else◌, ◌==◌, protocol_error, >>=-eq-ok,
}
use x.Wire.{parse_var_uint, parse_bytes, parse_length_delimited, parse_string}
use x.Wire.VarUInt.{try_parse_var_uint_takes}
use x.Wire.Reader.{Reader, Shrinks, Shrinks-bind, Shrinks-pure}
use x.Raft.Rpc.{Message}
use x.Raft.Parser.{
  parse_entry, parse_entries, parse_body, parse_message, parse_vote_request, parse_vote_response,
  parse_append_entries_request, parse_append_entries_response, parse_install_snapshot_request,
  parse_install_snapshot_response, parse_hello_request, parse_hello_response,
}

parse_var_uint_takes :
    (src : Bytes) (v : ℕ) (rest : Bytes)
    → parse_var_uint src ≡ ok (v, rest)
    → length rest ≤ length src
unfolding parse_var_uint
parse_var_uint_takes src v rest e = ground (arith, try_parse_var_uint_takes src v rest)

Shrinks-var_uint : Shrinks parse_var_uint
Shrinks-var_uint = record { run = parse_var_uint_takes }

parse_bytes_takes :
    (n : ℕ) (src bytes rest : Bytes)
    → parse_bytes n src ≡ ok (bytes, rest)
    → length rest ≤ length src
unfolding parse_bytes
parse_bytes_takes n src bytes rest e = ground (arith, length-drop n src)

parse_length_delimited_takes :
    (src bytes rest : Bytes)
    → parse_length_delimited src ≡ ok (bytes, rest)
    → length rest ≤ length src
unfolding parse_length_delimited
parse_length_delimited_takes src bytes rest e =
    let (p, first, second) = >>=-eq-ok (parse_var_uint src) (λ (len, r). parse_bytes len r) e in
    omega
      (arith, parse_var_uint_takes src p.0 p.1 first, parse_bytes_takes p.0 p.1 bytes rest second)

Shrinks-length_delimited : Shrinks parse_length_delimited
Shrinks-length_delimited = record { run = parse_length_delimited_takes }

Shrinks-string : Shrinks parse_string
unfolding parse_string
Shrinks-string = record { run = parse_length_delimited_takes }

ruleset steps =
    (Shrinks-bind, Shrinks-pure, Shrinks-var_uint, Shrinks-length_delimited, Shrinks-string)

Shrinks-entry : Shrinks parse_entry
unfolding parse_entry
Shrinks-entry = search steps

Shrinks-entries : (n : ℕ) → Shrinks (parse_entries n)
unfolding parse_entries
Shrinks-entries zero = Shrinks-pure []
Shrinks-entries (suc n) =
    Shrinks-bind _ Shrinks-entry (λ e. Shrinks-bind _ (Shrinks-entries n) (λ es. Shrinks-pure _))

Shrinks-vote_request : Shrinks parse_vote_request
unfolding parse_vote_request
Shrinks-vote_request = search steps depth 12

Shrinks-vote_response : Shrinks parse_vote_response
unfolding parse_vote_response
Shrinks-vote_response = search steps depth 16

Shrinks-append_entries_response : Shrinks parse_append_entries_response
unfolding parse_append_entries_response
Shrinks-append_entries_response = search steps depth 16

Shrinks-install_snapshot_request : Shrinks parse_install_snapshot_request
unfolding parse_install_snapshot_request
Shrinks-install_snapshot_request = search steps depth 16

Shrinks-install_snapshot_response : Shrinks parse_install_snapshot_response
unfolding parse_install_snapshot_response
Shrinks-install_snapshot_response = search steps depth 16

Shrinks-hello_request : Shrinks parse_hello_request
unfolding parse_hello_request
Shrinks-hello_request = search steps depth 16

Shrinks-hello_response : Shrinks parse_hello_response
unfolding parse_hello_response
Shrinks-hello_response = search steps depth 16

Shrinks-append_entries_request : Shrinks parse_append_entries_request
unfolding parse_append_entries_request
Shrinks-append_entries_request = search (steps, Shrinks-entries) depth 16

Shrinks-fail : Shrinks {A = Message} (λ src. raise protocol_error)
Shrinks-fail = record { run = λ src a rest e. cc }

Shrinks-if {ℓ} :
    {A : Type ℓ} (b : Bool) {m n : Reader A} → Shrinks m → Shrinks n → Shrinks (if b then m else n)
Shrinks-if true s t = s
Shrinks-if false s t = t

Shrinks-body : (t : ℕ) → Shrinks (parse_body t)
unfolding parse_body
Shrinks-body t = Shrinks-if (t == 1) Shrinks-vote_request (
    Shrinks-if (t == 2) Shrinks-vote_response (
      Shrinks-if (t == 3) Shrinks-append_entries_request (
        Shrinks-if (t == 4) Shrinks-append_entries_response (
          Shrinks-if (t == 5) Shrinks-install_snapshot_request (
            Shrinks-if (t == 6) Shrinks-install_snapshot_response (
              Shrinks-if (t == 7) Shrinks-hello_request
                (Shrinks-if (t == 8) Shrinks-hello_response Shrinks-fail)))))))

pub Shrinks-message : Shrinks parse_message
unfolding parse_message
Shrinks-message = Shrinks-bind _ Shrinks-var_uint (λ t. Shrinks-body (t % 256))
