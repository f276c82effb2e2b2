-- ===== src/Raft/Parser/RoundTrip.antt =====
-- Each message is read back from its payload.
use x.Base.{
  ℕ, ◌≡◌, refl, arith, List, [], ◌∷◌, ◌++◌, Bytes, Bool, true, false, length, All, if◌then◌else◌,
}
use x.Wire.{
  IsU32, IsU64, write_var_uint, parse_var_uint, write_length_delimited, parse_length_delimited,
  write_string, parse_string,
}
use x.Wire.VarUInt.{parse-write_var_uint}
use x.Wire.Strings.{parse-write_length_delimited, parse-write_string}
use x.Wire.Reader.{Reads, Reads-bind, Reads-last, Reads-pure}
use x.Raft.Rpc.{
  LogEntry, FitsEntry, Fits, Message, vote_request, vote_response, append_entries_request,
  append_entries_response, install_snapshot_request, install_snapshot_response, hello_request,
  hello_response,
}
use x.Raft.Generator.{
  write_bool, write_entries, payload, vote_request_payload, vote_response_payload,
  append_entries_request_payload, append_entries_response_payload, install_snapshot_request_payload,
  install_snapshot_response_payload, hello_request_payload, hello_response_payload,
}
use x.Raft.Parser.{
  to_bool, to_id, parse_entry, parse_entries, parse_message, parse_vote_request,
  parse_vote_response, parse_append_entries_request, parse_append_entries_response,
  parse_install_snapshot_request, parse_install_snapshot_response, parse_hello_request,
  parse_hello_response,
}

Reads-var_uint : (v : ℕ) → IsU64 v → Reads parse_var_uint (write_var_uint v) v
Reads-var_uint v h = record { run = λ rest. parse-write_var_uint v rest h }

Reads-length_delimited :
    (bytes : Bytes)
    → IsU64 (length bytes)
    → Reads parse_length_delimited (write_length_delimited bytes) bytes
Reads-length_delimited bytes h = record { run = λ rest. parse-write_length_delimited bytes rest h }

Reads-string : (str : Bytes) → IsU64 (length str) → Reads parse_string (write_string str) str
Reads-string str h = record { run = λ rest. parse-write_string str rest h }

Reads-bool : (b : Bool) → Reads parse_var_uint (write_bool b) (if b then 1 else 0)
Reads-bool true = Reads-var_uint 1 (omega arith)
Reads-bool false = Reads-var_uint 0 (omega arith)

to_id_lem : (v : ℕ) → IsU32 v → to_id v ≡ v
to_id_lem v h = omega arith

to_bool_lem : (b : Bool) → to_bool (if b then 1 else 0) ≡ b
to_bool_lem true = refl
to_bool_lem false = refl

parse_entry_lem :
    (e : LogEntry)
    → FitsEntry e
    → Reads parse_entry
        (write_var_uint e.term ++ (write_var_uint e.type ++ write_length_delimited e.command))
        e
unfolding parse_entry
parse_entry_lem e (ht, hy, hc) = Reads-bind _ (Reads-var_uint _ ht) (
    Reads-bind _ (Reads-var_uint _ (omega arith))
      (Reads-last _ (Reads-length_delimited _ hc) (ground arith)))

parse_entries_lem :
    (es : List LogEntry)
    → All FitsEntry es
    → Reads (parse_entries (length es)) (write_entries es) es
unfolding parse_entries write_entries
parse_entries_lem [] f = Reads-pure []
parse_entries_lem (e ∷ es) (f, fs) =
    Reads-bind _ (parse_entry_lem e f) (Reads-last _ (parse_entries_lem es fs) refl)

-- Every message whose numbers fit is read back from its payload.
pub parse_message_lem : (m : Message) → Fits m → Reads parse_message (payload m) m
unfolding parse_message payload vote_response_payload vote_request_payload parse_vote_request
    parse_vote_response append_entries_request_payload append_entries_response_payload
    install_snapshot_request_payload install_snapshot_response_payload hello_request_payload
    hello_response_payload parse_append_entries_request parse_append_entries_response
    parse_install_snapshot_request parse_install_snapshot_response parse_hello_request
    parse_hello_response
parse_message_lem (vote_request m) (a, b, c, d) = Reads-bind _ (Reads-var_uint _ (omega arith)) (
    Reads-bind _ (Reads-var_uint _ a) (
      Reads-bind _ (Reads-var_uint _ (omega arith)) (
        Reads-bind _ (Reads-var_uint _ c)
          (Reads-last _ (Reads-var_uint _ d) (rw (to_id_lem _ b))))))
parse_message_lem (vote_response m) f = Reads-bind _ (Reads-var_uint _ (omega arith)) (
    Reads-bind _ (Reads-var_uint _ f)
      (Reads-last _ (Reads-bool _) (rw (to_bool_lem m.vote_granted))))
parse_message_lem (append_entries_request m) (a, b, c, d, e, l, es) =
    Reads-bind _ (Reads-var_uint _ (omega arith)) (
      Reads-bind _ (Reads-var_uint _ a) (
        Reads-bind _ (Reads-var_uint _ (omega arith)) (
          Reads-bind _ (Reads-var_uint _ c) (
            Reads-bind _ (Reads-var_uint _ d) (
              Reads-bind _ (Reads-var_uint _ e) (
                Reads-bind _ (Reads-var_uint _ l)
                  (Reads-last _ (parse_entries_lem m.entries es) (rw (to_id_lem _ b)))))))))
parse_message_lem (append_entries_response m) (a, b) =
    Reads-bind _ (Reads-var_uint _ (omega arith)) (
      Reads-bind _ (Reads-var_uint _ a) (
        Reads-bind _ (Reads-var_uint _ b)
          (Reads-last _ (Reads-bool _) (rw (to_bool_lem m.success)))))
parse_message_lem (install_snapshot_request m) (a, b, c, d, e, l) =
    Reads-bind _ (Reads-var_uint _ (omega arith)) (
      Reads-bind _ (Reads-var_uint _ a) (
        Reads-bind _ (Reads-var_uint _ (omega arith)) (
          Reads-bind _ (Reads-var_uint _ c) (
            Reads-bind _ (Reads-var_uint _ d) (
              Reads-bind _ (Reads-var_uint _ e) (
                Reads-bind _ (Reads-length_delimited _ l)
                  (Reads-last _ (Reads-bool _) (rw (to_id_lem _ b, to_bool_lem m.done)))))))))
parse_message_lem (install_snapshot_response m) f =
    Reads-bind _ (Reads-var_uint _ (omega arith)) (Reads-last _ (Reads-var_uint _ f) refl)
parse_message_lem (hello_request m) (a, b) = Reads-bind _ (Reads-var_uint _ (omega arith)) (
    Reads-bind _ (Reads-var_uint _ (omega arith))
      (Reads-last _ (Reads-string _ b) (rw (to_id_lem _ a))))
parse_message_lem (hello_response m) f =
    Reads-bind _ (Reads-var_uint _ (omega arith))
      (Reads-bind _ (Reads-bool _) (Reads-last _ (Reads-string _ f) (rw (to_bool_lem m.success))))
