-- ===== src/Raft/Parser.antt =====
-- src/xzero/raft/Parser.cc: the parsers of the messages, `Parser::parse*Request` and `*Response`.
-- What a parser hands to `listener_->receive` is its result. The casts are those of the source: an
-- `Id` keeps 32 bits, a `MessageType` 8 bits, a `LogType` 32 bits, a `bool` is "not 0".
pub mod RoundTrip
pub mod Progress
use x.Base.{
  ℕ, zero, suc, ◌%◌, ◌^◌, Bool, not, List, [], ◌∷◌, Bytes, ◌==◌, if◌then◌else◌, raise,
  protocol_error,
}
use x.Wire.{parse_var_uint, parse_length_delimited, parse_string}
use x.Wire.Reader.{Reader, pure, ◌>>=◌}
use x.Raft.Rpc.{
  LogEntry, Message, vote_request, vote_response, append_entries_request, append_entries_response,
  install_snapshot_request, install_snapshot_response, hello_request, hello_response,
}

abbrev pub to_bool : ℕ → Bool
to_bool v = not (v == 0)

abbrev pub to_id : ℕ → ℕ
to_id v = v % 2 ^ 32

unfoldable pub parse_vote_request : Reader Message
parse_vote_request = do
  term ← parse_var_uint
  candidate_id ← parse_var_uint
  last_log_index ← parse_var_uint
  last_log_term ← parse_var_uint
  pure (
      vote_request (record {
        term = term;
        candidate_id = to_id candidate_id;
        last_log_index = last_log_index;
        last_log_term = last_log_term;
      }))

unfoldable pub parse_vote_response : Reader Message
parse_vote_response = do
  term ← parse_var_uint
  vote_granted ← parse_var_uint
  pure (vote_response (record { term = term; vote_granted = to_bool vote_granted }))

-- The body of the loop over the entries.
unfoldable pub parse_entry : Reader LogEntry
parse_entry = do
  term ← parse_var_uint
  type ← parse_var_uint
  command ← parse_length_delimited
  pure (record { term = term; type = type % 2 ^ 32; command = command })

unfoldable pub parse_entries : ℕ → Reader (List LogEntry)
parse_entries zero = pure []
parse_entries (suc entry_count) = do
  entry ← parse_entry
  entries ← parse_entries entry_count
  pure (entry ∷ entries)

unfoldable pub parse_append_entries_request : Reader Message
unfolding parse_entries parse_entry
parse_append_entries_request = do
  term ← parse_var_uint
  leader_id ← parse_var_uint
  prev_log_index ← parse_var_uint
  prev_log_term ← parse_var_uint
  leader_commit ← parse_var_uint
  entry_count ← parse_var_uint
  entries ← parse_entries entry_count
  pure (
      append_entries_request (record {
        term = term;
        leader_id = to_id leader_id;
        prev_log_index = prev_log_index;
        prev_log_term = prev_log_term;
        leader_commit = leader_commit;
        entries = entries;
      }))

unfoldable pub parse_append_entries_response : Reader Message
parse_append_entries_response = do
  term ← parse_var_uint
  last_log_index ← parse_var_uint
  success ← parse_var_uint
  pure (
      append_entries_response
        (record { term = term; last_log_index = last_log_index; success = to_bool success }))

unfoldable pub parse_install_snapshot_request : Reader Message
parse_install_snapshot_request = do
  term ← parse_var_uint
  leader_id ← parse_var_uint
  last_included_index ← parse_var_uint
  last_included_term ← parse_var_uint
  offset ← parse_var_uint
  snapshot ← parse_length_delimited
  done ← parse_var_uint
  pure (
      install_snapshot_request (record {
        term = term;
        leader_id = to_id leader_id;
        last_included_index = last_included_index;
        last_included_term = last_included_term;
        offset = offset;
        snapshot = snapshot;
        done = to_bool done;
      }))

unfoldable pub parse_install_snapshot_response : Reader Message
parse_install_snapshot_response = do
  term ← parse_var_uint
  pure (install_snapshot_response (record { term = term }))

unfoldable pub parse_hello_request : Reader Message
parse_hello_request = do
  server_id ← parse_var_uint
  psk ← parse_string
  pure (hello_request (record { server_id = to_id server_id; psk = psk }))

unfoldable pub parse_hello_response : Reader Message
parse_hello_response = do
  success ← parse_var_uint
  msg ← parse_string
  pure (hello_response (record { success = to_bool success; message = msg }))

-- The `switch` of `parseFrame`.
unfoldable pub parse_body : ℕ → Reader Message
parse_body t =
    if t == 1
    then parse_vote_request
    else if t == 2
    then parse_vote_response
    else if t == 3
    then parse_append_entries_request
    else if t == 4
    then parse_append_entries_response
    else if t == 5
    then parse_install_snapshot_request
    else if t == 6
    then parse_install_snapshot_response
    else if t == 7
    then parse_hello_request
    else if t == 8
    then parse_hello_response
    else λ src. raise protocol_error

unfoldable pub parse_message : Reader Message
unfolding parse_body
parse_message = do message_type ← parse_var_uint; parse_body (message_type % 256)
