-- ===== src/Raft/Generator.antt =====
-- src/xzero/raft/Generator.cc: the bytes of each message.
-- `payload` is what `wire_` collects in `buffer_`, and `flush_frame` the length and the payload
-- that go to `chunkWriter_`.
use x.Base.{List, [], ◌∷◌, ◌++◌, Bool, Bytes, length, if◌then◌else◌}
use x.Wire.{write_var_uint, write_length_delimited, write_string}
use x.Raft.Rpc.{
  LogEntry, HelloRequest, HelloResponse, VoteRequest, VoteResponse, AppendEntriesRequest,
  AppendEntriesResponse, InstallSnapshotRequest, InstallSnapshotResponse, Message, vote_request,
  vote_response, append_entries_request, append_entries_response, install_snapshot_request,
  install_snapshot_response, hello_request, hello_response,
}

abbrev pub write_bool : Bool → Bytes
write_bool b = write_var_uint (if b then 1 else 0)

unfoldable pub flush_frame : Bytes → Bytes
flush_frame buffer = write_var_uint (length buffer) ++ buffer

unfoldable pub hello_request_payload : HelloRequest → Bytes
hello_request_payload msg =
    write_var_uint 7 ++ (write_var_uint msg.server_id ++ write_string msg.psk)

unfoldable pub hello_response_payload : HelloResponse → Bytes
hello_response_payload msg =
    write_var_uint 8 ++ (write_bool msg.success ++ write_string msg.message)

unfoldable pub vote_request_payload : VoteRequest → Bytes
vote_request_payload msg =
    write_var_uint 1
    ++ (write_var_uint msg.term
        ++ (write_var_uint msg.candidate_id
            ++ (write_var_uint msg.last_log_index ++ write_var_uint msg.last_log_term)))

unfoldable pub vote_response_payload : VoteResponse → Bytes
vote_response_payload msg =
    write_var_uint 2 ++ (write_var_uint msg.term ++ write_bool msg.vote_granted)

-- The loop over `msg.entries`.
unfoldable pub write_entries : List LogEntry → Bytes
write_entries [] = []
write_entries (entry ∷ entries) =
    (write_var_uint entry.term
      ++ (write_var_uint entry.type ++ write_length_delimited entry.command))
    ++ write_entries entries

unfoldable pub append_entries_request_payload : AppendEntriesRequest → Bytes
unfolding write_entries
append_entries_request_payload msg =
    write_var_uint 3
    ++ (write_var_uint msg.term
        ++ (write_var_uint msg.leader_id
            ++ (write_var_uint msg.prev_log_index
                ++ (write_var_uint msg.prev_log_term
                    ++ (write_var_uint msg.leader_commit
                        ++ (write_var_uint (length msg.entries) ++ write_entries msg.entries))))))

unfoldable pub append_entries_response_payload : AppendEntriesResponse → Bytes
append_entries_response_payload msg =
    write_var_uint 4
    ++ (write_var_uint msg.term ++ (write_var_uint msg.last_log_index ++ write_bool msg.success))

unfoldable pub install_snapshot_request_payload : InstallSnapshotRequest → Bytes
install_snapshot_request_payload msg =
    write_var_uint 5
    ++ (write_var_uint msg.term
        ++ (write_var_uint msg.leader_id
            ++ (write_var_uint msg.last_included_index
                ++ (write_var_uint msg.last_included_term
                    ++ (write_var_uint msg.offset
                        ++ (write_length_delimited msg.snapshot ++ write_bool msg.done))))))

unfoldable pub install_snapshot_response_payload : InstallSnapshotResponse → Bytes
install_snapshot_response_payload msg = write_var_uint 6 ++ write_var_uint msg.term

unfoldable pub payload : Message → Bytes
payload (vote_request m) = vote_request_payload m
payload (vote_response m) = vote_response_payload m
payload (append_entries_request m) = append_entries_request_payload m
payload (append_entries_response m) = append_entries_response_payload m
payload (install_snapshot_request m) = install_snapshot_request_payload m
payload (install_snapshot_response m) = install_snapshot_response_payload m
payload (hello_request m) = hello_request_payload m
payload (hello_response m) = hello_response_payload m

unfoldable pub generate : Message → Bytes
unfolding flush_frame payload
generate msg = flush_frame (payload msg)
