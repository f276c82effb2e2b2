-- ===== src/Raft/Server/Replication/Asserted.antt =====
-- raft/Server.cc `handleRequest(AppendEntriesRequest)`: the assertion after step 4.
use x.Base.{
  ℕ, ◌<◌, ◌≤◌, ◌≡◌, ◌≢◌, refl, sym, ◌∙◌, arith, true, leb, ◌==◌, none, some, inl, inr, Bool-cases,
  ==_iff, ◌↔◌,
}
use x.Raft.Rpc.{AppendEntriesRequest, AppendEntriesResponse}
use x.Raft.Storage.{latest_index}
use x.Raft.Server.{Server, last_index, handle_append_entries, handle_append_entries_asserted}

-- The assertion looks at the length of the log.
module _ (s : Server) (req : AppendEntriesRequest) where
  abbrev answered : Server × AppendEntriesResponse
  answered = handle_append_entries s req

  asserted_passes :
      last_index req ≡ latest_index (answered.0).storage
      → handle_append_entries_asserted s req ≡ some (handle_append_entries s req)
  unfolding handle_append_entries_asserted
  asserted_passes h = elim (Bool-cases (answered.1).success) [
    | inl taken ↦ rw (holds h, taken, handle_append_entries_asserted) refl
    | inr left ↦ rw (holds h, left, handle_append_entries_asserted) refl
  ]
    where
      holds :
          last_index req ≡ latest_index (answered.0).storage
          → (last_index req == latest_index (answered.0).storage) ≡ true
      holds h = (==_iff (last_index req) (latest_index (answered.0).storage)).1 h

  pub asserted_fails :
      (answered.1).success ≡ true
      → last_index req ≢ latest_index (answered.0).storage
      → handle_append_entries_asserted s req ≡ none
  unfolding handle_append_entries_asserted
  asserted_fails success h =
      elim (Bool-cases (last_index req == latest_index (answered.0).storage)) [
        | inl holds ↦
            absurd (h ((==_iff (last_index req) (latest_index (answered.0).storage)).0 holds))
        | inr fails ↦ rw (success, fails, handle_append_entries_asserted) refl
      ]

  -- Which of the two it is, by a test.
  pub asserted_iff :
      (behind before : ℕ)
      → (behind ≤ before → last_index req ≡ latest_index (answered.0).storage)
      → (before < behind → last_index req ≢ latest_index (answered.0).storage)
      → (answered.1).success ≡ true
      → ((handle_append_entries_asserted s req ≡ some (handle_append_entries s req))
          ↔ (behind ≤ before))
        × ((handle_append_entries_asserted s req ≡ none) ↔ (before < behind))
  asserted_iff behind before le lt success = elim (Bool-cases (leb behind before)) [
    | inl test ↦
        (let short : behind ≤ before = ground (arith, test) in
          let passes = asserted_passes (le short) in
          (
            (λ _. short, λ _. passes),
            (λ e. some_not (sym passes ∙ e), λ long. absurd (omega (arith, short, long))),
          ))
    | inr test ↦
        (let long : before < behind = ground (arith, test) in
          let fails = asserted_fails success (lt long) in
          (
            (λ e. some_not (sym e ∙ fails), λ short. absurd (omega (arith, short, long))),
            (λ _. long, λ _. fails),
          ))
  ]
    where
      some_not : {A B : Type 0} {a : A} → some a ≡ none → B
      some_not e = cc
