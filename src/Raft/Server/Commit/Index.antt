-- ===== src/Raft/Server/Commit/Index.antt =====
-- raft/Server.cc `computeCommitIndex`: the largest index that a majority of the followers has stored.
use x.Base.{
  ℕ, zero, suc, ◌+◌, ◌-◌, ◌/◌, ◌<◌, ◌≤◌, ◌≡◌, refl, arith, [], ◌∷◌, length, ltb, leb, ◌&&◌,
  if◌then◌else◌, some, inl, inr, Bool-cases, ltb→lt, ltb-false→ge,
}
use mathlib.Core.Path.{subst}
use x.Raft.Server.{FollowerState}
use x.Raft.Server.Commit.{
  Followers, min_match, max_match, count_stored, commit_loop, compute_commit_index,
}

count_stored-all :
    (n low : ℕ) (fs : Followers)
    → n ≤ min_match low fs
    → (count_stored n fs ≡ length fs) × (n ≤ low)
unfolding min_match count_stored
count_stored-all n low [] h = (refl, h)
count_stored-all n low ((id, f) ∷ fs) h =
    let below = count_stored-all n (if ltb f.match_index low then f.match_index else low) fs h in
    ground (arith, below)

count_stored-none :
    (n high : ℕ) (fs : Followers) → max_match high fs < n → (count_stored n fs ≡ 0) × (high < n)
unfolding max_match count_stored
count_stored-none n high [] h = (refl, h)
count_stored-none n high ((id, f) ∷ fs) h =
    let above = count_stored-none n (if ltb high f.match_index then f.match_index else high) fs h in
    ground (arith, above)

every_follower :
    (id : ℕ) (f : FollowerState) (fs : Followers)
    → count_stored (min_match f.match_index fs) ((id, f) ∷ fs) ≡ suc (length fs)
unfolding count_stored
every_follower id f fs =
    let below = count_stored-all (min_match f.match_index fs) f.match_index fs (omega arith) in
    ground (arith, below)

no_follower :
    (id : ℕ) (f : FollowerState) (fs : Followers) (k : ℕ)
    → max_match f.match_index fs < k
    → count_stored k ((id, f) ∷ fs) ≡ 0
unfolding count_stored
no_follower id f fs k h =
    let above = count_stored-none k f.match_index fs h in ground (arith, above)

better_lem :
    (quorum n result : ℕ) (fs : Followers)
    → quorum ≤ count_stored result fs
    → (quorum
        ≤ count_stored (if leb quorum (count_stored n fs) && ltb result n then n else result) fs)
      × (result ≤ (if leb quorum (count_stored n fs) && ltb result n then n else result))
      × (quorum ≤ count_stored n fs
          → n ≤ (if leb quorum (count_stored n fs) && ltb result n then n else result))
better_lem quorum n result fs h = ground arith

-- The answer of the loop: the largest index it looked at that enough followers have, or the one
-- it began with.
commit_loop_lem :
    (quorum : ℕ) (fs : Followers) (steps n result : ℕ)
    → quorum ≤ count_stored result fs
    → (quorum ≤ count_stored (commit_loop quorum fs steps n result) fs)
      × (result ≤ commit_loop quorum fs steps n result)
      × ((k : ℕ)
          → n ≤ k
          → k < n + steps
          → quorum ≤ count_stored k fs
          → k ≤ commit_loop quorum fs steps n result)
unfolding commit_loop
commit_loop_lem quorum fs zero n result h = (h, omega arith, λ k a b _. absurd (omega arith))
commit_loop_lem quorum fs (suc steps) n result h =
    let better = if leb quorum (count_stored n fs) && ltb result n then n else result in
    let (enough, larger, here) = better_lem quorum n result fs h in
    let (q, r, rest) = commit_loop_lem quorum fs steps (n + 1) better enough in
    (
      q,
      omega arith,
      λ k a b c. elim (Bool-cases (ltb n k)) [
        | inl later ↦ rest k (omega (arith, ltb→lt n k later)) (omega arith) c
        | inr now ↦
            let same : k ≡ n = omega (arith, ltb-false→ge n k now) in
            let stored : n ≤ better = here (subst (λ (j : ℕ). quorum ≤ count_stored j fs) same c) in
            omega arith
      ],
    )

-- The commit index of a leader with followers: at least `quorum` of them, half of their number and
-- one, have stored it, and any index that as many have stored is no larger.
pub compute_commit_index_lem :
    (id : ℕ) (f : FollowerState) (fs : Followers)
    → (n : ℕ) × (compute_commit_index ((id, f) ∷ fs) ≡ some n)
      × (length ((id, f) ∷ fs) / 2 + 1 ≤ count_stored n ((id, f) ∷ fs))
      × ((k : ℕ) → length ((id, f) ∷ fs) / 2 + 1 ≤ count_stored k ((id, f) ∷ fs) → k ≤ n)
unfolding compute_commit_index
compute_commit_index_lem id f fs =
    let all = (id, f) ∷ fs in
    let low = min_match f.match_index fs in
    let high = max_match f.match_index fs in
    let q = length all / 2 + 1 in
    let enough : q ≤ count_stored low all = omega (arith, every_follower id f fs) in
    let (stored, larger, rest) = commit_loop_lem q all (suc high - low) low low enough in
    let index = commit_loop q all (suc high - low) low low in
    let largest : (k : ℕ) → q ≤ count_stored k all → k ≤ index = λ k c.
      elim (Bool-cases (ltb high k)) [
        | inl above ↦ absurd (omega (arith, no_follower id f fs k (ltb→lt high k above)))
        | inr within ↦ elim (Bool-cases (ltb k low)) [
          | inl below ↦ omega (arith, ltb→lt k low below)
          | inr from ↦
              rest k (ltb-false→ge k low from) (omega (arith, ltb-false→ge high k within)) c
        ]
      ] in
    (index, refl, stored, largest)
