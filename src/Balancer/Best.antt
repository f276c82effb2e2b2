-- ===== src/Balancer/Best.antt =====
-- xzero/http/client/HttpClusterScheduler.cc `RoundRobin::schedule` against the best answer of the members.
use mathlib.Core.Path.{subst}
use x.Base.{
  ℕ, zero, suc, ◌+◌, ◌≤◌, ◌<◌, ◌≡◌, ◌⊎◌, refl, arith, Bool-cases, List, [], ◌∷◌, length, get_elem?,
  ◌==◌, get_elem?-lt, get_elem?-bound, none, some, inl, inr, sym, ◌∙◌, ap, some-eq,
}
use x.Balancer.{Status, unavailable, overloaded, Member, try_process, schedule_loop, round_robin}
use x.Balancer.Rounds.{place, answer, IsTried, place_lt, place_next, round-cases, away_count}
use x.Balancer.Answers.{
  rank, rank_le2, not_away, best_answer, IsGiven, IsBest-unique, best_answer-le,
  best_answer-IsGiven,
}

eq-cases : (p i : ℕ) → (p ≡ i) ⊎ ¬ (p ≡ i)
eq-cases p i = elim (Bool-cases (p == i)) [
  | inl same ↦ inl (ground (arith, same))
  | inr other ↦ inr (λ h. absurd (ground (arith, other, h)))
]

module _ (members : List Member) (limit : ℕ) where
  -- What the answer `s` of the rounds left tells: who gave it, or that some round did not count.
  abbrev Found : ℕ → Status → Type 0
  Found rounds s = (s ≡ unavailable) ⊎ IsGiven members s ⊎ (s ≡ overloaded) × (rounds < limit)

  Found-busy :
      (rounds : ℕ) (s : Status)
      → ¬ (s ≡ unavailable)
      → IsGiven members overloaded
      → Found rounds s
      → Found (rounds + 1) s
  Found-busy rounds s seen given (inl away) = absurd (seen away)
  Found-busy rounds s seen given (inr (inl found)) = inr (inl found)
  Found-busy rounds s seen given (inr (inr (busy, _))) =
      inr (inl (subst (IsGiven members) (sym busy) given))

module _ (members : List Member) (limit : ℕ) (fits : limit ≤ length members) where
  in_range : (next : ℕ) → 0 < limit → ¬ (get_elem? members (place limit next) ≡ none)
  in_range next some_limit h =
      let (m, there) =
        get_elem?-lt members (place limit next)
          (omega (arith, place_lt members limit next some_limit, fits)) in
      cc

  IsTried-next :
      (left p i : ℕ)
      → p < limit
      → ¬ (p ≡ i)
      → IsTried members limit (suc left) p i
      → IsTried members limit left (place limit (p + 1)) i
  IsTried-next left p i lt other tried = ground (arith, place_next members limit p lt)

  answer-le :
      (left next count i : ℕ) (m : Member)
      → count + left ≤ limit
      → IsTried members limit left (place limit next) i
      → get_elem? members i ≡ some m
      → rank (answer members limit left next count) ≤ rank (try_process m).1
  unfolding rank
  answer-le zero next count i m few tried there =
      absurd (ground (arith, tried, place_lt members limit next (ground (arith, tried))))
  answer-le (suc left) next count i m few tried there =
      let p = place limit next in
      let lt = place_lt members limit next (ground (arith, tried)) in
      elim (round-cases members limit left next count) [
        | inl beyond ↦ absurd (in_range next (ground (arith, tried)) beyond)
        | inr (k, here, inl (_, e)) ↦ rw e (omega arith)
        | inr (k, here, inr (inl (away, e))) ↦ elim (eq-cases p i) [
          | inl same ↦
              rw
                (
                  ← ap (λ (a : Member). (try_process a).1)
                      (some-eq (sym here ∙ ap (get_elem? members) same ∙ there)),
                  away,
                )
                (rank_le2 (answer members limit (suc left) next count))
          | inr other ↦ rw e (
              answer-le left (p + 1) (count + 1) i m (omega (arith, few))
                (IsTried-next left p i lt other tried) there)
        ]
        | inr (k, here, inr (inr (busy, e))) ↦ elim (eq-cases p i) [
          | inl same ↦
              rw
                (
                  ← ap (λ (a : Member). (try_process a).1)
                      (some-eq (sym here ∙ ap (get_elem? members) same ∙ there)),
                  busy,
                  e,
                )
                (not_away (answer members limit left (p + 1) count)
                  (λ h. absurd (omega (arith, away_count members limit left (p + 1) count h, few))))
          | inr other ↦ rw e (
              answer-le left (p + 1) count i m (omega (arith, few))
                (IsTried-next left p i lt other tried) there)
        ]
      ]

  answer-given :
      (left next count : ℕ)
      → count + left ≤ limit
      → 0 < limit
      → Found members limit (count + left) (answer members limit left next count)
  unfolding schedule_loop
  answer-given zero next count few some_limit = elim (Bool-cases (count == limit)) [
    | inl all ↦ inl (rw all refl)
    | inr some_left ↦ inr (inr (rw some_left refl, ground arith))
  ]
  answer-given (suc left) next count few some_limit =
      elim (round-cases members limit left next count) [
        | inl beyond ↦ absurd (in_range next some_limit beyond)
        | inr (k, here, inl (taken, e)) ↦ inr (inl (place limit next, k, here, taken ∙ sym e))
        | inr (k, here, inr (inl (away, e))) ↦
            subst (Found members limit (count + suc left)) (sym e) (
              subst
                (λ (n : ℕ).
                  Found members limit n
                    (answer members limit left (place limit next + 1) (count + 1)))
                (omega arith)
                (answer-given left (place limit next + 1) (count + 1) (omega (arith, few))
                  some_limit))
        | inr (k, here, inr (inr (busy, e))) ↦
            subst (Found members limit (count + suc left)) (sym e) (
              subst
                (λ (n : ℕ).
                  Found members limit n (answer members limit left (place limit next + 1) count))
                (omega arith)
                (Found-busy members limit (count + left)
                  (answer members limit left (place limit next + 1) count)
                  (λ h. absurd (
                    omega
                      (arith, away_count members limit left (place limit next + 1) count h, few)))
                  (place limit next, k, here, busy)
                  (answer-given left (place limit next + 1) count (omega (arith, few)) some_limit)))
      ]

  starts-IsTried : (next i : ℕ) → i < limit → IsTried members limit limit (place limit next) i
  starts-IsTried next i lt = ground (arith, lt, place_lt members limit next (omega (arith, lt)))

Found-IsGiven :
    (ms : List Member) (rounds : ℕ) (s : Status)
    → length ms ≤ rounds
    → Found ms (length ms) rounds s
    → (s ≡ unavailable) ⊎ IsGiven ms s
Found-IsGiven ms rounds s all (inl away) = inl away
Found-IsGiven ms rounds s all (inr (inl given)) = inr given
Found-IsGiven ms rounds s all (inr (inr (_, few))) = absurd (omega (arith, all, few))

-- `RoundRobin::schedule` finds the best answer that any member has, wherever it starts: success when a
-- member can take the request, else overloaded when a member is merely full, and else unavailable.
pub round_robin-best_answer :
    (members : List Member) (next : ℕ) → (round_robin members next).status ≡ best_answer members
unfolding round_robin best_answer
round_robin-best_answer [] next = refl
round_robin-best_answer (k ∷ ks) next =
    let ms = k ∷ ks in
    let fits : length ms ≤ length ms = omega arith in
    IsBest-unique ms (round_robin ms next).status (best_answer ms)
      (
        λ i m there.
            answer-le ms (length ms) fits (length ms) next 0 i m (omega arith)
              (starts-IsTried ms (length ms) fits next i (get_elem?-bound ms i there)) there,
        Found-IsGiven ms (0 + length ms) (round_robin ms next).status (omega arith)
            (answer-given ms (length ms) fits (length ms) next 0 (omega arith) (omega arith)),
      )
      (best_answer-le ms, best_answer-IsGiven ms)
