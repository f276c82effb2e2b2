-- ===== src/Balancer/Answers.antt =====
-- xzero/http/client: the answers of the members to a request, `tryProcess`, best first.
use x.Base.{
  ℕ, zero, suc, ◌≤◌, ◌≡◌, ◌⊎◌, refl, arith, List, [], ◌∷◌, get_elem?, get_elem?-bound, some, inl,
  inr, sym, ◌∙◌, some-eq,
}
use x.Balancer.{Status, success, unavailable, overloaded, Member, try_process}

-- The answers, best first.
unfoldable pub rank : Status → ℕ
rank success = 0
rank overloaded = 1
rank unavailable = 2

unfoldable pub better : Status → Status → Status
better success t = success
better overloaded success = success
better overloaded _ = overloaded
better unavailable t = t

-- The best answer that any member has for a request.
unfoldable pub best_answer : List Member → Status
unfolding better
best_answer [] = unavailable
best_answer (m ∷ ms) = better (try_process m).1 (best_answer ms)

pub rank_le2 : (s : Status) → rank s ≤ 2
unfolding rank
rank_le2 success = omega arith
rank_le2 overloaded = omega arith
rank_le2 unavailable = omega arith

pub not_away : (s : Status) → ¬ (s ≡ unavailable) → rank s ≤ 1
unfolding rank
not_away success h = omega arith
not_away overloaded h = omega arith
not_away unavailable h = absurd (h refl)

rank_unique : (s t : Status) → rank s ≤ rank t → rank t ≤ rank s → s ≡ t
unfolding rank
rank_unique success success h k = refl
rank_unique success overloaded h k = absurd (omega arith)
rank_unique success unavailable h k = absurd (omega arith)
rank_unique overloaded success h k = absurd (omega arith)
rank_unique overloaded overloaded h k = refl
rank_unique overloaded unavailable h k = absurd (omega arith)
rank_unique unavailable success h k = absurd (omega arith)
rank_unique unavailable overloaded h k = absurd (omega arith)
rank_unique unavailable unavailable h k = refl

-- Some member has the answer.
abbrev pub IsGiven : List Member → Status → Type 0
IsGiven ms s = (i : ℕ) × (m : Member) × (get_elem? ms i ≡ some m) × ((try_process m).1 ≡ s)

-- No member has a better answer, and some member has this one; `unavailable` needs no member.
abbrev pub IsBest : List Member → Status → Type 0
IsBest ms s =
    ((i : ℕ) (m : Member) → get_elem? ms i ≡ some m → rank s ≤ rank (try_process m).1)
    × ((s ≡ unavailable) ⊎ IsGiven ms s)

IsBest-le : (ms : List Member) (s t : Status) → IsBest ms s → IsBest ms t → rank s ≤ rank t
unfolding rank
IsBest-le ms s t (least, _) (_, inl away) = rw away (rank_le2 s)
IsBest-le ms s t (least, _) (_, inr (i, m, there, e)) = rw (← e) (least i m there)

pub IsBest-unique : (ms : List Member) (s t : Status) → IsBest ms s → IsBest ms t → s ≡ t
IsBest-unique ms s t h k = rank_unique s t (IsBest-le ms s t h k) (IsBest-le ms t s k h)

better_le : (s t : Status) → (rank (better s t) ≤ rank s) × (rank (better s t) ≤ rank t)
unfolding better rank
better_le success t = omega arith
better_le overloaded success = omega arith
better_le overloaded overloaded = omega arith
better_le overloaded unavailable = omega arith
better_le unavailable t = (rank_le2 t, omega arith)

better-cases : (s t : Status) → (better s t ≡ s) ⊎ (better s t ≡ t)
unfolding better
better-cases success t = inl refl
better-cases overloaded success = inr refl
better-cases overloaded overloaded = inl refl
better-cases overloaded unavailable = inl refl
better-cases unavailable t = inr refl

pub best_answer-le :
    (ms : List Member) (i : ℕ) (m : Member)
    → get_elem? ms i ≡ some m
    → rank (best_answer ms) ≤ rank (try_process m).1
unfolding best_answer
best_answer-le [] i m there = absurd (omega (arith, get_elem?-bound [] i there))
best_answer-le (k ∷ ms) zero m there =
    rw (← some-eq there) (better_le (try_process k).1 (best_answer ms)).0
best_answer-le (k ∷ ms) (suc i) m there =
    omega (arith, best_answer-le ms i m there, (better_le (try_process k).1 (best_answer ms)).1)

pub best_answer-IsGiven :
    (ms : List Member) → (best_answer ms ≡ unavailable) ⊎ IsGiven ms (best_answer ms)
unfolding best_answer
best_answer-IsGiven [] = inl refl
best_answer-IsGiven (k ∷ ms) = elim (better-cases (try_process k).1 (best_answer ms)) [
  | inl first ↦ inr (0, k, refl, sym first)
  | inr rest ↦ elim (best_answer-IsGiven ms) [
    | inl away ↦ inl (rest ∙ away)
    | inr (i, m, there, e) ↦ inr (suc i, m, there, e ∙ sym rest)
  ]
]
