-- ===== src/Balancer/Rounds.antt =====
-- xzero/http/client/HttpClusterScheduler.cc `RoundRobin::schedule`: what comes of a round.
use x.Base.{
  ℕ, zero, suc, ◌+◌, ◌≤◌, ◌<◌, ◌≡◌, ◌⊎◌, refl, arith, Bool-cases, List, get_elem?, leb,
  if◌then◌else◌, none, some, Option-cases, inl, inr, sym, ◌∙◌, ap,
}
use x.Balancer.{
  Status, success, unavailable, overloaded, Member, try_process, set_member, Scheduled,
  schedule_loop,
}

pub Status-cases : (s : Status) → (s ≡ success) ⊎ (s ≡ unavailable) ⊎ (s ≡ overloaded)
Status-cases success = inl refl
Status-cases unavailable = inr (inl refl)
Status-cases overloaded = inr (inr refl)

-- One round of the loop, at the place that it tries.
abbrev pub place : ℕ → ℕ → ℕ
place limit next = if leb limit next then 0 else next

module _ (left : ℕ) (members : List Member) (limit next count : ℕ) where
  pub loop_beyond :
      get_elem? members (place limit next) ≡ none
      → schedule_loop (suc left) members limit next count
        ≡ record { members = members; next = place limit next; status = overloaded }
  unfolding schedule_loop
  loop_beyond beyond = rw (beyond, schedule_loop) refl

  module _ (m : Member) (there : get_elem? members (place limit next) ≡ some m) where
    pub loop_taken :
        (try_process m).1 ≡ success
        → schedule_loop (suc left) members limit next count ≡ record {
          members = set_member members (place limit next) (try_process m).0;
          next = place limit next;
          status = success;
        }
    unfolding schedule_loop
    loop_taken taken = rw (there, schedule_loop, taken) refl

    pub loop_away :
        (try_process m).1 ≡ unavailable
        → schedule_loop (suc left) members limit next count
          ≡ schedule_loop left members limit (place limit next + 1) (count + 1)
    unfolding schedule_loop
    loop_away away = rw (there, schedule_loop, away) refl

    pub loop_busy :
        (try_process m).1 ≡ overloaded
        → schedule_loop (suc left) members limit next count
          ≡ schedule_loop left members limit (place limit next + 1) count
    unfolding schedule_loop
    loop_busy busy = rw (there, schedule_loop, busy) refl

overloaded_not : ¬ (overloaded ≡ unavailable)
overloaded_not h = cc

success_not : ¬ (success ≡ unavailable)
success_not h = cc

module _ (members : List Member) (limit : ℕ) where
  abbrev pub answer : ℕ → ℕ → ℕ → Status
  answer left next count = (schedule_loop left members limit next count).status

  -- The place `i` is tried within `left` rounds from `p`.
  abbrev pub IsTried : ℕ → ℕ → ℕ → Type 0
  IsTried left p i = (i < limit) × ((p ≤ i) × (i < p + left) ⊎ (i < p) × (i + limit < p + left))

  -- What one round comes to.
  pub round-cases :
      (left next count : ℕ)
      → (get_elem? members (place limit next) ≡ none)
        ⊎ ((m : Member) × (get_elem? members (place limit next) ≡ some m)
            × (((try_process m).1 ≡ success) × (answer (suc left) next count ≡ success)
                ⊎ ((try_process m).1 ≡ unavailable)
                  × (answer (suc left) next count ≡ answer left (place limit next + 1) (count + 1))
                ⊎ ((try_process m).1 ≡ overloaded)
                  × (answer (suc left) next count ≡ answer left (place limit next + 1) count)))
  round-cases left next count = elim (Option-cases (get_elem? members (place limit next))) [
    | inl beyond ↦ inl beyond
    | inr (m, there) ↦ inr (
      m,
      there,
      elim (Status-cases (try_process m).1) [
        | inl e ↦ inl (
          e,
          ap (λ (r : Scheduled). r.status) (loop_taken left members limit next count m there e),
        )
        | inr (inl e) ↦ inr (
            inl (
              e,
              ap (λ (r : Scheduled). r.status) (loop_away left members limit next count m there e),
            ))
        | inr (inr e) ↦ inr (
            inr (
              e,
              ap (λ (r : Scheduled). r.status) (loop_busy left members limit next count m there e),
            ))
      ],
    )
  ]

  pub beyond-answer :
      (left next count : ℕ)
      → get_elem? members (place limit next) ≡ none
      → answer (suc left) next count ≡ overloaded
  beyond-answer left next count h =
      ap (λ (r : Scheduled). r.status) (loop_beyond left members limit next count h)

  pub place_lt : (next : ℕ) → 0 < limit → place limit next < limit
  place_lt next h = ground arith

  pub place_next :
      (p : ℕ)
      → p < limit
      → (place limit (p + 1) ≡ p + 1) × (p + 1 < limit)
        ⊎ (place limit (p + 1) ≡ 0) × (p + 1 ≡ limit)
  place_next p h = elim (Bool-cases (leb limit (p + 1))) [
    | inl last ↦ inr (rw last refl, ground arith)
    | inr more ↦ inl (rw more refl, ground arith)
  ]

  -- Every member was found away only if the rounds are enough for that.
  pub away_count :
      (left next count : ℕ) → answer left next count ≡ unavailable → limit ≤ count + left
  unfolding schedule_loop
  away_count zero next count h = ground (arith, h)
  away_count (suc left) next count h = elim (round-cases left next count) [
    | inl beyond ↦ absurd (overloaded_not (sym (beyond-answer left next count beyond) ∙ h))
    | inr (m, there, inl (_, e)) ↦ absurd (success_not (sym e ∙ h))
    | inr (m, there, inr (inl (_, e))) ↦
        omega (arith, away_count left (place limit next + 1) (count + 1) (sym e ∙ h))
    | inr (m, there, inr (inr (_, e))) ↦
        omega (arith, away_count left (place limit next + 1) count (sym e ∙ h))
  ]
