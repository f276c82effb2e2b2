-- ===== src/Balancer/Gives.antt =====
-- xzero/http/client/HttpClusterScheduler.cc `RoundRobin::schedule`: which member took the request.
use mathlib.Core.Path.{subst}
use x.Base.{
  ℕ, zero, suc, ◌+◌, ◌≡◌, refl, List, length, get_elem?, ◌==◌, some, Option-cases, Bool-cases, inl,
  inr, sym,
}
use x.Balancer.Rounds.{place, loop_beyond, loop_taken, loop_away, loop_busy, Status-cases}
use x.Balancer.{
  Status, success, unavailable, overloaded, Member, try_process, set_member, Scheduled,
  schedule_loop, round_robin,
}

-- With success one member took the request, and else the members are as before.
abbrev pub Given : List Member → Status → List Member → Type 0
Given ms success ms' =
    (i : ℕ) × (m : Member) × (get_elem? ms i ≡ some m)
    × ((try_process m).1 ≡ success)
    × (ms' ≡ set_member ms i (try_process m).0)
Given ms unavailable ms' = ms' ≡ ms
Given ms overloaded ms' = ms' ≡ ms

abbrev pub Gives : List Member → Scheduled → Type 0
Gives ms r = Given ms r.status r.members

schedule_loop-Gives :
    (left : ℕ) (members : List Member) (limit next count : ℕ)
    → Gives members (schedule_loop left members limit next count)
unfolding schedule_loop
schedule_loop-Gives zero members limit next count = elim (Bool-cases (count == limit)) [
  | inl all ↦ rw all refl
  | inr some_left ↦ rw some_left refl
]
schedule_loop-Gives (suc left) members limit next count =
    let i = place limit next in
    elim (Option-cases (get_elem? members i)) [
      | inl beyond ↦
          subst (Gives members) (sym (loop_beyond left members limit next count beyond)) refl
      | inr (m, there) ↦ elim (Status-cases (try_process m).1) [
        | inl taken ↦
            subst (Gives members) (sym (loop_taken left members limit next count m there taken))
              (i, m, there, taken, refl)
        | inr (inl away) ↦
            subst (Gives members) (sym (loop_away left members limit next count m there away))
              (schedule_loop-Gives left members limit (i + 1) (count + 1))
        | inr (inr busy) ↦
            subst (Gives members) (sym (loop_busy left members limit next count m there busy))
              (schedule_loop-Gives left members limit (i + 1) count)
      ]
    ]

pub round_robin-Gives :
    (members : List Member) (next : ℕ) → Gives members (round_robin members next)
unfolding round_robin
round_robin-Gives members next =
    schedule_loop-Gives (length members) members (length members) next 0
