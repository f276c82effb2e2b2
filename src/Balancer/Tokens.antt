-- ===== src/Balancer/Tokens.antt =====
-- xzero/http/client/HttpCluster.cc `schedule`: which requests have a token and a backend.
use mathlib.Core.Path.{subst}
use x.Base.{
  ℕ, ◌≡◌, refl, arith, Bool, true, false, not, ◌||◌, List, ltb, if◌then◌else◌, Option, none, some,
  inl, inr, sym, ◌∙◌, ◌≢◌, ◌↔◌,
}
use x.Shaper.{Node, Frame, bucket, root_node, get, put}
use x.Shaper.Valid.{IsValid}
use x.Shaper.Puts.{put-get}
use x.Balancer.Rounds.{Status-cases}
use x.Balancer.Gives.{Given, round_robin-Gives}
use x.Balancer.Answers.{best_answer}
use x.Balancer.Best.{round_robin-best_answer}
use x.Balancer.{
  Status, success, Scheduled, round_robin, HttpCluster, Outcome, served, service_unavailable,
  enqueue_request, not_taken, with_token, no_token, schedule,
}
use x.Balancer.Waits.{
  Takes, Counts, Waits, unavailable_not, overloaded_not, service_unavailable-Waits,
  enqueue_request-Waits, not_taken-Waits,
}

-- What a request needs to be served: a cluster that is enabled, a token of its bucket, and a backend that
-- can take it.
abbrev pub CanServe : HttpCluster → Node → List Frame → Type 0
CanServe cl c fs = (cl.enabled ≡ true) × (get 1 c fs ≢ none) × (best_answer cl.members ≡ success)

-- What `schedule` returns, with what it says of the tokens and the cluster.
abbrev pub Schedules :
    ℕ
    → ℕ
    → ℕ
    → HttpCluster
    → Node
    → List Frame
    → Option (Node × List Frame × HttpCluster × Outcome)
    → Type 0
Schedules cr now later cl c fs result =
    (d : Node) × (gs : List Frame) × (cl' : HttpCluster) × (o : Outcome) × (result
      ≡ some (d, gs, cl', o))
    × Takes c fs o d gs
    × Counts cr now later cl o cl'
    × ((o ≡ served) ↔ CanServe cl c fs)

Waits-Schedules :
    (cr now later : ℕ) (cl : HttpCluster) (c : Node) (fs : List Frame) (r : HttpCluster × Outcome)
    → ¬ CanServe cl c fs
    → Waits cr now later cl c fs r
    → Schedules cr now later cl c fs (some (c, fs, r.0, r.1))
Waits-Schedules cr now later cl c fs r cannot (waits, takes, counts) =
    (c, fs, r.0, r.1, refl, takes, counts, (λ o. absurd (waits o), λ can. absurd (cannot can)))

module _ (cr now later : ℕ) (cl : HttpCluster) (c : Node) (fs : List Frame) where
  no_token-Waits : Waits cr now later cl c fs (no_token cr now later cl c)
  unfolding no_token
  no_token-Waits =
      elim (ltb 0 (bucket c).ceil || cl.enqueue_on_unavailable)
        as (λ (b : Bool).
          Waits cr now later cl c fs
            (if b then enqueue_request cr now later cl else service_unavailable cl)) [
              | true ↦ enqueue_request-Waits cr now later cl c fs cl.members cl.next refl
              | false ↦ service_unavailable-Waits cr now later cl c fs cl.members cl.next refl
            ]

  with_token_not :
      (s : Scheduled)
      → s.members ≡ cl.members
      → ¬ CanServe cl c fs
      → (Schedules cr now later cl c fs (
          let r =
            not_taken cr now later s.status (record cl { members = s.members; next = s.next }) in
          some (c, fs, r.0, r.1)))
  with_token_not s same cannot =
      Waits-Schedules cr now later cl c fs
        (not_taken cr now later s.status (record cl { members = s.members; next = s.next })) cannot
        (not_taken-Waits cr now later cl c fs s.members s.next same s.status)

  token : {r : Node × List Frame} → get 1 c fs ≡ some r → get 1 c fs ≢ none
  token got empty = cc

  with_token-Schedules :
      (d : Node) (gs : List Frame)
      → cl.enabled ≡ true
      → get 1 c fs ≡ some (d, gs)
      → put 1 d gs ≡ some (c, fs)
      → Schedules cr now later cl c fs (with_token cr now later cl d gs)
  unfolding with_token
  with_token-Schedules d gs on got back =
      let s = round_robin cl.members cl.next in
      let best = round_robin-best_answer cl.members cl.next in
      let given = round_robin-Gives cl.members cl.next in
      elim (Status-cases s.status) [
        | inl taken ↦
            rw (with_token, taken)
              (
                d,
                gs,
                record cl { members = s.members; next = s.next },
                served,
                refl,
                got,
                (
                  subst (λ (st : Status). Given cl.members st s.members) taken given,
                  refl,
                  refl,
                  refl,
                  refl,
                ),
                (λ _. (on, token got, sym best ∙ taken), λ _. refl),
              )
        | inr (inl away) ↦
            rw (with_token, away, back)
              (with_token_not s (subst (λ (st : Status). Given cl.members st s.members) away given)
                (λ can. unavailable_not (sym away ∙ best ∙ can.2)))
        | inr (inr busy) ↦
            rw (with_token, busy, back)
              (with_token_not s (subst (λ (st : Status). Given cl.members st s.members) busy given)
                (λ can. overloaded_not (sym busy ∙ best ∙ can.2)))
      ]

-- Whatever the state of the backends, `schedule` of a request at a bucket of a valid tree returns: no
-- assertion of the shaper fails. Then one of three holds. A backend took the request, one token
-- was got at the bucket, and neither the queue nor a counter changed. Or the request was answered with 503
-- and counted once as dropped, and the backends, the queue and every token of the tree are as before. Or
-- it was put at the end of the queue, with the backends and the tokens as before: then the requests in
-- front that have waited as long as the timeout says, up to the first that has time left, left the
-- queue, their answers are posted in that order after those posted before, and the count of the queued
-- ones, modulo 2^64, is one more, less those that left.
-- A backend takes the request just when the cluster is enabled, the bucket has a token, and some
-- backend can take it.
pub schedule-Schedules :
    (cr now later : ℕ) (cl : HttpCluster) (c : Node) (fs : List Frame)
    → IsValid (root_node c fs)
    → Schedules cr now later cl c fs (schedule cr now later cl c fs)
unfolding schedule
schedule-Schedules cr now later cl c fs valid =
    elim cl.enabled
        as (λ (b : Bool).
          cl.enabled ≡ b
          → Schedules cr now later cl c fs (
              if not b
              then some (c, fs, (service_unavailable cl).0, (service_unavailable cl).1)
              else taken_up (get 1 c fs))) [
                | false ↦ (λ off.
                    Waits-Schedules cr now later cl c fs (service_unavailable cl)
                      (λ can. disabled off can.0)
                      (service_unavailable-Waits cr now later cl c fs cl.members cl.next refl))
                | true ↦ (λ on.
                    elim (get 1 c fs)
                        as (λ (o : Option (Node × List Frame)).
                          get 1 c fs ≡ o → Schedules cr now later cl c fs (taken_up o)) [
                            | none ↦ (λ empty.
                                Waits-Schedules cr now later cl c fs (no_token cr now later cl c)
                                  (λ can. can.1 empty) (no_token-Waits cr now later cl c fs))
                            | some r ↦ (λ got.
                                with_token-Schedules cr now later cl c fs r.0 r.1 on got
                                  (put-get 1 c fs r.0 r.1 (omega arith) valid got))
                          ]
                      refl)
              ]
      refl
  where
    disabled : {b : Bool} → b ≡ false → ¬ (b ≡ true)
    disabled off on = cc

    taken_up : Option (Node × List Frame) → Option (Node × List Frame × HttpCluster × Outcome)
    taken_up (some (d, gs)) = with_token cr now later cl d gs
    taken_up none = some (c, fs, (no_token cr now later cl c).0, (no_token cr now later cl c).1)
