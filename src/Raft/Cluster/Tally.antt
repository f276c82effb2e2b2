-- ===== src/Raft/Cluster/Tally.antt =====
-- raft/Server.cc `quorum`: counting the members that gave their vote.
use x.Base.{
  ℕ, ◌+◌, ◌≤◌, ◌≡◌, refl, arith, Bool, true, false, List, [], ◌∷◌, length, ◌==◌, if◌then◌else◌,
  ◌||◌, All, All-map, ==_iff, Bool-cases, inl, inr,
}
use x.Raft.Server.{quorum}

-- How many members the test holds for.
pub tally : (ℕ → Bool) → List ℕ → ℕ
tally p [] = 0
tally p (m ∷ ms) = let rest = tally p ms in if p m then rest + 1 else rest

unfoldable pub listed : ℕ → List ℕ → Bool
listed j [] = false
listed j (m ∷ ms) = m == j || listed j ms

unfoldable pub occurs : ℕ → List ℕ → ℕ
occurs j [] = 0
occurs j (m ∷ ms) = let rest = occurs j ms in if m == j then rest + 1 else rest

unfoldable pub including : (ℕ → Bool) → ℕ → ℕ → Bool
including p j k = if k == j then true else p k

pub tally-le-including :
    (p : ℕ → Bool) (j : ℕ) (ms : List ℕ) → tally p ms ≤ tally (including p j) ms
unfolding tally including
tally-le-including p j [] = omega arith
tally-le-including p j (m ∷ ms) = ground (arith, tally-le-including p j ms)

pub tally-including :
    (p : ℕ → Bool) (j : ℕ) (ms : List ℕ)
    → p j ≡ false
    → listed j ms ≡ true
    → tally p ms + 1 ≤ tally (including p j) ms
unfolding tally including listed
tally-including p j [] new h = cc
tally-including p j (m ∷ ms) new h = elim (Bool-cases (m == j)) [
  | inl e ↦
      (let same : m ≡ j = (==_iff m j).0 e in
        let fresh : p m ≡ false = rw same new in
        rw (e, fresh) (omega (arith, tally-le-including p j ms)))
  | inr e ↦
      (let there : listed j ms ≡ true = ground (arith) in
        rw e (ground (arith, tally-including p j ms new there)))
]

pub tally-none : (ms : List ℕ) → tally (λ _. false) ms ≡ 0
unfolding tally
tally-none [] = refl
tally-none (m ∷ ms) = tally-none ms

-- Two tests that never hold together hold for no more members than there are.
pub tally-disjoint :
    (p q : ℕ → Bool) (ms : List ℕ)
    → ((j : ℕ) → p j ≡ true → q j ≡ false)
    → tally p ms + tally q ms ≤ length ms
unfolding tally
tally-disjoint p q [] h = omega arith
tally-disjoint p q (m ∷ ms) h = ground (arith, h m, tally-disjoint p q ms h)

pub two_quorums : (n a b : ℕ) → quorum n ≤ a → quorum n ≤ b → n + 1 ≤ a + b
two_quorums n a b p q = omega arith

pub All-listed : (ms : List ℕ) → All (λ m. listed m ms ≡ true) ms
unfolding listed
All-listed [] = tt
All-listed (m ∷ ms) =
    (ground (arith, ==_iff m m), All-map ms (λ k h. ground (arith, h)) (All-listed ms))
