-- ===== src/Muduo/Server/RoundRobin.antt =====
-- The loops take turns.
use native.Mathlib.Nat.{suc-mod, mod_self, mod-eq_of_lt, mod-lt, zero-mod}
use mprpc_main.Common.{
  ℕ, zero, suc, ◌+◌, ◌<◌, ◌%◌, ◌≡◌, refl, sym, ap, ap₂, ◌∙◌, Option, some, List, [], ◌∷◌, length,
  leb, arith, if◌then◌else◌, ◌>>=◌, inl, inr, Bool-cases,
}
use mprpc_main.Muduo.Server.{
  EventLoopThreadPool, new_pool, set_thread_num, start_pool, started_loops, loop_at, next_of,
  get_next_loop, next_from,
}

length-started_loops : (i n : ℕ) → length (started_loops i n) ≡ n
unfolding started_loops
length-started_loops i zero = refl
length-started_loops i (suc n) = ap suc (length-started_loops (suc i) n)

loop_at-started_loops : (i n k : ℕ) → k < n → loop_at k (started_loops i n) ≡ some (i + k)
unfolding started_loops loop_at
loop_at-started_loops i zero k h = absurd (omega arith)
loop_at-started_loops i (suc n) zero h = ap some (omega arith)
loop_at-started_loops i (suc n) (suc k) h =
    loop_at-started_loops (suc i) n k (omega arith) ∙ ap some (omega arith)

-- After `k` calls of `getNextLoop`.
record Turn (n k : ℕ) (p : EventLoopThreadPool) : Type 0 where
  all : p.loops ≡ started_loops 1 (suc n)
  turn : p.next ≡ k % suc n

abbrev next_turn : ℕ → ℕ → ℕ
next_turn n r = if leb (suc n) (r + 1) then 0 else r + 1

next_turn-mod : (n k : ℕ) → next_turn n (k % suc n) ≡ suc k % suc n
next_turn-mod n k = elim (Bool-cases (leb (suc n) (k % suc n + 1))) [
  | inl e ↦ rw e (
      sym (
        suc-mod k (suc n)
        ∙ ap (λ r. r % suc n) (ground (arith, mod-lt k {m = suc n}))
        ∙ mod_self (suc n)))
  | inr e ↦
      rw e (
        sym (suc-mod k (suc n) ∙ mod-eq_of_lt (ground (arith, mod-lt k {m = suc n})) ∙ omega arith))
]

get_next_loop-Turn :
    (n k : ℕ) (p : EventLoopThreadPool)
    → Turn n k p
    → (p' : EventLoopThreadPool) × (get_next_loop p ≡ some (1 + k % suc n, p')) × Turn n (suc k) p'
unfolding get_next_loop next_of next_from started_loops
get_next_loop-Turn n k p t = (
  record p { next = next_turn n (k % suc n) },
  nonempty p.loops t.all
      ∙ ap (λ o. next_of o p)
          (ap₂ loop_at t.turn t.all
            ∙ loop_at-started_loops 1 (suc n) (k % suc n) (mod-lt k {m = suc n} (omega arith)))
      ∙ ap₂
          (λ size now.
            some (1 + k % suc n, record p { next = if leb size (now + 1) then 0 else now + 1 }))
          (ap length t.all ∙ length-started_loops 1 (suc n)) t.turn,
  record { all = t.all; turn = next_turn-mod n k },
)
  where
    nonempty :
        (ls : List ℕ)
        → ls ≡ started_loops 1 (suc n)
        → next_from ls p ≡ next_of (loop_at p.next p.loops) p
    nonempty [] e = cc
    nonempty (l ∷ ls) e = refl

-- The loops of the first `k` calls, and the pool behind them.
pub turns : ℕ → EventLoopThreadPool → Option (List ℕ × EventLoopThreadPool)
turns zero p = some ([], p)
turns (suc k) p = get_next_loop p >>= λ r. turns k r.1 >>= λ rs. some (r.0 ∷ rs.0, rs.1)

-- The loops 1 to `n` over and over, from the turn `k` on.
pub round_robin : ℕ → ℕ → ℕ → List ℕ
round_robin n k zero = []
round_robin n k (suc m) = (1 + k % n) ∷ round_robin n (suc k) m

turns-Turn :
    (n k m : ℕ) (p : EventLoopThreadPool)
    → Turn n k p
    → (p' : EventLoopThreadPool) × (turns m p ≡ some (round_robin (suc n) k m, p'))
unfolding turns round_robin
turns-Turn n k zero p t = (p, refl)
turns-Turn n k (suc m) p t =
    let (p', e, t') = get_next_loop-Turn n k p t in
    let (p'', e') = turns-Turn n (suc k) m p' t' in rw (e, e') (p'', refl)

-- A new pool that is given `n + 1` threads and started: any number of calls of `getNextLoop`
-- succeed, and they give the loops of the threads in turn, begun with the first and over again
-- after the last; the base loop is never among them.
pub turns-round_robin :
    (n m : ℕ)
    → (p : EventLoopThreadPool) × (turns m (start_pool (set_thread_num (suc n) new_pool))
        ≡ some (round_robin (suc n) 0 m, p))
unfolding start_pool set_thread_num new_pool
turns-round_robin n m =
    turns-Turn n 0 m (start_pool (set_thread_num (suc n) new_pool))
      (record { all = refl; turn = sym (zero-mod (suc n)) })
