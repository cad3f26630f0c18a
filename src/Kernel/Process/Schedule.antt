-- ===== src/Kernel/Process/Schedule.antt =====
-- Ticks of the timer go round the ring: every member gets its turn, and is resumed where it was
-- interrupted.

use bonfire_os.Base.{
  ℕ, suc, ◌≡◌, ◌≢◌, sym, ◌∙◌, Option, some, List, [], ◌∷◌, arith, length, All, get_or,
}
use bonfire_os.Kernel.Process.{Process, Kernel, running, runnable, scheduler_tick}
use bonfire_os.Kernel.Process.Ring.{Links, Links-frame, Without, IsRing}

-- What `current_process` is after each of a row of ticks, at which the interrupted process has the
-- stack pointers listed.
pub currents : List ℕ → Kernel → List (Option ℕ)
currents [] k = []
currents (r ∷ rs) k = let k' = (scheduler_tick r k).1 in k'.current_process ∷ currents rs k'

-- The stack pointers that the ticks hand back.
pub resumed : List ℕ → Kernel → List ℕ
resumed [] k = []
resumed (r ∷ rs) k = let (r', k') = scheduler_tick r k in r' ∷ resumed rs k'

module _ (r c n : ℕ) (k : Kernel) (cur : k.current_process ≡ some c)
    (nxt : (k.processes c).next ≡ some n) where
  tick_current : (scheduler_tick r k).1.current_process ≡ some n
  unfolding scheduler_tick
  tick_current = ground arith

  tick_next : (x : ℕ) → ((scheduler_tick r k).1.processes x).next ≡ (k.processes x).next
  unfolding scheduler_tick
  tick_next x = ground arith

  tick_saved :
      (x : ℕ) → x ≢ c → ((scheduler_tick r k).1.processes x).saved_rsp ≡ (k.processes x).saved_rsp
  unfolding scheduler_tick
  tick_saved x h = ground arith

  tick_saved_self : ((scheduler_tick r k).1.processes c).saved_rsp ≡ r
  unfolding scheduler_tick
  tick_saved_self = ground arith

  tick_returns : (scheduler_tick r k).0 ≡ ((scheduler_tick r k).1.processes n).saved_rsp
  unfolding scheduler_tick
  tick_returns = ground arith

  tick-Links :
      (a b : ℕ) (xs : List ℕ)
      → Links k.processes a xs b
      → Links (scheduler_tick r k).1.processes a xs b
  tick-Links a b xs h =
      Links-frame k.processes (scheduler_tick r k).1.processes a b xs (tick_next a) (others xs) h
    where
      others :
          (ys : List ℕ)
          → All (λ x. ((scheduler_tick r k).1.processes x).next ≡ (k.processes x).next) ys
      others [] = tt
      others (y ∷ ys) = (tick_next y, others ys)

  -- A tick of the timer switches from the current process `c` to its successor `n`: `n` is marked
  -- running, `c` (if another) runnable with its stack pointer saved, and no other process changes.
  tick_switches :
      ((scheduler_tick r k).1.current_process ≡ some n)
      × (((scheduler_tick r k).1.processes n).state ≡ running)
      × (c ≢ n → ((scheduler_tick r k).1.processes c).state ≡ runnable)
      × (((scheduler_tick r k).1.processes c).saved_rsp ≡ r)
      × ((x : ℕ) → x ≢ c → x ≢ n → (scheduler_tick r k).1.processes x ≡ k.processes x)
  unfolding scheduler_tick
  tick_switches =
      (ground arith, ground arith, λ ne. ground arith, ground arith, λ x nc nn. ground arith)

-- The stack pointer saved for `b` is what the tick that arrives at `b` hands back.
resumed_along :
    (rs : List ℕ) (k : Kernel) (c b : ℕ) (xs : List ℕ)
    → k.current_process ≡ some c
    → Links k.processes c xs b
    → b ≢ c
    → Without b xs
    → length rs ≡ suc (length xs)
    → get_or (resumed rs k) (length xs) 0 ≡ (k.processes b).saved_rsp
unfolding resumed
resumed_along [] k c b xs cur h n np len = absurd (omega arith)
resumed_along (r ∷ rs) k c b [] cur h n np len =
    tick_returns r c b k cur h ∙ tick_saved r c b k cur h b n
resumed_along (r ∷ rs) k c b (x ∷ xs) cur h n np len =
    resumed_along rs (scheduler_tick r k).1 x b xs (tick_current r c x k cur h.0)
      (tick-Links r c x k cur h.0 x b xs h.1) (λ e. np.0 (sym e)) np.1 (omega arith)
    ∙ tick_saved r c x k cur h.0 b n

-- When the tail of a ring with other members is the current process and is interrupted with the
-- stack pointer `r`, the tick that comes round to it again hands back `r`, whatever stack pointers
-- the others were interrupted with.
round_robin_resumes :
    (r : ℕ) (rs : List ℕ) (k : Kernel) (l : ℕ) (x : ℕ) (xs : List ℕ)
    → IsRing k l (x ∷ xs)
    → k.current_process ≡ some l
    → length rs ≡ suc (length xs)
    → get_or (resumed (r ∷ rs) k) (suc (length xs)) 0 ≡ r
unfolding resumed
round_robin_resumes r rs k l x xs ring cur len =
    resumed_along rs (scheduler_tick r k).1 x l xs (tick_current r l x k cur ring.cycle.0)
      (tick-Links r l x k cur ring.cycle.0 x l xs ring.cycle.1) (λ e. ring.tail_once.0 (sym e))
      ring.tail_once.1 len
    ∙ tick_saved_self r l x k cur ring.cycle.0
