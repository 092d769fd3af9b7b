-- ===== src/Nats/PullConsumer/Runtime/Workers.antt =====
-- Sums over the workers, and the workers that still run.
use mathlib.Core.Option.{some-injective}
use ofm_auth_service.Prelude.{
  ℕ, zero, suc, ◌+◌, Bool, true, false, some, List, [], ◌∷◌, ◌≡◌, refl, ap, arith, get_elem?,
}
use ofm_auth_service.Nats.PullConsumer.Runtime.{Worker, idle, exited, handling, all_exited, replace}

unfoldable pub total : (Worker → ℕ) → List Worker → ℕ
total f [] = 0
total f (w ∷ ws) = f w + total f ws

pub total-replace :
    (f : Worker → ℕ) (ws : List Worker) (i : ℕ) (w x : Worker)
    → get_elem? ws i ≡ some w
    → total f (replace i x ws) + f w ≡ total f ws + f x
unfolding total
total-replace f [] i w x e = absurd (cc e)
total-replace f (v ∷ ws) zero w x e = ground (arith, ap f (some-injective v w e))
total-replace f (v ∷ ws) (suc i) w x e = ground (arith, total-replace f ws i w x e)

abbrev pub is_running : Worker → Bool
is_running exited = false
is_running idle = true
is_running (handling m) = true

pub running-all_exited :
    (ws : List Worker) (i : ℕ) {w : Worker}
    → get_elem? ws i ≡ some w
    → is_running w ≡ true
    → all_exited ws ≡ false
running-all_exited [] i e h = absurd (cc e)
running-all_exited (idle ∷ ws) i e h = refl
running-all_exited (handling m ∷ ws) i e h = refl
running-all_exited (exited ∷ ws) zero e h = absurd (cc (e, h))
running-all_exited (exited ∷ ws) (suc i) e h = running-all_exited ws i e h

pub running_worker :
    (ws : List Worker)
    → all_exited ws ≡ false
    → (i : ℕ) × (w : Worker) × (get_elem? ws i ≡ some w) × (is_running w ≡ true)
running_worker [] e = absurd (cc e)
running_worker (idle ∷ ws) e = (0, idle, refl, refl)
running_worker (handling m ∷ ws) e = (0, handling m, refl, refl)
running_worker (exited ∷ ws) e = let (i, w, at, runs) = running_worker ws e in (suc i, w, at, runs)
