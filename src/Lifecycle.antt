-- ===== src/Lifecycle.antt =====
-- internal/fx/presentation.go: the loops that start the background consumers again.
pub mod Restart
pub mod Serving
use ofm_auth_service.Prelude.{
  ℕ, ◌*◌, Bool, true, false, List, [], ◌∷◌, ◌≡◌, refl, ◌⊎◌, inl, ◌≤◌, ltb, if◌then◌else◌, arith,
}
use ofm_auth_service.Service.{second}

abbrev pub longest : ℕ
longest = 30 * second

-- The backoff of InvokeSubscribeRegistrationSaga behind a Subscribe that failed (true) or not; in
-- nanoseconds. The loop waits for it after a failure.
unfoldable pub next_saga_backoff : Bool → ℕ → ℕ
next_saga_backoff true backoff =
    if ltb backoff longest
    then if ltb longest (backoff * 2) then longest else backoff * 2
    else backoff
next_saga_backoff false backoff = second

-- The backoff of InvokeSubscribeAuthRecovery.
unfoldable pub next_recovery_backoff : Bool → ℕ → ℕ
next_recovery_backoff true backoff = if ltb backoff longest then backoff * 2 else backoff
next_recovery_backoff false backoff = second

-- The waits of a loop whose Subscribe ended as listed, from a backoff on.
unfoldable pub waits : (Bool → ℕ → ℕ) → List Bool → ℕ → ℕ
waits next [] backoff = backoff
waits next (failed ∷ rest) backoff = waits next rest (next failed backoff)

saga-bounded :
    (runs : List Bool) (backoff : ℕ)
    → second ≤ backoff
    → backoff ≤ longest
    → (second ≤ waits next_saga_backoff runs backoff)
      × (waits next_saga_backoff runs backoff ≤ longest)
unfolding waits next_saga_backoff
saga-bounded [] backoff lo hi = (lo, hi)
saga-bounded (true ∷ runs) backoff lo hi = saga-bounded runs _ (ground arith) (ground arith)
saga-bounded (false ∷ runs) backoff lo hi = saga-bounded runs _ (omega arith) (omega arith)

-- However its runs end, the saga's loop waits between 1 and 30 seconds.
pub saga_backoff_bounded :
    (runs : List Bool)
    → (second ≤ waits next_saga_backoff runs second)
      × (waits next_saga_backoff runs second ≤ 30 * second)
saga_backoff_bounded runs = saga-bounded runs second (omega arith) (omega arith)

-- The seconds that the recovery's loop may wait.
abbrev IsDoubled : ℕ → Type 0
IsDoubled b =
    (b ≡ second)
    ⊎ (b ≡ 2 * second)
    ⊎ (b ≡ 4 * second)
    ⊎ (b ≡ 8 * second)
    ⊎ (b ≡ 16 * second)
    ⊎ (b ≡ 32 * second)

next_recovery_backoff-IsDoubled :
    (failed : Bool) (b : ℕ) → IsDoubled b → IsDoubled (next_recovery_backoff failed b)
unfolding next_recovery_backoff
next_recovery_backoff-IsDoubled failed b h = ground arith

waits-IsDoubled :
    (runs : List Bool) (b : ℕ) → IsDoubled b → IsDoubled (waits next_recovery_backoff runs b)
unfolding waits
waits-IsDoubled [] b h = h
waits-IsDoubled (failed ∷ runs) b h =
    waits-IsDoubled runs _ (next_recovery_backoff-IsDoubled failed b h)

-- The recovery's loop, which does not clamp its backoff, waits between 1 and 32 seconds.
pub recovery_backoff_bounded :
    (runs : List Bool)
    → (second ≤ waits next_recovery_backoff runs second)
      × (waits next_recovery_backoff runs second ≤ 32 * second)
recovery_backoff_bounded runs =
    let h = waits-IsDoubled runs second (inl refl) in (ground arith, ground arith)
