-- ===== src/Lifecycle/Serving.antt =====
-- The loops of internal/fx/presentation.go in every state that they reach, and behind OnStop.
use mathlib.Core.WellFounded.{Acc}
use mathlib.Core.Option.{some-injective}
use ofm_auth_service.Prelude.{
  ℕ, zero, ◌∙◌, ◌*◌, ◌≤◌, ◌<◌, Bool, true, false, none, some, ◌≡◌, ◌⊎◌, inl, inr, refl, sym, subst,
  arith, if◌then◌else◌,
}
use ofm_auth_service.Prelude.Ranking.{Acc-of-Descends}
use ofm_auth_service.Service.{second}
use ofm_auth_service.Lifecycle.{next_saga_backoff, IsDoubled, next_recovery_backoff-IsDoubled}
use ofm_auth_service.Lifecycle.Restart.{
  Loop, LoopAt, testing, subscribing, sleeping, stopped, LoopInput, LoopMove, stop, act, LoopCode,
  saga_ended, recovery_ended, saga_loop, recovery_loop, loop_action, loop_step, first_loop,
  LoopReaches, here, move,
}

-- Of a loop: it has returned only behind OnStop, and its backoff satisfies P.
abbrev pub IsServing : (ℕ → Type 0) → Loop → Type 0
IsServing P l = (l.at ≡ stopped → l.cancelled ≡ true) × P l.backoff

-- What the backoff's steps keep.
record IsPaced (code : LoopCode) (P : ℕ → Type 0) : Type 0 where
  first : P second
  later : (b : ℕ) → P b → P (code.next b)
  ended :
      (failed : Bool) (l : Loop)
      → (((code.ended failed l).at ≡ testing) ⊎ ((code.ended failed l).at ≡ sleeping))
        × ((code.ended failed l).cancelled ≡ l.cancelled)
        × (l.cancelled ≡ true → (code.ended failed l).at ≡ testing)
        × (((code.ended failed l).backoff ≡ l.backoff) ⊎ ((code.ended failed l).backoff ≡ second))

module _ (code : LoopCode) (P : ℕ → Type 0) (paced : IsPaced code P) where
  action-IsServing :
      (input : LoopInput) (at : LoopAt) (l : Loop) {m : Loop}
      → IsServing P l
      → loop_action code input at l ≡ some m
      → IsServing P m
  unfolding loop_action
  action-IsServing input testing l h e =
      subst (IsServing P) (some-injective _ _ e) ((λ q. ground arith), h.1)
  action-IsServing input subscribing l h e =
      let (at, _, _, pace) = paced.ended input.failed l in
      subst (IsServing P) (some-injective _ _ e) (
        (λ q. ground (arith, at)),
        elim pace [
          | inl same ↦ subst P (sym same) h.1
          | inr reset ↦ subst P (sym reset) paced.first
        ],
      )
  action-IsServing input sleeping l h e = chosen input.takes_done e
    where
      chosen :
          (takes_done : Bool) {m : Loop}
          → (if takes_done
              then if l.cancelled then some (record l { at = stopped }) else none
              else some (record l { at = testing; backoff = code.next l.backoff }))
            ≡ some m
          → IsServing P m
      chosen true q = ground (arith, h)
      chosen false q =
          subst (IsServing P) (some-injective _ _ q)
            ((λ x. absurd (cc x)), paced.later l.backoff h.1)
  action-IsServing input stopped l h e = absurd (cc e)

  step-IsServing :
      (x : LoopMove) (l : Loop) {m : Loop}
      → IsServing P l
      → loop_step code x l ≡ some m
      → IsServing P m
  unfolding loop_step
  step-IsServing stop l h e = ground (arith, h)
  step-IsServing (act input) l h e = action-IsServing input l.at l h e

  LoopReaches-IsServing : (l m : Loop) → IsServing P l → LoopReaches code l m → IsServing P m
  LoopReaches-IsServing l m h here = h
  LoopReaches-IsServing l m h (move x e rest) =
      LoopReaches-IsServing _ m (step-IsServing x l h e) rest

abbrev IsCancelled : Loop → Type 0
IsCancelled l = l.cancelled ≡ true

abbrev loop_rank : Loop → ℕ
loop_rank l = elim l.at [ stopped ↦ 0 | testing ↦ 1 | subscribing ↦ 2 | sleeping ↦ 2 ]

abbrev pub LoopFollows : LoopCode → Loop → Loop → Type 0
LoopFollows code m l = (x : LoopMove) × (loop_step code x l ≡ some m)

module _ (code : LoopCode) (P : ℕ → Type 0) (paced : IsPaced code P) where
  action-rank :
      (input : LoopInput) (at : LoopAt) (l : Loop) {m : Loop}
      → l.at ≡ at
      → IsCancelled l
      → loop_action code input at l ≡ some m
      → IsCancelled m × (loop_rank m < loop_rank l)
  unfolding loop_action
  action-rank input testing l q h e = ground (arith, q)
  action-rank input subscribing l q h e =
      let (_, kept, back, _) = paced.ended input.failed l in
      subst (λ m. IsCancelled m × (loop_rank m < loop_rank l)) (some-injective _ _ e)
        (kept ∙ h, rw (back h, q) (omega arith))
  action-rank input sleeping l q h e = ground (arith, q)
  action-rank input stopped l q h e = absurd (cc e)

  loop-descends :
      (l m : Loop)
      → IsCancelled l
      → LoopFollows code m l
      → IsCancelled m
        × ((loop_rank m < loop_rank l) ⊎ ((loop_rank m ≡ loop_rank l) × (zero < zero)))
  unfolding loop_step
  loop-descends l m h (stop, e) = absurd (cc (e, h))
  loop-descends l m h (act input, e) =
      let (kept, less) = action-rank input l.at l refl h e in (kept, inl less)

  loop-Acc : (l : Loop) → IsCancelled l → Acc (LoopFollows code) l
  loop-Acc l h =
      Acc-of-Descends (LoopFollows code) IsCancelled loop_rank (λ _. zero) loop-descends l h

abbrev pub IsClamped : ℕ → Type 0
IsClamped b = (second ≤ b) × (b ≤ 30 * second)

saga_loop-IsPaced : IsPaced saga_loop IsClamped
unfolding saga_ended next_saga_backoff
saga_loop-IsPaced = record {
  first = (omega arith, omega arith);
  later = λ b h. ground arith;
  ended = λ failed l. elim failed [ true ↦ ground arith | false ↦ ground arith ];
}

recovery_loop-IsPaced : IsPaced recovery_loop IsDoubled
unfolding recovery_ended
recovery_loop-IsPaced = record {
  first = inl refl;
  later = next_recovery_backoff-IsDoubled true;
  ended = λ failed l. elim failed [ true ↦ ground arith | false ↦ ground arith ];
}

-- In every state that the saga's loop reaches, it has returned only behind OnStop, and its backoff is
-- between 1 and 30 seconds.
pub saga_loop-IsServing : (l : Loop) → LoopReaches saga_loop first_loop l → IsServing IsClamped l
saga_loop-IsServing l path =
    LoopReaches-IsServing saga_loop IsClamped saga_loop-IsPaced first_loop l
      ((λ q. absurd (cc q)), saga_loop-IsPaced.first) path

-- Behind OnStop every sequence of actions of either loop ends.
pub loops_terminate :
    (l : Loop)
    → l.cancelled ≡ true
    → Acc (LoopFollows saga_loop) l × Acc (LoopFollows recovery_loop) l
loops_terminate l h = (
  loop-Acc saga_loop IsClamped saga_loop-IsPaced l h,
  loop-Acc recovery_loop IsDoubled recovery_loop-IsPaced l h,
)
