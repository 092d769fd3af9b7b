-- ===== src/Wiring/Container.antt =====
-- The container of go.uber.org/fx, as its documentation describes it: an Invoke runs behind those
-- that were listed before it, a constructor is called at most once and only where the next Invoke
-- needs its value, each behind all that it takes, and an error ends the start. OnStop hooks run in
-- the reverse order of the calls that appended them.
use ofm_auth_service.Prelude.{Option, none, some, List, [], ◌∷◌, ◌≡◌, ◌⊎◌}
use ofm_auth_service.Wiring.{Part, needs, invokes, Hook, hook_of, Process, called, call}

abbrev pub Has : {A : Type 0} → A → List A → Type 0
Has x [] = ⊥
Has x (y ∷ ys) = (x ≡ y) ⊎ Has x ys

-- The list has all elements of the first.
abbrev pub HasAll : {A : Type 0} → List A → List A → Type 0
HasAll [] ys = Unit
HasAll (x ∷ xs) ys = Has x ys × HasAll xs ys

-- A part that another one is or, through its parameters, takes.
pub data Wants (part : Part) : Part → Type 0 where
  itself : Wants part part
  through : (by middle : Part) → Has middle (needs by) → Wants part middle → Wants part by

-- The functions that have been called and the hooks that they have appended, the latest first, and the
-- Invokes that are left.
pub record Startup : Type 0 where
  pub parts : List Part
  pub hooks : List Hook
  pub waiting : List Part

abbrev pub add_hook : Option Hook → List Hook → List Hook
add_hook none hooks = hooks
add_hook (some h) hooks = h ∷ hooks

abbrev pub at_start : Startup
at_start = record { parts = []; hooks = []; waiting = invokes }

pub data Starts (p : Process) (s t : Startup) : Type 0 where
  construct :
      (part invoke : Part) (later : List Part) (hook : Option Hook)
      → s.waiting ≡ invoke ∷ later
      → Wants part invoke
      → ¬ Has part s.parts
      → ¬ Has part invokes
      → HasAll (needs part) s.parts
      → call p part ≡ called hook
      → t ≡ record s { parts = part ∷ s.parts; hooks = add_hook hook s.hooks }
      → Starts p s t
  run :
      (invoke : Part) (later : List Part) (hook : Option Hook)
      → s.waiting ≡ invoke ∷ later
      → HasAll (needs invoke) s.parts
      → call p invoke ≡ called hook
      → t ≡ record { parts = invoke ∷ s.parts; hooks = add_hook hook s.hooks; waiting = later }
      → Starts p s t

-- From one state of a start to another.
pub data StartsTo (p : Process) (s : Startup) : Startup → Type 0 where
  here : StartsTo p s s
  next : {t u : Startup} → StartsTo p s t → Starts p t u → StartsTo p s u

-- The hooks of the parts.
abbrev pub hooks_of : List Part → List Hook
hooks_of [] = []
hooks_of (part ∷ parts) = add_hook (hook_of part) (hooks_of parts)
