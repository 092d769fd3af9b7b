-- ===== src/Nats/Client/Upsert.antt =====
-- A call that adds something under a name, and one that updates it where the first fails.
use ofm_auth_service.Prelude.{String, Option, none, some, ◌≡◌, ◌≢◌, refl, sym, ap, ◌∙◌}
use ofm_auth_service.Nats.Client.{Call, NatsError, Result, made, try_, try_or}

module _ {S C : Type 0} (name : C → String) (add update : C → Call S)
    (stored : String → S → Option C) where
  -- A call that reports no error has stored its argument, and no call changes another name.
  pub record Stores : Type 0 where
    pub added : (c : C) (s t : S) → add c s ≡ (none, t) → stored (name c) t ≡ some c
    pub updated : (c : C) (s t : S) → update c s ≡ (none, t) → stored (name c) t ≡ some c
    pub others_added : (c : C) (n : String) (s : S) → n ≢ name c → stored n (add c s).1 ≡ stored n s
    pub others_updated :
        (c : C) (n : String) (s : S) → n ≢ name c → stored n (update c s).1 ≡ stored n s

-- The program went on from a state that has the argument, and the others as before.
abbrev pub IsStored :
    {S C A : Type 0}
    → (C → String)
    → (String → S → Option C)
    → C
    → S
    → (S → Result A × S)
    → A
    → S
    → Type 0
IsStored {S = S} name stored c s k a v =
    (u : S) × (stored (name c) u ≡ some c)
    × ((n : String) → n ≢ name c → stored n u ≡ stored n s)
    × (k u ≡ (made a, v))

module _ {S C A : Type 0} (name : C → String) (add update : C → Call S)
    (stored : String → S → Option C) (server : Stores name add update stored) where
  try_-IsStored :
      (c : C) (s t v : S) (k : S → Result A × S) (wrap : String → NatsError) (a : A)
      (r : Option String × S)
      → update c t ≡ r
      → ((n : String) → n ≢ name c → stored n t ≡ stored n s)
      → try_ r wrap k ≡ (made a, v)
      → IsStored name stored c s k a v
  try_-IsStored c s t v k wrap a (none, u) q same e = (
    u,
    server.updated c t u q,
    λ n ne.
        ap (λ (x : Option String × S). stored n x.1) (sym q)
        ∙ server.others_updated c n t ne
        ∙ same n ne,
    e,
  )
  try_-IsStored c s t v k wrap a (some x, u) q same e = absurd (cc e)

  added-IsStored :
      (c : C) (s v : S) (k : S → Result A × S) (wrap : String → String → NatsError) (a : A)
      (r : Option String × S)
      → add c s ≡ r
      → try_or r (update c) wrap k ≡ (made a, v)
      → IsStored name stored c s k a v
  added-IsStored c s v k wrap a (none, u) q e = (
    u,
    server.added c s u q,
    λ n ne. ap (λ (x : Option String × S). stored n x.1) (sym q) ∙ server.others_added c n s ne,
    e,
  )
  added-IsStored c s v k wrap a (some x, t) q e =
      try_-IsStored c s t v k (wrap x) a (update c t) refl
        (λ n ne.
          ap (λ (x : Option String × S). stored n x.1) (sym q) ∙ server.others_added c n s ne)
        e

  pub try_or-IsStored :
      (c : C) (s v : S) (k : S → Result A × S) (wrap : String → String → NatsError) (a : A)
      → try_or (add c s) (update c) wrap k ≡ (made a, v)
      → IsStored name stored c s k a v
  try_or-IsStored c s v k wrap a e = added-IsStored c s v k wrap a (add c s) refl e
