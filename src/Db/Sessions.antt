-- ===== src/Db/Sessions.antt =====
-- The table of refresh tokens as a map from hashes to sessions: who may come back, and until when.
use ofm_auth_service.Prelude.{
  String, Bool, true, false, Option, none, some, List, [], ◌∷◌, ◌≡◌, arith, if◌then◌else◌, is_none,
  exists_row, update_rows, select, All, eq_iff, subst, inl, inr, if-eq, eq_refl,
}
use ofm_auth_service.Prelude.Rows.{Unique}
use ofm_auth_service.Prelude.Text.{◌==◌}
use ofm_auth_service.Domain.{Time}
use ofm_auth_service.Db.{RefreshTokenRow, Db, Postgres}
use ofm_auth_service.Db.Statements.{has_hash, is_live_token, mark_revoked}
use ofm_auth_service.Db.Tokens.{is_unrevoked}
use ofm_auth_service.Prelude.Int.{ltb_ℤ}

-- A user and a time of expiry.
abbrev pub Session : Type 0
Session = String × Time

abbrev pub Sessions : Type 0
Sessions = String → Option Session

-- The session of a hash: the first token with the hash that is not revoked.
unfoldable pub find_session : String → List RefreshTokenRow → Option Session
find_session hash [] = none
find_session hash (t ∷ ts) =
    if is_unrevoked hash t then some (t.user_id, t.expires_at) else find_session hash ts

abbrev pub sessions : Db → Sessions
sessions db hash = find_session hash db.refresh_tokens

-- A map, changed at one hash.
abbrev pub update : Sessions → String → Option Session → Sessions
update s key value hash = if key == hash then value else s hash

-- A session that is open at the time now, under a new key and with a new end: its user, and the
-- sessions.
unfoldable pub renew : Time → String → String → Time → Sessions → Option (String × Sessions)
renew now old new until s = renewed (s old)
  where
    renewed : Option Session → Option (String × Sessions)
    renewed none = none
    renewed (some (user, end)) =
        if ltb_ℤ now end
        then some (user, update (update s old none) new (some (user, until)))
        else none

-- The end of a session that is open at the time now.
unfoldable pub close : Time → String → Sessions → Option Sessions
close now old s = closed (s old)
  where
    closed : Option Session → Option Sessions
    closed none = none
    closed (some (user, end)) = if ltb_ℤ now end then some (update s old none) else none

-- No row but t has the hash.
abbrev pub IsOnly : String → RefreshTokenRow → List RefreshTokenRow → Type 0
IsOnly hash t ts = select (has_hash hash) ts ≡ t ∷ []

selected_fails :
    (p q : RefreshTokenRow → Bool) (t : RefreshTokenRow) (ts : List RefreshTokenRow)
    → select p ts ≡ t ∷ []
    → exists_row q ts ≡ false
    → q t ≡ false
unfolding select exists_row
selected_fails p q t [] e h = cc
selected_fails p q t (x ∷ xs) e h = ground (arith, selected_fails p q t xs)

none_selected :
    (p q : RefreshTokenRow → Bool) (ts : List RefreshTokenRow)
    → select p ts ≡ []
    → exists_row q ts ≡ false
    → All (λ x. q x ≡ p x) ts
unfolding select exists_row
none_selected p q [] e h = tt
none_selected p q (x ∷ xs) e h = ground (arith, none_selected p q xs)

-- The rows with the identifier of the only row with the hash are those with the hash.
pub named_alike :
    (hash : String) (t : RefreshTokenRow) (ts : List RefreshTokenRow)
    → Unique (λ (x : RefreshTokenRow). x.refresh_token_id) ts
    → IsOnly hash t ts
    → All (λ x. (x.refresh_token_id == t.refresh_token_id) ≡ has_hash hash x) ts
unfolding select exists_row
named_alike hash t [] u e = tt
named_alike hash t (x ∷ xs) u e =
    elim (if-eq (has_hash hash x) (x ∷ select (has_hash hash) xs) (select (has_hash hash) xs) e) [
      | inl (found, last) ↦
          let same : x ≡ t = ground arith in
          let rest : select (has_hash hash) xs ≡ [] = ground arith in
          (
            ground (arith, eq_refl x.refresh_token_id),
            subst (λ y. All (λ z. (z.refresh_token_id == y.refresh_token_id) ≡ has_hash hash z) xs)
                same
                (none_selected (has_hash hash) (λ y. y.refresh_token_id == x.refresh_token_id) xs
                  rest u.0),
          )
      | inr (other, rest) ↦ (
        ground (
          arith,
          selected_fails (has_hash hash) (λ y. y.refresh_token_id == x.refresh_token_id) t xs rest
              u.0,
          eq_iff t.refresh_token_id x.refresh_token_id,
          eq_iff x.refresh_token_id t.refresh_token_id,
        ),
        named_alike hash t xs u.1 rest,
      )
    ]

pub find_session-revoke :
    (pg : Postgres) (hash id : String) (now : Time) (other : String) (ts : List RefreshTokenRow)
    → All (λ x. (x.refresh_token_id == id) ≡ has_hash hash x) ts
    → find_session other (update_rows (is_live_token id) (mark_revoked pg now) ts)
      ≡ (if hash == other then none else find_session other ts)
unfolding find_session update_rows
find_session-revoke pg hash id now other [] h = ground arith
find_session-revoke pg hash id now other (t ∷ ts) h = ground (
  arith,
  find_session-revoke pg hash id now other ts h.1,
  eq_iff t.token_hash hash,
  eq_iff hash other,
  eq_iff t.token_hash other,
)

-- The only row with the hash is its session, if it is not revoked.
pub find_session-IsOnly :
    (hash : String) (t : RefreshTokenRow) (ts : List RefreshTokenRow)
    → IsOnly hash t ts
    → is_none t.revoked_at ≡ true
    → find_session hash ts ≡ some (t.user_id, t.expires_at)
unfolding find_session select
find_session-IsOnly hash t [] e r = cc
find_session-IsOnly hash t (x ∷ xs) e r = ground (arith, find_session-IsOnly hash t xs)
