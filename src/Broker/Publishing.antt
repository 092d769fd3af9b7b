-- ===== src/Broker/Publishing.antt =====
-- What a handler that publishes has sent.
use ofm_auth_service.Prelude.{
  String, Option, none, some, [], ◌∷◌, ◌++◌, ◌≡◌, refl, arith, ap, sym, ◌∙◌,
}
use ofm_auth_service.Action.{Env, World, Message, publish}
use ofm_auth_service.Broker.{Handled, handled, publish_last, publish_first, publish_then}

module _ (env : Env) where
  publish_then-handled :
      (r : Option String × World) (k : World → Handled × World) (v : World)
      → publish_then env r k ≡ (handled, v)
      → (u : World) × (r ≡ (none, u)) × (k u ≡ (handled, v))
  publish_then-handled (none, u) k v e = (u, refl, e)
  publish_then-handled (some x, u) k v e = absurd (cc e)

  -- A publication that reports no error has sent its message and nothing else.
  pub publish-eq-none :
      (msg : Message) (w u : World)
      → publish env msg w ≡ (none, u)
      → (u.sent ≡ w.sent ++ msg ∷ []) × (u.db ≡ w.db)
  unfolding publish
  publish-eq-none msg w u e = ground arith

  pub publish_last-handled :
      (msg : Message) (w v : World)
      → publish_last env msg w ≡ (handled, v)
      → (v.sent ≡ w.sent ++ msg ∷ []) × (v.db ≡ w.db)
  unfolding publish_last
  publish_last-handled msg w v e =
      let (u, q, h) = publish_then-handled (publish env msg w) _ v e in
      let (sent, same) = publish-eq-none msg w u q in
      (
        ap (λ (r : Handled × World). r.1.sent) (sym h) ∙ sent,
        ap (λ (r : Handled × World). r.1.db) (sym h) ∙ same,
      )

  pub publish_first-handled :
      (msg : Message) (k : World → Handled × World) (w v : World)
      → publish_first env msg k w ≡ (handled, v)
      → (u : World) × (u.sent ≡ w.sent ++ msg ∷ []) × (u.db ≡ w.db) × (k u ≡ (handled, v))
  unfolding publish_first
  publish_first-handled msg k w v e =
      let (u, q, h) = publish_then-handled (publish env msg w) k v e in
      let (sent, same) = publish-eq-none msg w u q in (u, sent, same, h)
