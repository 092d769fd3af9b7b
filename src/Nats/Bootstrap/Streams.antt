-- ===== src/Nats/Bootstrap/Streams.antt =====
-- What EnsureStream leaves on the server.
use ofm_auth_service.Prelude.{
  String, List, [], ◌∷◌, Bool, true, false, Option, none, some, ◌≡◌, ◌≢◌, sym, ap, ◌∙◌, arith,
}
use ofm_auth_service.Prelude.Int.{pos}
use ofm_auth_service.Config.{NatsConfig}
use ofm_auth_service.Nats.Client.{StreamConfig, Client, NatsError, Result, made, try_}
use ofm_auth_service.Nats.Client.Upsert.{Stores, IsStored, try_or-IsStored}
use ofm_auth_service.Nats.Bootstrap.{
  events_stream, saga_stream, mail_stream, connect, add_or_update, ensure_streams, ensure_stream,
}

-- What the server does with streams: it stores what AddStream or UpdateStream accepts, and a stream
-- outlives the connection.
pub record KeepsStreams {S : Type 0} (client : Client S) (stored : String → S → Option StreamConfig)
    : Type 0 where
  pub stores : Stores (λ (c : StreamConfig). c.name) client.add_stream client.update_stream stored
  pub outlives : (n : String) (s : S) → stored n (client.close s) ≡ stored n s

module _ {S : Type 0} (client : Client S) (stored : String → S → Option StreamConfig)
    (server : KeepsStreams client stored) where
  add_or_update-IsStored :
      (c : StreamConfig) (k : S → Result (Unit {0}) × S) (s v : S)
      → add_or_update client c k s ≡ (made tt, v)
      → IsStored (λ (x : StreamConfig). x.name) stored c s k tt v
  unfolding add_or_update
  add_or_update-IsStored c k s v e = try_or-IsStored _ _ _ stored server.stores c s v k _ tt e

  -- The server has a stream of this name for these subjects, in one file that keeps a message for a
  -- week.
  abbrev pub HasStream : String → List String → S → Type 0
  HasStream name subjects s =
      stored name s
      ≡ some (record {
        name = name;
        subjects = subjects;
        storage = "file";
        retention = "limits";
        replicas = 1;
        max_age = pos 604800000000000;
      })

  -- The streams of the events, the mail commands and the saga commands.
  abbrev pub HasStreams : NatsConfig → S → Type 0
  HasStreams cfg s =
      HasStream cfg.auth_events_stream
        (cfg.auth_created_subject ∷ cfg.saga_create_auth_result_subject
          ∷ cfg.saga_delete_auth_result_subject ∷ [])
        s
      × HasStream cfg.mail_commands_stream (cfg.mail_send_subject ∷ []) s
      × HasStream cfg.saga_commands_stream
          (cfg.saga_create_auth_subject ∷ cfg.saga_delete_auth_subject ∷ []) s

  -- The names of the three streams differ.
  abbrev pub HasNames : NatsConfig → Type 0
  HasNames cfg =
      (cfg.auth_events_stream ≢ cfg.mail_commands_stream)
      × (cfg.auth_events_stream ≢ cfg.saga_commands_stream)
      × (cfg.mail_commands_stream ≢ cfg.saga_commands_stream)

  behind_jet_stream :
      (cfg : NatsConfig) (v : S) (wrap : String → NatsError) (r : Option String × S)
      → HasNames cfg
      → try_ r wrap (
          add_or_update client (events_stream cfg) (
            add_or_update client
              (mail_stream cfg)
              (add_or_update client (saga_stream cfg) (λ s'. (made tt, s')))))
        ≡ (made tt, v)
      → HasStreams cfg v
  behind_jet_stream cfg v wrap (some x, s) names e = absurd (cc e)
  behind_jet_stream cfg v wrap (none, s) (em, es, ms) e =
      let (s1, events, _, e1) = add_or_update-IsStored (events_stream cfg) _ s v e in
      let (s2, mail, keep2, e2) = add_or_update-IsStored (mail_stream cfg) _ s1 v e1 in
      let (s3, saga, keep3, e3) = add_or_update-IsStored (saga_stream cfg) _ s2 v e2 in
      let same : s3 ≡ v = ap (λ (x : Result (Unit {0}) × S). x.1) e3 in
      (
        ap (stored cfg.auth_events_stream) (sym same) ∙ keep3 _ es ∙ keep2 _ em ∙ events,
        ap (stored cfg.mail_commands_stream) (sym same) ∙ keep3 _ ms ∙ mail,
        ap (stored cfg.saga_commands_stream) (sym same) ∙ saga,
      )

  ensure_streams-HasStreams :
      (cfg : NatsConfig) (s v : S)
      → HasNames cfg
      → ensure_streams client cfg s ≡ (made tt, v)
      → HasStreams cfg v
  unfolding ensure_streams
  ensure_streams-HasStreams cfg s v names e =
      behind_jet_stream cfg v _ (client.jet_stream s) names e

  behind_connect :
      (cfg : NatsConfig) (v : S) (wrap : String → NatsError) (r : Option String × S)
      → HasNames cfg
      → try_ r wrap (λ s. let (x, t) = ensure_streams client cfg s in (x, client.close t))
        ≡ (made tt, v)
      → HasStreams cfg v
  behind_connect cfg v wrap (some x, s) names e = absurd (cc e)
  behind_connect cfg v wrap (none, s) names e =
      let t = (ensure_streams client cfg s).1 in
      let (events, mail, saga) : HasStreams cfg t =
        ensure_streams-HasStreams cfg s t names (ground (arith, e)) in
      let same : client.close t ≡ v = ap (λ (x : Result (Unit {0}) × S). x.1) e in
      (
        ap (stored cfg.auth_events_stream) (sym same) ∙ server.outlives _ t ∙ events,
        ap (stored cfg.mail_commands_stream) (sym same) ∙ server.outlives _ t ∙ mail,
        ap (stored cfg.saga_commands_stream) (sym same) ∙ server.outlives _ t ∙ saga,
      )

  -- If the server stores a stream that it accepts, leaves streams of other names and keeps them
  -- behind a connection, and if the three names of the configuration differ, then an EnsureStream
  -- that returns no error has left the three streams on the server, each in one file that keeps a
  -- message for a week: the events' with the subjects of the created event and of both results, the
  -- mail commands' with the mail subject, and the saga commands' with the create and the delete
  -- subject.
  pub ensure_stream_stores :
      (has_logger : Bool) (cfg : NatsConfig) (s v : S)
      → HasNames cfg
      → ensure_stream client has_logger cfg s ≡ (made tt, v)
      → HasStreams cfg v
  unfolding ensure_stream connect
  ensure_stream_stores false cfg s v names e = absurd (cc e)
  ensure_stream_stores true cfg s v names e = behind_connect cfg v _ _ names e
