-- ===== src/Broker/Frames.antt =====
-- The requests that arrive on a connection: who is answered, and with what.
use bitmq.Base.{
  ℕ, ◌≡◌, ◌⊎◌, refl, ap, Bool, true, false, Option, none, some, [], ◌∷◌, ◌++◌, Bytes, bytes_key,
  nat_key, Option-cases, inl, inr, Bool-cases,
}
use bitmq.Dict.{find}
use bitmq.Args.{Args}
use bitmq.Queue
use bitmq.Sql.{Engine}
use bitmq.Message.{Wire, BasicProperties}
use bitmq.MessageManager
use bitmq.Host
use bitmq.Proto.{
  Ids, Request, common, open_channel, close_channel, declare_exchange, delete_exchange,
  declare_queue, delete_queue, queue_bind, queue_un_bind, basic_publish, basic_ack, basic_consume,
  basic_cancel, unknown,
}
use bitmq.Channel
use bitmq.Channel.{Channel, Shared, Callback, Conn}
use bitmq.Channel.Publish.{publish-routed}
use bitmq.Broker.{Connection, Server, on_channel, with_channel, on_request, on_message, put_channel}

-- The requests that a channel handles.
abbrev pub is_for_channel : Request → Bool
is_for_channel open_channel = false
is_for_channel close_channel = false
is_for_channel unknown = false
is_for_channel _ = true

module _ {Db : Type 0} (engine : Engine Db) (wire : Wire) (uuid : ℕ → Bytes) where
  -- One answer to the request, on the channel's connection, and the channel keeps its name and place.
  abbrev pub Answers : Ids → Channel → Shared Db → Channel × Shared Db → Type 0
  Answers ids ch s (ch', s') =
      ((ok : Bool) × (s'.sent ≡ s.sent ++ (ch.conn, common ids.rid ids.cid ok) ∷ []))
      × (ch'.cid ≡ ch.cid)
      × (ch'.conn ≡ ch.conn)

  publish-Answers :
      (ids : Ids) (ename body : Bytes) (bp : Option BasicProperties) (ch : Channel) (s : Shared Db)
      → Answers ids ch s (ch, Channel.basic_publish engine wire uuid ids ename body bp ch s)
  publish-Answers ids ename body bp ch s =
      elim (publish-routed engine wire uuid ids ename body bp ch s) [
        | inl (n, e) ↦ ((false, ap (λ x. x.sent) e), refl, refl)
        | inr (ep, f, (se, co, ts)) ↦ ((true, se), refl, refl)
      ]

  consume-Answers :
      (ids : Ids) (tag qname : Bytes) (auto_ack : Bool) (ch : Channel) (s : Shared Db)
      → Answers ids ch s (Channel.basic_consume ids tag qname auto_ack ch s)
  unfolding Channel.basic_consume
  consume-Answers ids tag qname auto_ack ch s = elim (Bool-cases (Host.exists_queue qname s.host)) [
    | inl e ↦ rw (e, Channel.basic_consume) ((true, refl), refl, refl)
    | inr e ↦ rw (e, Channel.basic_consume) ((false, refl), refl, refl)
  ]

  -- What a request on a channel comes to: an abort, for a queue whose message file cannot be made, or
  -- one answer.
  pub Outcome : Ids → Channel → Shared Db → Option (Channel × Shared Db) → Type 0
  Outcome ids ch s r =
      ((r ≡ none)
        × ((name : Bytes) × (MessageManager.init_queue_message wire name s.host.messages s.host.fs
              ≡ none)))
      ⊎ ((r' : Channel × Shared Db) × (r ≡ some r') × Answers ids ch s r')

  declare-Answers :
      (ids : Ids) (name : Bytes) (exclusive durable auto_delete : Bool) (args : Args) (ch : Channel)
      (s : Shared Db)
      → Outcome ids ch s (
          on_channel engine wire uuid ids
            (declare_queue name exclusive durable auto_delete args)
            ch
            s)
  unfolding Outcome on_channel Channel.declare_queue Host.declare_queue
  declare-Answers ids name exclusive durable auto_delete args ch s =
      elim (Option-cases (MessageManager.init_queue_message wire name s.host.messages s.host.fs)) [
        | inl n ↦
            inl (rw (n, on_channel, Channel.declare_queue, Host.declare_queue) refl, (name, n))
        | inr (r, f) ↦
            let m = Host.mqmp (Host.with_mmp r s.host) in
            elim (Bool-cases
              (Queue.declare_queue engine name durable exclusive auto_delete args m).0) [
                | inl t ↦
                    rw (f, on_channel, Channel.declare_queue, Host.declare_queue)
                      (rw t (inr (_, refl, ((true, refl), refl, refl))))
                | inr t ↦
                    rw (f, on_channel, Channel.declare_queue, Host.declare_queue)
                      (rw t (inr (_, refl, ((false, refl), refl, refl))))
              ]
      ]

  on_channel-Outcome :
      (ids : Ids) (req : Request) (ch : Channel) (s : Shared Db)
      → is_for_channel req ≡ true
      → Outcome ids ch s (on_channel engine wire uuid ids req ch s)
  unfolding on_channel Outcome Channel.declare_exchange Channel.delete_exchange Channel.delete_queue
      Channel.queue_bind Channel.queue_un_bind Channel.basic_ack Channel.basic_cancel
  on_channel-Outcome ids open_channel ch s h = cc
  on_channel-Outcome ids close_channel ch s h = cc
  on_channel-Outcome ids unknown ch s h = cc
  on_channel-Outcome ids (declare_exchange name type durable auto_delete args) ch s h =
      inr (_, refl, ((_, refl), refl, refl))
  on_channel-Outcome ids (delete_exchange name) ch s h = inr (_, refl, ((true, refl), refl, refl))
  on_channel-Outcome ids (declare_queue name exclusive durable auto_delete args) ch s h =
      declare-Answers ids name exclusive durable auto_delete args ch s
  on_channel-Outcome ids (delete_queue name) ch s h = inr (_, refl, ((true, refl), refl, refl))
  on_channel-Outcome ids (queue_bind ename qname key) ch s h =
      inr (_, refl, ((_, refl), refl, refl))
  on_channel-Outcome ids (queue_un_bind ename qname) ch s h =
      inr (_, refl, ((true, refl), refl, refl))
  on_channel-Outcome ids (basic_publish ename body bp) ch s h =
      inr (_, refl, publish-Answers ids ename body bp ch s)
  on_channel-Outcome ids (basic_ack qname msgid) ch s h = inr (_, refl, ((true, refl), refl, refl))
  on_channel-Outcome ids (basic_consume tag qname auto_ack) ch s h =
      inr (_, refl, consume-Answers ids tag qname auto_ack ch s)
  on_channel-Outcome ids (basic_cancel tag qname) ch s h = inr (_, refl, ((true, refl), refl, refl))

  -- What a request on a channel comes to for the whole server.
  unfoldable pub Served : Conn → Ids → Channel → Server Db → Option (Server Db) → Type 0
  Served conn ids ch srv r =
      ((r ≡ none)
        × ((name : Bytes) × (MessageManager.init_queue_message wire name srv.shared.host.messages
                srv.shared.host.fs
              ≡ none)))
      ⊎ ((srv' : Server Db) × (r ≡ some srv')
          × ((ok : Bool) × (srv'.shared.sent
                ≡ srv.shared.sent ++ (ch.conn, common ids.rid ids.cid ok) ∷ []))
          × (srv'.shut ≡ srv.shut))

  dispatched :
      (conn : Conn) (ids : Ids) (req : Request) (mconn : Connection) (srv : Server Db)
      → is_for_channel req ≡ true
      → find conn srv.conns ≡ some mconn
      → on_message engine wire uuid conn ids req srv
        ≡ with_channel engine wire uuid conn ids req mconn srv
  unfolding on_message on_request
  dispatched conn ids open_channel mconn srv h f = cc
  dispatched conn ids close_channel mconn srv h f = cc
  dispatched conn ids unknown mconn srv h f = cc
  dispatched conn ids (declare_exchange name type durable auto_delete args) mconn srv h f =
      rw (f, on_message) refl
  dispatched conn ids (delete_exchange name) mconn srv h f = rw (f, on_message) refl
  dispatched conn ids (declare_queue name exclusive durable auto_delete args) mconn srv h f =
      rw (f, on_message) refl
  dispatched conn ids (delete_queue name) mconn srv h f = rw (f, on_message) refl
  dispatched conn ids (queue_bind ename qname key) mconn srv h f = rw (f, on_message) refl
  dispatched conn ids (queue_un_bind ename qname) mconn srv h f = rw (f, on_message) refl
  dispatched conn ids (basic_publish ename body bp) mconn srv h f = rw (f, on_message) refl
  dispatched conn ids (basic_ack qname msgid) mconn srv h f = rw (f, on_message) refl
  dispatched conn ids (basic_consume tag qname auto_ack) mconn srv h f = rw (f, on_message) refl
  dispatched conn ids (basic_cancel tag qname) mconn srv h f = rw (f, on_message) refl

  -- The server puts the channel and the shared state back.
  answered :
      (conn : Conn) (ids : Ids) (req : Request) (mconn : Connection) (ch : Channel)
      (srv : Server Db)
      → find ids.cid mconn.channels ≡ some ch
      → Outcome ids ch srv.shared (on_channel engine wire uuid ids req ch srv.shared)
      → Served conn ids ch srv (with_channel engine wire uuid conn ids req mconn srv)
  unfolding with_channel Outcome Served
  answered conn ids req mconn ch srv f (inl (n, (name, e))) =
      inl (rw (f, n, with_channel) refl, (name, e))
  answered conn ids req mconn ch srv f (inr (r, e, ((ok, se), k, p))) =
      inr (put_channel conn mconn ids.cid r srv, rw (f, e, with_channel) refl, (ok, se), refl)

  -- A request on a known channel of a known connection is served once: exactly one answer goes out,
  -- to the channel's connection, with the numbers of the request, and no connection is closed; or
  -- the server aborts, which it does only where the message handle of some queue cannot be made.
  pub on_message-Served :
      (conn : Conn) (ids : Ids) (req : Request) (mconn : Connection) (ch : Channel)
      (srv : Server Db)
      → is_for_channel req ≡ true
      → find conn srv.conns ≡ some mconn
      → find ids.cid mconn.channels ≡ some ch
      → Served conn ids ch srv (on_message engine wire uuid conn ids req srv)
  on_message-Served conn ids req mconn ch srv h fc fch =
      rw (dispatched conn ids req mconn srv h fc)
        (answered conn ids req mconn ch srv fch (on_channel-Outcome ids req ch srv.shared h))
