-- ===== src/Client/Answers.antt =====
-- Each call of the client gets the answer of its own request, and the answer is the server's.
use bitmq.Base.{
  ℕ, suc, ◌≡◌, ◌⊎◌, refl, Bool, true, none, some, [], ◌∷◌, ◌++◌, Bytes, bytes_key, nat_key,
  bytes_eq_iff, arith, inl, inr,
}
use bitmq.Dict.{find, erase, find-erase}
use bitmq.Sql.{Engine}
use bitmq.Message.{Wire}
use bitmq.MessageManager
use bitmq.Proto.{Ids, Request, common}
use bitmq.Channel.{Channel}
use bitmq.Broker
use bitmq.Broker.{Connection, Server}
use bitmq.Broker.Frames.{is_for_channel, on_message-Served, Served}
use bitmq.Client.{Ptr, Conn, BasicResponse, Client, waits, put, wait_response, finish}
use bitmq.Client.Operations.{ask, send_request}
use bitmq.Client.Connection.{basic_response, on_message, remove}
use bitmq.Client.Others.{Others, none_yet, Awaits}
use bitmq.Client.Waiting.{Others-Awaits, answer-Awaits}

-- The response to a request.
abbrev pub answer : Bytes → Bytes → Bool → BasicResponse
answer rid cid ok = record { rid = rid; cid = cid; ok = ok }

module _ {C : Type 0} where
  -- The response is taken out of the channel.
  abbrev pub settle : Ptr → Bytes → Client C → Client C
  settle p rid c = put p (record (c.heap p) { basic_resp = erase rid (c.heap p).basic_resp }) c

  Awaits-blocked :
      {R : Type 0} (p : Ptr) (rid cid : Bytes) (rest : BasicResponse → Client C → R × Client C)
      (c : Client C)
      → Awaits p rid cid none c
      → finish p rid rest c ≡ none
  unfolding finish wait_response
  Awaits-blocked p rid cid rest c a = rw (a.arrived, finish, wait_response) refl

  pub Awaits-finish :
      {R : Type 0} (p : Ptr) (rid cid : Bytes) (rest : BasicResponse → Client C → R × Client C)
      (resp : BasicResponse) (c : Client C)
      → Awaits p rid cid (some resp) c
      → finish p rid rest c ≡ some (rest resp (settle p rid c))
  unfolding finish wait_response
  Awaits-finish p rid cid rest resp c a = rw (a.arrived, finish, wait_response) refl

module _ {C : Type 0} (uuid : ℕ → Bytes) where
  -- The channel's name is removed before the response arrives.
  removed-blocked :
      {R : Type 0} (p : Ptr) (rid cid : Bytes) (ok : Bool)
      (rest : BasicResponse → Client C → R × Client C) (c : Client C)
      → Awaits p rid cid none c
      → (basic_response (answer rid cid ok) (remove cid c) ≡ remove cid c)
        × (finish p rid rest (remove cid c) ≡ none)
  unfolding basic_response finish wait_response
  removed-blocked p rid cid ok rest c a =
      let gone : find cid (erase cid c.channels) ≡ none =
        ground (arith, find-erase cid cid c.channels, bytes_eq_iff cid cid) in
      (rw (gone, basic_response) refl, rw (a.arrived, finish, wait_response) refl)

  -- A call waits for the response to `rid` on a channel that the manager knows as `cid`. As long as no
  -- response to `rid` arrives, no other call takes one, and `cid` is not removed, the call stays blocked,
  -- whatever else happens, in any order and any number. When the response arrives then, and after any such
  -- steps, the call goes on with exactly that response. If `cid` is removed before the response arrives, as
  -- another `closeChannel` of the same channel does, the response is dropped and the call stays blocked.
  pub finish-answered :
      {R : Type 0} (p : Ptr) (rid cid : Bytes) (ok : Bool)
      (rest : BasicResponse → Client C → R × Client C) (c before after : Client C)
      → Awaits p rid cid none c
      → Others uuid rid cid c before
      → Others uuid rid cid (basic_response (answer rid cid ok) before) after
      → (finish p rid rest before ≡ none)
        × (finish p rid rest after ≡ some (rest (answer rid cid ok) (settle p rid after)))
        × (basic_response (answer rid cid ok) (remove cid before) ≡ remove cid before)
        × (finish p rid rest (remove cid before) ≡ none)
  finish-answered p rid cid ok rest c before after a os os' =
      let waiting = Others-Awaits uuid p rid cid none c before os a in
      let (dropped, blocked) = removed-blocked p rid cid ok rest before waiting in
      (
        Awaits-blocked p rid cid rest before waiting,
        Awaits-finish p rid cid rest (answer rid cid ok) after (
            Others-Awaits uuid p rid cid (some (answer rid cid ok)) _ after os'
              (answer-Awaits uuid p rid cid ok before waiting)),
        dropped,
        blocked,
      )

  -- The state of the client after it has sent a request on the channel at `p`.
  abbrev pub after_request : Ptr → Conn → Request → Client C → Client C
  after_request p conn req c = record c {
    sent = c.sent ++ (conn, record { rid = uuid c.seq; cid = (c.heap p).cid }, req) ∷ [];
    seq = suc c.seq;
  }

  pub ask-Awaits :
      {R : Type 0} (p : Ptr) (conn : Conn) (req : Request)
      (rest : BasicResponse → Client C → R × Client C) (c : Client C)
      → (c.heap p).conn ≡ some conn
      → Awaits p (uuid c.seq) (c.heap p).cid none c
      → (ask uuid p req rest c ≡ waits (uuid c.seq) rest (after_request p conn req c))
        × Awaits p (uuid c.seq) (c.heap p).cid none (after_request p conn req c)
  unfolding ask send_request
  ask-Awaits p conn req rest c e a =
      (rw (e, ask, send_request) refl, record { known = a.known; old = a.old; arrived = a.arrived })

  module _ {Db : Type 0} (engine : Engine Db) (wire : Wire) (server_uuid : ℕ → Bytes) where
    -- What a call of a channel's operation comes to. `sent` is the client's state after it sent the request.
    pub record IsAnswered {R : Type 0} (p : Ptr) (ids : Ids)
        (rest : BasicResponse → Client C → R × Client C) (sent : Client C) (ch : Channel)
        (srv srv' : Server Db) : Type 0 where
      pub ok : Bool
      pub replied : srv'.shared.sent ≡ srv.shared.sent ++ (ch.conn, common ids.rid ids.cid ok) ∷ []
      pub received : Client C
      pub receives : on_message (common ids.rid ids.cid ok) sent ≡ some received
      pub returns :
          finish p ids.rid rest received
          ≡ some (rest (answer ids.rid ids.cid ok) (settle p ids.rid received))

    -- On a channel that the manager knows and the server has open, with a new rid: the call sends one
    -- request, with the channel's cid, and waits. The server that gets this request aborts, which it does
    -- only where the message handle of some queue cannot be made, or it sends one response; and when that
    -- response reaches the client, the call goes on with it.
    pub ask-IsAnswered :
        {R : Type 0} (p : Ptr) (conn : Conn) (req : Request)
        (rest : BasicResponse → Client C → R × Client C) (c : Client C) (mconn : Connection)
        (ch : Channel) (srv : Server Db)
        → is_for_channel req ≡ true
        → (c.heap p).conn ≡ some conn
        → Awaits p (uuid c.seq) (c.heap p).cid none c
        → find conn srv.conns ≡ some mconn
        → find (c.heap p).cid mconn.channels ≡ some ch
        → (c' : Client C) × (ask uuid p req rest c ≡ waits (uuid c.seq) rest c')
          × (c'.sent
              ≡ c.sent ++ (conn, record { rid = uuid c.seq; cid = (c.heap p).cid }, req) ∷ [])
          × (((Broker.on_message engine wire server_uuid conn
                    (record { rid = uuid c.seq; cid = (c.heap p).cid })
                    req
                    srv
                  ≡ none)
                × ((name : Bytes) × (MessageManager.init_queue_message wire name
                        srv.shared.host.messages srv.shared.host.fs
                      ≡ none)))
              ⊎ ((srv' : Server Db) × (Broker.on_message engine wire server_uuid conn
                      (record { rid = uuid c.seq; cid = (c.heap p).cid })
                      req
                      srv
                    ≡ some srv')
                  × IsAnswered p
                      (record { rid = uuid c.seq; cid = (c.heap p).cid })
                      rest
                      c'
                      ch
                      srv
                      srv'))
    unfolding on_message Served
    ask-IsAnswered p conn req rest c mconn ch srv h e a f g =
        let ids : Ids = record { rid = uuid c.seq; cid = (c.heap p).cid } in
        let c' = after_request p conn req c in
        let (asked, a') = ask-Awaits p conn req rest c e a in
        (
          c',
          asked,
          refl,
          elim (on_message-Served engine wire server_uuid conn ids req mconn ch srv h f g) [
            | inl n ↦ inl n
            | inr (srv', served, (ok, replied), shut) ↦ inr (
              srv',
              served,
              record {
                ok = ok;
                replied = replied;
                received = basic_response (answer ids.rid ids.cid ok) c';
                receives = refl;
                returns =
                    (finish-answered p ids.rid ids.cid ok rest c' c'
                      (basic_response (answer ids.rid ids.cid ok) c') a' none_yet none_yet).1;
              },
            )
          ],
        )
