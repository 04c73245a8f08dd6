-- ===== src/Client/Others.antt =====
-- What else can happen to a client while one of its calls waits for its response: the connection's thread,
-- the threads of the pool and the user's other threads go on.
use bitmq.Base.{ℕ, ◌<◌, ◌≡◌, ◌≢◌, Option, some, Bytes, bytes_key}
use bitmq.Dict.{find}
use bitmq.Proto.{Request}
use bitmq.Client.{Ptr, Conn, BasicResponse, ConsumeResponse, Consumer, Client, wait_response}
use bitmq.Client.Operations.{set_consumer, send_request}
use bitmq.Client.Connection.{
  remove, basic_response, consume_response, run_task, on_unknown_message, count_down, set_conn,
  create,
}

module _ {C : Type 0} where
  -- The manager has the channel at `p` under `cid`, and what has arrived there for `rid` is `r`.
  pub record Awaits (p : Ptr) (rid cid : Bytes) (r : Option BasicResponse) (c : Client C)
      : Type 0 where
    pub known : find cid c.channels ≡ some p
    pub old : p < c.next
    pub arrived : find rid (c.heap p).basic_resp ≡ r

module _ {C : Type 0} (uuid : ℕ → Bytes) where
  -- A step that is not the answer to `rid`, nor the removal of `cid`: a response or a delivery arrives, a
  -- thread of the pool runs a task, the latch goes down, the connection changes, or another call sends its request, takes its
  -- response, subscribes, unsubscribes, makes a channel or removes one.
  pub data Other (rid cid : Bytes) (c : Client C) : Client C → Type 0 where
    answered : (resp : BasicResponse) → resp.rid ≢ rid → Other rid cid c (basic_response resp c)
    delivered :
        (message : ConsumeResponse) (c' : Client C)
        → consume_response message c ≡ some c'
        → Other rid cid c c'
    worked : Other rid cid c (run_task c)
    counted : Other rid cid c (count_down c)
    connected : (conn : Option Conn) → Other rid cid c (set_conn conn c)
    unknown : (conn : Conn) → Other rid cid c (on_unknown_message conn c)
    asked :
        (q : Ptr) (req : Request) (rid' : Bytes) (c' : Client C)
        → send_request uuid q req c ≡ some (rid', c')
        → Other rid cid c c'
    taken :
        (q : Ptr) (rid' : Bytes) (resp : BasicResponse) (c' : Client C)
        → rid' ≢ rid
        → wait_response q rid' c ≡ some (resp, c')
        → Other rid cid c c'
    subscribed :
        (q : Ptr) (consumer : Option (Consumer C)) → Other rid cid c (set_consumer q consumer c)
    created : Other rid cid c (create uuid c).1
    removed : (cid' : Bytes) → cid' ≢ cid → Other rid cid c (remove cid' c)

  -- Any number of such steps.
  pub data Others (rid cid : Bytes) (c : Client C) : Client C → Type 0 where
    none_yet : Others rid cid c c
    one_more :
        (c' c'' : Client C) → Others rid cid c c' → Other rid cid c' c'' → Others rid cid c c''
