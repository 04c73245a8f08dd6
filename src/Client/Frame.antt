-- ===== src/Client/Frame.antt =====
-- The handlers that leave the channels of the client alone.
use bitmq.Base.{ℕ, ◌≡◌, refl, Option, some, Bytes, bytes_key, arith}
use bitmq.Proto.{Request}
use bitmq.Client.{Ptr, Conn, ConsumeResponse, Client, consume}
use bitmq.Client.Operations.{send_request}
use bitmq.Client.Connection.{consume_response, run_task, count_down, set_conn}

module _ {C : Type 0} where
  -- The channel objects and the manager are as before.
  pub record SameChannels (c c' : Client C) : Type 0 where
    pub same_heap : c'.heap ≡ c.heap
    pub same_channels : c'.channels ≡ c.channels
    pub same_next : c'.next ≡ c.next

  pub consume_response-SameChannels :
      (message : ConsumeResponse) (c c' : Client C)
      → consume_response message c ≡ some c'
      → SameChannels c c'
  unfolding consume_response
  consume_response-SameChannels message c c' h = ground arith

  pub run_task-SameChannels : (c : Client C) → SameChannels c (run_task c)
  unfolding run_task consume
  run_task-SameChannels c = ground arith

  pub count_down-SameChannels : (c : Client C) → SameChannels c (count_down c)
  count_down-SameChannels c = record { same_heap = refl; same_channels = refl; same_next = refl }

  pub set_conn-SameChannels : (conn : Option Conn) (c : Client C) → SameChannels c (set_conn conn c)
  set_conn-SameChannels conn c = record { same_heap = refl; same_channels = refl; same_next = refl }

module _ {C : Type 0} (uuid : ℕ → Bytes) where
  pub send_request-SameChannels :
      (q : Ptr) (req : Request) (rid : Bytes) (c c' : Client C)
      → send_request uuid q req c ≡ some (rid, c')
      → SameChannels c c'
  unfolding send_request
  send_request-SameChannels q req rid c c' h = ground arith
