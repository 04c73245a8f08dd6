-- ===== src/Client/Connecting.antt =====
-- The moment at which the connection is there.
use bitmq.Base.{
  ℕ, suc, ◌≡◌, refl, ◌∙◌, true, Option, none, some, [], ◌∷◌, ◌++◌, take, length, Bytes,
  if◌then◌else◌, nat_eq_iff, arith,
}
use bitmq.Proto
use bitmq.Client.{Ptr, Conn, BasicResponse, Client, crashes, waits, and_then}
use bitmq.Client.Operations
use bitmq.Client.Operations.{ask, send_request}
use bitmq.Client.Answers.{after_request}
use bitmq.Client.Connection.{count_down, run_all, on_connection, create, open_channel}

module _ {C : Type 0} (uuid : ℕ → Bytes) where
  created-conn : (c : Client C) → ((create uuid c).1.heap (create uuid c).0).conn ≡ c.conn
  unfolding create
  created-conn c = ground (arith, nat_eq_iff c.next c.next)

  null-open_channel : (c : Client C) → c.conn ≡ none → open_channel uuid c ≡ crashes
  unfolding open_channel create Operations.open_channel ask send_request and_then
  null-open_channel c n =
      rw
        (
          created-conn c ∙ n,
          open_channel,
          create,
          Operations.open_channel,
          ask,
          send_request,
          and_then,
        )
        refl

  -- The request that opens the channel which is made next goes out, and the call waits for its answer.
  waits-open_channel :
      (conn : Conn) (c : Client C)
      → c.conn ≡ some conn
      → (rest : BasicResponse → Client C → Option Ptr × Client C) × (c' : Client C) × (open_channel
            uuid c
          ≡ waits (uuid (suc c.seq)) rest c')
        × (c'.sent
            ≡ c.sent
              ++ (conn, record { rid = uuid (suc c.seq); cid = uuid c.seq }, Proto.open_channel)
                ∷ [])
  unfolding open_channel create Operations.open_channel ask send_request and_then
  waits-open_channel conn c e = (
    λ resp c1. (if resp.ok then some c.next else none, c1),
    after_request uuid c.next conn Proto.open_channel (create uuid c).1,
    rw
        (
          created-conn c ∙ e,
          open_channel,
          create,
          Operations.open_channel,
          ask,
          send_request,
          and_then,
        )
        refl,
    ground (arith, nat_eq_iff c.next c.next),
  )

  -- `onConnection` opens the latch, on which the constructor waits, before it stores the connection: it has
  -- two statements. After the first one the latch is open, and a thread whose constructor has returned
  -- opens a channel over the null pointer and crashes. After both of them the request for the channel is
  -- sent over this connection, with the new channel's name, and the call waits for its answer.
  pub on_connection-open_channel :
      (conn : Conn) (c : Client C)
      → c.conn ≡ none
      → c.latch ≡ 1
      → let between = run_all (take 1 (on_connection conn true)) c in
        let after = run_all (on_connection conn true) c in
        (length (on_connection {C = C} conn true) ≡ 2)
        × (between.latch ≡ 0)
        × (open_channel uuid between ≡ crashes)
        × (after.latch ≡ 0)
        × ((rest : BasicResponse → Client C → Option Ptr × Client C) × (c' : Client C)
            × (open_channel uuid after ≡ waits (uuid (suc c.seq)) rest c')
            × (c'.sent
                ≡ c.sent
                  ++ (conn, record { rid = uuid (suc c.seq); cid = uuid c.seq }, Proto.open_channel)
                    ∷ []))
  unfolding on_connection
  on_connection-open_channel conn c n l = (
    refl,
    omega (arith, l),
    null-open_channel (count_down c) n,
    omega (arith, l),
    waits-open_channel conn _ refl,
  )
