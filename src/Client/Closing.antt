-- ===== src/Client/Closing.antt =====
-- A channel that was closed and then destroyed.
use bitmq.Base.{
  ℕ, suc, ◌≡◌, ◌≢◌, refl, sym, ap, ◌∙◌, Bool, true, none, some, Bytes, bytes_key, bytes_eq_iff,
  nat_eq, nat_eq_iff, arith, Option-cases, Bool-cases, inl, inr, subst,
}
use bitmq.Dict.{Dict, find, emplace, erase, find-emplace, find-erase}
use bitmq.Proto
use bitmq.Proto.{Response, common, push}
use bitmq.Client.{
  Void, Ptr, Conn, BasicResponse, Consumer, Client, waits, put_basic_response, wait_response,
  finish, and_then,
}
use bitmq.Client.Operations
use bitmq.Client.Operations.{ask, send_request, destroy, basic_cancel, then_reset}
use bitmq.Client.Connection.{remove, close_channel, on_message, consume_response, basic_response}
use bitmq.Client.Frame.{consume_response-SameChannels}
use bitmq.Client.Others.{Awaits}
use bitmq.Client.Waiting.{answer-Awaits}
use bitmq.Client.Answers.{answer, settle, after_request, ask-Awaits, Awaits-finish}

gone_too :
    (rid first : Bytes) (resp : BasicResponse) (m : Dict Bytes BasicResponse)
    → find rid m ≡ none
    → find rid (erase first (emplace first resp m)) ≡ none
gone_too rid first resp m n =
    ground (arith, n, find-erase first rid (emplace first resp m), find-emplace first rid resp m)

module _ {C : Type 0} where
  -- What the connection's thread reads from then on, whatever the server sends.
  pub data Received (c : Client C) : Client C → Type 0 where
    nothing : Received c c
    one_more :
        (resp : Response) (c' c'' : Client C)
        → Received c c'
        → on_message resp c' ≡ some c''
        → Received c c''

  -- No name leads to the channel at `p`, and nothing has arrived there for `rid`.
  record IsLost (p : Ptr) (rid : Bytes) (c : Client C) : Type 0 where
    unknown : (cid : Bytes) → find cid c.channels ≢ some p
    absent : find rid (c.heap p).basic_resp ≡ none

  basic_response-IsLost :
      (p : Ptr) (rid : Bytes) (resp : BasicResponse) (c : Client C)
      → IsLost p rid c
      → IsLost p rid (basic_response resp c)
  unfolding basic_response put_basic_response
  basic_response-IsLost p rid resp c l = elim (Option-cases (find resp.cid c.channels)) [
    | inl e ↦ rw (e, basic_response) l
    | inr (q, e) ↦
        rw (e, basic_response)
          (record {
            unknown = l.unknown;
            absent = elim (Bool-cases (nat_eq p q)) [
              | inl t ↦ elim (l.unknown resp.cid (e ∙ ap some (sym ((nat_eq_iff p q).0 t)))) [ ]
              | inr f ↦ rw f l.absent
            ];
          })
  ]

  on_message-IsLost :
      (p : Ptr) (rid : Bytes) (resp : Response) (c c' : Client C)
      → on_message resp c ≡ some c'
      → IsLost p rid c
      → IsLost p rid c'
  unfolding on_message consume_response
  on_message-IsLost p rid (common rid' cid ok) c c' h l =
      let resp : BasicResponse = record { rid = rid'; cid = cid; ok = ok } in
      let same : basic_response resp c ≡ c' = cc in
      subst (λ x. IsLost p rid x) same (basic_response-IsLost p rid resp c l)
  on_message-IsLost p rid (push cid tag body properties) c c' h l =
      let s =
        consume_response-SameChannels
          (record { cid = cid; consumer_tag = tag; body = body; properties = properties }) c c' h in
      record {
        unknown = λ cid' f. l.unknown cid' (ap (λ m. find cid' m) (sym s.same_channels) ∙ f);
        absent = ap (λ m. find rid (m p).basic_resp) s.same_heap ∙ l.absent;
      }

  Received-IsLost :
      (p : Ptr) (rid : Bytes) (c c' : Client C) → Received c c' → IsLost p rid c → IsLost p rid c'
  Received-IsLost p rid c c' nothing l = l
  Received-IsLost p rid c c'' (one_more resp c1 c2 r h) l =
      on_message-IsLost p rid resp c1 c'' h (Received-IsLost p rid c c1 r l)

  removed-IsLost :
      (p : Ptr) (rid cid : Bytes) (c : Client C)
      → ((cid' : Bytes) → find cid' c.channels ≡ some p → cid' ≡ cid)
      → find rid (c.heap p).basic_resp ≡ none
      → IsLost p rid (remove cid c)
  removed-IsLost p rid cid c own n = record {
    unknown = λ cid' f.
        ground (arith, f, own cid', find-erase cid cid' c.channels, bytes_eq_iff cid cid');
    absent = n;
  }

  -- A response that arrives and is taken leaves the channel as it was, without what came under its rid.
  answered_channel :
      (p : Ptr) (resp : BasicResponse) (c : Client C)
      → find resp.cid c.channels ≡ some p
      → let c' = settle p resp.rid (basic_response resp c) in
        (c'.heap p ≡ record (c.heap p) {
          basic_resp = erase resp.rid (emplace resp.rid resp (c.heap p).basic_resp);
        })
        × (c'.channels ≡ c.channels)
        × (c'.seq ≡ c.seq)
  unfolding basic_response put_basic_response
  answered_channel p resp c f =
      let e : nat_eq p p ≡ true = (nat_eq_iff p p).1 refl in
      rw (f, basic_response) (rw e (refl, refl, refl))

module _ {C : Type 0} (uuid : ℕ → Bytes) where
  -- The client when `closeChannel` of the channel at `p` has sent its request, when the answer has come, and
  -- when the call has returned.
  abbrev pub closing : Ptr → Conn → Client C → Client C
  closing p conn c = after_request uuid p conn Proto.close_channel c

  abbrev pub answered : Ptr → Conn → Bool → Client C → Client C
  answered p conn ok c = basic_response (answer (uuid c.seq) (c.heap p).cid ok) (closing p conn c)

  abbrev pub closed : Ptr → Conn → Bool → Client C → Client C
  closed p conn ok c = remove (c.heap p).cid (settle p (uuid c.seq) (answered p conn ok c))

  abbrev pub cancelling : Ptr → Conn → Bool → Consumer C → Client C → Client C
  cancelling p conn ok k c =
      after_request uuid p conn (Proto.basic_cancel k.tag k.qname) (closed p conn ok c)

  abbrev then_removed : Ptr → BasicResponse → Client C → Void × Client C
  then_removed p resp c = (tt, remove (c.heap p).cid c)

  closed_call :
      (p : Ptr) (conn : Conn) (ok : Bool) (c : Client C)
      → (c.heap p).conn ≡ some conn
      → Awaits p (uuid c.seq) (c.heap p).cid none c
      → (close_channel uuid p c ≡ waits (uuid c.seq) (then_removed p) (closing p conn c))
        × (finish p (uuid c.seq) (then_removed p) (answered p conn ok c)
            ≡ some (tt, closed p conn ok c))
  unfolding close_channel Operations.close_channel and_then ask send_request
  closed_call p conn ok c f a =
      let (asked, a') = ask-Awaits uuid p conn Proto.close_channel (then_removed p) c f a in
      let resp = answer (uuid c.seq) (c.heap p).cid ok in
      let (same, names, seq) = answered_channel p resp (closing p conn c) a'.known in
      (
        rw (f, close_channel, Operations.close_channel, ask, send_request, and_then) refl,
        Awaits-finish p (uuid c.seq) (c.heap p).cid (then_removed p) resp (answered p conn ok c)
              (answer-Awaits uuid p (uuid c.seq) (c.heap p).cid ok (closing p conn c) a')
            ∙ ap (λ ch. some (tt, remove ch.cid (settle p (uuid c.seq) (answered p conn ok c))))
                same,
      )

  destroy_call :
      (p : Ptr) (conn : Conn) (k : Consumer C) (c : Client C)
      → (c.heap p).consumer ≡ some k
      → (c.heap p).conn ≡ some conn
      → destroy uuid p c
        ≡ waits
            (uuid c.seq)
            (then_reset p)
            (after_request uuid p conn (Proto.basic_cancel k.tag k.qname) c)
  unfolding destroy basic_cancel ask send_request
  destroy_call p conn k c e f = rw (e, basic_cancel) (rw (f, ask, send_request) refl)

  -- `closeChannel` on a channel that has a consumer sends its request, and when the answer has come it
  -- returns, and the manager has forgotten the channel's name. Then the user gives up the channel: its
  -- destructor sends a cancellation and waits for the answer. Where the manager had the channel under its
  -- own name only, and nothing lies in the channel for that wait, it does not end, whatever the server sends
  -- from then on.
  pub closed-destroy :
      (p : Ptr) (conn : Conn) (ok : Bool) (k : Consumer C) (c after : Client C)
      → ((cid : Bytes) → find cid c.channels ≡ some p → cid ≡ (c.heap p).cid)
      → (c.heap p).consumer ≡ some k
      → (c.heap p).conn ≡ some conn
      → Awaits p (uuid c.seq) (c.heap p).cid none c
      → find (uuid (suc c.seq)) (c.heap p).basic_resp ≡ none
      → Received (cancelling p conn ok k c) after
      → ((rest : BasicResponse → Client C → Void × Client C) × (close_channel uuid p c
            ≡ waits (uuid c.seq) rest (closing p conn c))
          × (finish p (uuid c.seq) rest (answered p conn ok c) ≡ some (tt, closed p conn ok c)))
        × (destroy uuid p (closed p conn ok c)
            ≡ waits (uuid (closed p conn ok c).seq) (then_reset p) (cancelling p conn ok k c))
        × (finish p (uuid (closed p conn ok c).seq) (then_reset p) after ≡ none)
  unfolding finish wait_response
  closed-destroy p conn ok k c after own e f a n r =
      let rid = uuid (closed p conn ok c).seq in
      let resp = answer (uuid c.seq) (c.heap p).cid ok in
      let (same, names, seq) = answered_channel p resp (closing p conn c) a.known in
      let absent : find rid ((closed p conn ok c).heap p).basic_resp ≡ none =
        ap (λ ch. find rid ch.basic_resp) same
        ∙ gone_too rid (uuid c.seq) resp (c.heap p).basic_resp
            (ap (λ x. find (uuid x) (c.heap p).basic_resp) seq ∙ n) in
      let removed =
        removed-IsLost p rid (c.heap p).cid (settle p (uuid c.seq) (answered p conn ok c))
          (λ cid g. own cid (ap (λ m. find cid m) (sym names) ∙ g)) absent in
      let lost =
        Received-IsLost p rid (cancelling p conn ok k c) after r
          (record { unknown = removed.unknown; absent = removed.absent }) in
      let (sends, returns) = closed_call p conn ok c f a in
      (
        (then_removed p, sends, returns),
        destroy_call p conn k (closed p conn ok c) (ap (λ ch. ch.consumer) same ∙ e)
            (ap (λ ch. ch.conn) same ∙ f),
        rw (lost.absent, finish, wait_response) refl,
      )
