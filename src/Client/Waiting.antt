-- ===== src/Client/Waiting.antt =====
-- A call that waits for its response, while the connection's thread, the threads of the pool and the user's
-- other threads go on.
use bitmq.Base.{
  ℕ, ◌≡◌, ◌≢◌, refl, sym, ap, ◌∙◌, Bool, Option, none, some, Bytes, bytes_key, nat_eq, nat_eq_iff,
  bytes_eq_iff, arith, Option-cases, Bool-cases, inl, inr, subst,
}
use bitmq.Dict.{find, erase, find-emplace, find-erase}
use bitmq.Client.{
  Ptr, BasicResponse, Channel, Client, store, put, put_basic_response, wait_response,
}
use bitmq.Client.Connection.{remove, basic_response, on_unknown_message, create}
use bitmq.Client.Frame.{
  SameChannels, consume_response-SameChannels, run_task-SameChannels, count_down-SameChannels,
  set_conn-SameChannels, send_request-SameChannels,
}
use bitmq.Client.Others.{
  Other, answered, delivered, worked, counted, connected, unknown, asked, taken, subscribed,
  created, removed, Others, none_yet, one_more, Awaits,
}

module _ {C : Type 0} (uuid : ℕ → Bytes) where
  -- Writing a channel that has the same response for `rid` as before.
  find-store :
      (p q : Ptr) (rid : Bytes) (ch : Channel C) (heap : Ptr → Channel C)
      → find rid ch.basic_resp ≡ find rid (heap q).basic_resp
      → find rid (store q ch heap p).basic_resp ≡ find rid (heap p).basic_resp
  find-store p q rid ch heap e = elim (Bool-cases (nat_eq p q)) [
    | inl t ↦
        rw (t, store) (e ∙ ap (λ x. find rid (heap x).basic_resp) (sym ((nat_eq_iff p q).0 t)))
    | inr f ↦ rw (f, store) refl
  ]

  put_basic_response-arrived :
      (p q : Ptr) (rid : Bytes) (resp : BasicResponse) (c : Client C)
      → resp.rid ≢ rid
      → find rid ((put_basic_response q resp c).heap p).basic_resp ≡ find rid (c.heap p).basic_resp
  unfolding put_basic_response
  put_basic_response-arrived p q rid resp c n = find-store p q rid _ c.heap (
      ground
        (arith, bytes_eq_iff resp.rid rid, find-emplace resp.rid rid resp (c.heap q).basic_resp))

  basic_response-Awaits :
      (p : Ptr) (rid cid : Bytes) (r : Option BasicResponse) (resp : BasicResponse) (c : Client C)
      → resp.rid ≢ rid
      → Awaits p rid cid r c
      → Awaits p rid cid r (basic_response resp c)
  unfolding basic_response put_basic_response
  basic_response-Awaits p rid cid r resp c n a = elim (Option-cases (find resp.cid c.channels)) [
    | inl e ↦ rw (e, basic_response) a
    | inr (q, e) ↦
        rw (e, basic_response)
          (record {
            known = a.known;
            old = a.old;
            arrived = put_basic_response-arrived p q rid resp c n ∙ a.arrived;
          })
  ]

  SameChannels-Awaits :
      (p : Ptr) (rid cid : Bytes) (r : Option BasicResponse) (c c' : Client C)
      → SameChannels c c'
      → Awaits p rid cid r c
      → Awaits p rid cid r c'
  SameChannels-Awaits p rid cid r c c' s a = record {
    known = ap (λ m. find cid m) s.same_channels ∙ a.known;
    old = omega (arith, a.old, s.same_next);
    arrived = ap (λ h. find rid (h p).basic_resp) s.same_heap ∙ a.arrived;
  }

  taken-Awaits :
      (p q : Ptr) (rid cid rid' : Bytes) (r : Option BasicResponse) (resp : BasicResponse)
      (c c' : Client C)
      → rid' ≢ rid
      → wait_response q rid' c ≡ some (resp, c')
      → Awaits p rid cid r c
      → Awaits p rid cid r c'
  unfolding wait_response
  taken-Awaits p q rid cid rid' r resp c c' n h a =
      elim (Option-cases (find rid' (c.heap q).basic_resp)) [
        | inl e ↦ ground arith
        | inr (it, e) ↦
            let ch = record (c.heap q) { basic_resp = erase rid' (c.heap q).basic_resp } in
            let same : put q ch c ≡ c' = ground arith in
            subst (λ x. Awaits p rid cid r x) same
              (record {
                known = a.known;
                old = a.old;
                arrived =
                    find-store p q rid ch c.heap (
                      ground
                        (arith, bytes_eq_iff rid' rid, find-erase rid' rid (c.heap q).basic_resp))
                    ∙ a.arrived;
              })
      ]

  created-Awaits :
      (p : Ptr) (rid cid : Bytes) (r : Option BasicResponse) (c : Client C)
      → Awaits p rid cid r c
      → Awaits p rid cid r (create uuid c).1
  unfolding create
  created-Awaits p rid cid r c a = record {
    known = ground (
      arith,
      bytes_eq_iff (uuid c.seq) cid,
      find-emplace (uuid c.seq) cid c.next c.channels,
      a.known,
    );
    old = omega (arith, a.old);
    arrived = ground (arith, nat_eq_iff p c.next, a.old, a.arrived);
  }

  removed-Awaits :
      (p : Ptr) (rid cid cid' : Bytes) (r : Option BasicResponse) (c : Client C)
      → cid' ≢ cid
      → Awaits p rid cid r c
      → Awaits p rid cid r (remove cid' c)
  removed-Awaits p rid cid cid' r c n a = record {
    known = ground (arith, bytes_eq_iff cid' cid, find-erase cid' cid c.channels, a.known);
    old = a.old;
    arrived = a.arrived;
  }

  Other-Awaits :
      (p : Ptr) (rid cid : Bytes) (r : Option BasicResponse) (c c' : Client C)
      → Other uuid rid cid c c'
      → Awaits p rid cid r c
      → Awaits p rid cid r c'
  unfolding on_unknown_message
  Other-Awaits p rid cid r c c' (answered resp n) a = basic_response-Awaits p rid cid r resp c n a
  Other-Awaits p rid cid r c c' (delivered message _ h) a =
      SameChannels-Awaits p rid cid r c c' (consume_response-SameChannels message c c' h) a
  Other-Awaits p rid cid r c c' worked a =
      SameChannels-Awaits p rid cid r c c' (run_task-SameChannels c) a
  Other-Awaits p rid cid r c c' counted a =
      SameChannels-Awaits p rid cid r c c' (count_down-SameChannels c) a
  Other-Awaits p rid cid r c c' (connected conn) a =
      SameChannels-Awaits p rid cid r c c' (set_conn-SameChannels conn c) a
  Other-Awaits p rid cid r c c' (unknown conn) a = record {
    known = a.known;
    old = a.old;
    arrived = a.arrived;
  }
  Other-Awaits p rid cid r c c' (asked q req rid' _ h) a =
      SameChannels-Awaits p rid cid r c c' (send_request-SameChannels uuid q req rid' c c' h) a
  Other-Awaits p rid cid r c c' (taken q rid' resp _ n h) a =
      taken-Awaits p q rid cid rid' r resp c c' n h a
  Other-Awaits p rid cid r c c' (subscribed q consumer) a = record {
    known = a.known;
    old = a.old;
    arrived =
        find-store p q rid (record (c.heap q) { consumer = consumer }) c.heap refl ∙ a.arrived;
  }
  Other-Awaits p rid cid r c c' created a = created-Awaits p rid cid r c a
  Other-Awaits p rid cid r c c' (removed cid' n) a = removed-Awaits p rid cid cid' r c n a

  pub Others-Awaits :
      (p : Ptr) (rid cid : Bytes) (r : Option BasicResponse) (c c' : Client C)
      → Others uuid rid cid c c'
      → Awaits p rid cid r c
      → Awaits p rid cid r c'
  Others-Awaits p rid cid r c c' none_yet a = a
  Others-Awaits p rid cid r c c'' (one_more c1 c2 os o) a =
      Other-Awaits p rid cid r c1 c'' o (Others-Awaits p rid cid r c c1 os a)

  -- The answer arrives.
  pub answer-Awaits :
      (p : Ptr) (rid cid : Bytes) (ok : Bool) (c : Client C)
      → Awaits p rid cid none c
      → Awaits p rid cid
          (some (record { rid = rid; cid = cid; ok = ok }))
          (basic_response (record { rid = rid; cid = cid; ok = ok }) c)
  unfolding basic_response put_basic_response
  answer-Awaits p rid cid ok c a =
      let resp : BasicResponse = record { rid = rid; cid = cid; ok = ok } in
      rw (a.known, basic_response)
        (record {
          known = a.known;
          old = a.old;
          arrived = ground (
            arith,
            nat_eq_iff p p,
            bytes_eq_iff rid rid,
            find-emplace rid rid resp (c.heap p).basic_resp,
            a.arrived,
          );
        })
