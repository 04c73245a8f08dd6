-- ===== src/Binding/Manager.antt =====
-- The operations of `BindingManager` seen through `getBinding`.
use bitmq.Base.{
  ◌≡◌, Bool, true, false, ◌&&◌, ◌||◌, not, Option, none, some, List, [], ◌∷◌, arith, Bytes,
  bytes_key, ◌==◌, if◌then◌else◌, Option-cases, inl, inr,
}
use bitmq.Dict.{kept}
use bitmq.Sql.{Engine, Row, exec}
use bitmq.Binding.{
  Binding, BindingMap, BindingManager, lookup, get_binding, bind, un_bind, add_binding,
  remove_exchange_bindings, remove_msg_queue_bindings, fold_rows, select_callback, recovery, insert,
  clear, select_sql, insert_sql,
}
use bitmq.Binding.Laws.{lookup-add_binding, lookup-drop_binding, lookup-drop_queue, lookup-erase}
use bitmq.Binding.Tidy.{
  IsTidy, add_binding-IsTidy, drop_binding-IsTidy, drop_queue-IsTidy, erase-IsTidy,
}

abbrev pub is_bound : Option Binding → Bool
is_bound none = false
is_bound (some bp) = true

module _ {Db : Type 0} (engine : Engine Db) where
  -- A binding is accepted where its pair is bound, or it is not durable, or the database takes the statement.
  abbrev pub accepts : Binding → Bool → BindingManager Db → Bool
  accepts bp durable m =
      is_bound (get_binding bp.exchange_name bp.msgqueue_name m)
      || (not durable || (exec engine (insert_sql bp) m.db).0)

  abbrev pub asked : Binding → Bool → BindingManager Db → Db
  asked bp durable m =
      if is_bound (get_binding bp.exchange_name bp.msgqueue_name m) || not durable
      then m.db
      else (exec engine (insert_sql bp) m.db).2

  bind-accepts :
      (bp : Binding) (durable : Bool) (m : BindingManager Db)
      → let r = bind engine bp.exchange_name bp.msgqueue_name bp.binding_key durable m in
        (r.0 ≡ accepts bp durable m) × (r.1.db ≡ asked bp durable m)
  unfolding bind get_binding insert
  bind-accepts bp durable m = ground arith

  pub bound-get_binding :
      (e q key : Bytes) (durable : Bool) (m : BindingManager Db) (e' q' : Bytes)
      → get_binding e' q' (bind engine e q key durable m).1 ≡ (
          if (bind engine e q key durable m).0 && (e == e' && q == q')
          then kept
              (get_binding e q m)
              (record { exchange_name = e; msgqueue_name = q; binding_key = key })
          else get_binding e' q' m)
  unfolding bind get_binding
  bound-get_binding e q key durable m e' q' =
      let bp : Binding = record { exchange_name = e; msgqueue_name = q; binding_key = key } in
      ground (
        arith,
        bytes_key.same_iff e e',
        bytes_key.same_iff q q',
        lookup-add_binding e q e' q' bp m.bindings,
      )

  -- Binding succeeds exactly where the pair is bound, or the binding is not durable, or the database takes
  -- the statement that stores it; this statement, and no other one, is run where the pair is not bound and
  -- the binding durable. If the call succeeds, the pair has the binding that it had before or else the new
  -- one; if it fails, and for every other pair, nothing changes in memory.
  pub bind-get_binding :
      (bp : Binding) (durable : Bool) (m : BindingManager Db) (e' q' : Bytes)
      → let r = bind engine bp.exchange_name bp.msgqueue_name bp.binding_key durable m in
        (r.0 ≡ accepts bp durable m)
        × (r.1.db ≡ asked bp durable m)
        × (get_binding e' q' r.1 ≡ (
            if r.0 && (bp.exchange_name == e' && bp.msgqueue_name == q')
            then kept (get_binding bp.exchange_name bp.msgqueue_name m) bp
            else get_binding e' q' m))
  bind-get_binding bp durable m e' q' =
      let (answer, db) = bind-accepts bp durable m in
      (
        answer,
        db,
        bound-get_binding bp.exchange_name bp.msgqueue_name bp.binding_key durable m e' q',
      )

  -- Unbinding takes the binding of that pair away and no other one.
  pub un_bind-get_binding :
      (e q : Bytes) (m : BindingManager Db) (e' q' : Bytes)
      → get_binding e' q' (un_bind engine e q m)
        ≡ (if e == e' && q == q' then none else get_binding e' q' m)
  unfolding un_bind get_binding
  un_bind-get_binding e q m e' q' = ground (
    arith,
    bytes_key.same_iff e e',
    bytes_key.same_iff q q',
    lookup-drop_binding e q e' q' m.bindings,
  )

  -- Removing an exchange's bindings takes those and no other one.
  pub remove_exchange_bindings-get_binding :
      (e : Bytes) (m : BindingManager Db) (e' q' : Bytes)
      → get_binding e' q' (remove_exchange_bindings engine e m)
        ≡ (if e == e' then none else get_binding e' q' m)
  unfolding remove_exchange_bindings get_binding
  remove_exchange_bindings-get_binding e m e' q' = lookup-erase e e' q' m.bindings

  -- Removing a queue's bindings from a tidy map takes those, of every exchange, and no other one.
  pub remove_msg_queue_bindings-get_binding :
      (q : Bytes) (m : BindingManager Db) (e' q' : Bytes)
      → IsTidy m.bindings
      → get_binding e' q' (remove_msg_queue_bindings engine q m)
        ≡ (if q == q' then none else get_binding e' q' m)
  unfolding remove_msg_queue_bindings get_binding
  remove_msg_queue_bindings-get_binding q m e' q' t = lookup-drop_queue q e' q' m.bindings t.0

  -- On a tidy map: unbinding takes the binding of that pair away and no other one, removing an exchange's
  -- bindings takes those and no other one, and removing a queue's takes those, of every exchange, and no
  -- other one.
  pub get_binding_after_removal :
      (e q : Bytes) (m : BindingManager Db) (e' q' : Bytes)
      → IsTidy m.bindings
      → (get_binding e' q' (un_bind engine e q m)
          ≡ (if e == e' && q == q' then none else get_binding e' q' m))
        × (get_binding e' q' (remove_exchange_bindings engine e m)
            ≡ (if e == e' then none else get_binding e' q' m))
        × (get_binding e' q' (remove_msg_queue_bindings engine q m)
            ≡ (if q == q' then none else get_binding e' q' m))
  get_binding_after_removal e q m e' q' t = (
    un_bind-get_binding e q m e' q',
    remove_exchange_bindings-get_binding e m e' q',
    remove_msg_queue_bindings-get_binding q m e' q' t,
  )

  -- The states that a manager comes to.
  pub data Reachable : BindingManager Db → Type 0 where
    recovered :
        (db : Db)
        → Reachable (record { db = (recovery engine db).1; bindings = (recovery engine db).0 })
    bound :
        (e q key : Bytes) (durable : Bool) (m : BindingManager Db)
        → Reachable m
        → Reachable (bind engine e q key durable m).1
    unbound : (e q : Bytes) (m : BindingManager Db) → Reachable m → Reachable (un_bind engine e q m)
    exchange_gone :
        (e : Bytes) (m : BindingManager Db)
        → Reachable m
        → Reachable (remove_exchange_bindings engine e m)
    queue_gone :
        (q : Bytes) (m : BindingManager Db)
        → Reachable m
        → Reachable (remove_msg_queue_bindings engine q m)
    cleared : (m : BindingManager Db) → Reachable m → Reachable (clear engine m)

  bind_new-IsTidy :
      (b b' : BindingMap) (db db' : Db)
      → IsTidy b
      → IsTidy b'
      → (durable ret : Bool)
      → IsTidy
          (if◌then◌else◌ {A = Bool × BindingManager Db} durable
            (if◌then◌else◌ {A = Bool × BindingManager Db} ret
              (true, record { db = db'; bindings = b' })
              (false, record { db = db'; bindings = b }))
            (true, record { db = db; bindings = b' })).1.bindings
  bind_new-IsTidy b b' db db' t t' true true = t'
  bind_new-IsTidy b b' db db' t t' true false = t
  bind_new-IsTidy b b' db db' t t' false ret = t'

  pub bind-IsTidy :
      (e q key : Bytes) (durable : Bool) (m : BindingManager Db)
      → IsTidy m.bindings
      → IsTidy (bind engine e q key durable m).1.bindings
  unfolding bind
  bind-IsTidy e q key durable m t =
      let bp : Binding = record { exchange_name = e; msgqueue_name = q; binding_key = key } in
      let t' = add_binding-IsTidy e q bp m.bindings t in
      elim (Option-cases (lookup e q m.bindings)) [
        | inl n ↦
            rw (n, bind)
              (bind_new-IsTidy m.bindings (add_binding e q bp m.bindings) m.db
                (insert engine bp m.db).1 t t' durable (insert engine bp m.db).0)
        | inr (it, f) ↦ rw (f, bind) t
      ]

  pub un_bind-IsTidy :
      (e q : Bytes) (m : BindingManager Db)
      → IsTidy m.bindings
      → IsTidy (un_bind engine e q m).bindings
  unfolding un_bind
  un_bind-IsTidy e q m t =
      let t' = drop_binding-IsTidy e q m.bindings t in
      elim (Option-cases (lookup e q m.bindings)) [
        | inl n ↦ rw (n, un_bind) t
        | inr (it, f) ↦ rw (f, un_bind) t'
      ]

  select_callback-IsTidy :
      (result : BindingMap) (row : Row) → IsTidy result → IsTidy (select_callback result row)
  unfolding select_callback
  select_callback-IsTidy result [] t = t
  select_callback-IsTidy result (none ∷ row) t = t
  select_callback-IsTidy result (some e ∷ []) t = t
  select_callback-IsTidy result (some e ∷ none ∷ row) t = t
  select_callback-IsTidy result (some e ∷ some q ∷ []) t = t
  select_callback-IsTidy result (some e ∷ some q ∷ none ∷ row) t = t
  select_callback-IsTidy result (some e ∷ some q ∷ some key ∷ row) t =
      add_binding-IsTidy e q _ result t

  pub remove_exchange_bindings-IsTidy :
      (e : Bytes) (m : BindingManager Db)
      → IsTidy m.bindings
      → IsTidy (remove_exchange_bindings engine e m).bindings
  unfolding remove_exchange_bindings
  remove_exchange_bindings-IsTidy e m t = erase-IsTidy e m.bindings t

  pub remove_msg_queue_bindings-IsTidy :
      (q : Bytes) (m : BindingManager Db)
      → IsTidy m.bindings
      → IsTidy (remove_msg_queue_bindings engine q m).bindings
  unfolding remove_msg_queue_bindings
  remove_msg_queue_bindings-IsTidy q m t = drop_queue-IsTidy q m.bindings t

  fold_rows-IsTidy :
      (result : BindingMap) (rows : List Row) → IsTidy result → IsTidy (fold_rows result rows)
  unfolding fold_rows select_callback
  fold_rows-IsTidy result [] t = t
  fold_rows-IsTidy result (row ∷ rows) t =
      fold_rows-IsTidy (select_callback result row) rows (select_callback-IsTidy result row t)

  -- In every state that a manager comes to from its start, by any calls and whatever the database
  -- answers, no exchange and no pair stands twice in the map, and no exchange has an empty map.
  pub Reachable-IsTidy : (m : BindingManager Db) → Reachable m → IsTidy m.bindings
  unfolding recovery remove_exchange_bindings remove_msg_queue_bindings clear
  Reachable-IsTidy m (recovered db) = fold_rows-IsTidy [] (exec engine select_sql db).1 (tt, tt)
  Reachable-IsTidy m (bound e q key durable m' r) =
      bind-IsTidy e q key durable m' (Reachable-IsTidy m' r)
  Reachable-IsTidy m (unbound e q m' r) = un_bind-IsTidy e q m' (Reachable-IsTidy m' r)
  Reachable-IsTidy m (exchange_gone e m' r) = erase-IsTidy e m'.bindings (Reachable-IsTidy m' r)
  Reachable-IsTidy m (queue_gone q m' r) = drop_queue-IsTidy q m'.bindings (Reachable-IsTidy m' r)
  Reachable-IsTidy m (cleared m' r) = (tt, tt)
