-- ===== src/Binding/Laws.antt =====
-- The map of bindings seen through a look-up by exchange and queue.
use bitmq.Base.{◌≡◌, refl, ◌∙◌, none, some, [], ◌∷◌, arith, Bytes, bytes_key, ◌==◌, if◌then◌else◌}
use bitmq.Dict.{
  find, emplace, assign, erase, find-emplace, find-assign, find-erase, HasDistinctKeys,
}
use bitmq.Binding.{
  Binding, BindingMap, MsgQueueBindingMap, add_binding, drop_queue, drop_binding, lookup, map_at,
}

pub find-map_at : (e q : Bytes) (m : BindingMap) → find q (map_at e m) ≡ lookup e q m
unfolding lookup find
find-map_at e q m = ground arith

lookup-assign :
    (e e' q' : Bytes) (qmap : MsgQueueBindingMap) (m : BindingMap)
    → lookup e' q' (assign e qmap m) ≡ (if e == e' then find q' qmap else lookup e' q' m)
unfolding lookup
lookup-assign e e' q' qmap m = ground (arith, find-assign e e' qmap m)

pub lookup-erase :
    (e e' q' : Bytes) (m : BindingMap)
    → lookup e' q' (erase e m) ≡ (if e == e' then none else lookup e' q' m)
unfolding lookup
lookup-erase e e' q' m = ground (arith, find-erase e e' m)

pub lookup-add_binding :
    (e q e' q' : Bytes) (b : Binding) (m : BindingMap)
    → lookup e q m ≡ none
    → lookup e' q' (add_binding e q b m)
      ≡ (if e == e' then (if q == q' then some b else lookup e q' m) else lookup e' q' m)
unfolding add_binding
lookup-add_binding e q e' q' b m h =
    rw
      (
        lookup-assign e e' q' (emplace q b (map_at e m)) m,
        find-emplace q q' b (map_at e m),
        find-map_at e q m,
        find-map_at e q' m,
        h,
      )
      refl

-- The two ways in which a map goes back: an empty one goes away.
dropped :
    (e e' q' : Bytes) (m : BindingMap) (qmap : MsgQueueBindingMap)
    → lookup e' q' (elim qmap [ [] ↦ erase e (assign e [] m) | b ∷ qmap' ↦ assign e (b ∷ qmap') m ])
      ≡ (if e == e' then find q' qmap else lookup e' q' m)
unfolding find
dropped e e' q' m [] =
    lookup-erase e e' q' (assign e [] m) ∙ ground (arith, lookup-assign e e' q' [] m)
dropped e e' q' m (b ∷ qmap) = lookup-assign e e' q' (b ∷ qmap) m

pub lookup-drop_binding :
    (e q e' q' : Bytes) (m : BindingMap)
    → lookup e' q' (drop_binding e q m)
      ≡ (if e == e' then (if q == q' then none else lookup e q' m) else lookup e' q' m)
unfolding drop_binding
lookup-drop_binding e q e' q' m =
    dropped e e' q' m (erase q (map_at e m))
    ∙ rw (find-erase q q' (map_at e m), find-map_at e q' m) refl

-- The map of one exchange after the walk.
pub find-drop_queue_fresh :
    (q e' : Bytes) (m : BindingMap) → find e' m ≡ none → find e' (drop_queue q m) ≡ none
unfolding drop_queue find
find-drop_queue_fresh q e' [] h = refl
find-drop_queue_fresh q e' ((e, qmap) ∷ m) h = ground (arith, find-drop_queue_fresh q e' m)

-- One step of the walk.
walked :
    (q e e' q' : Bytes) (qmap : MsgQueueBindingMap) (m rest : BindingMap)
    → find e rest ≡ none
    → lookup e' q' rest ≡ (if q == q' then none else lookup e' q' m)
    → lookup e' q' (elim qmap [ [] ↦ rest | b ∷ qmap' ↦ (e, b ∷ qmap') ∷ rest ])
      ≡ (if e == e' then find q' qmap else (if q == q' then none else lookup e' q' m))
unfolding lookup find
walked q e e' q' [] m rest f h = ground (arith, bytes_key.same_iff e e')
walked q e e' q' (b ∷ qmap) m rest f h = ground arith

pub lookup-drop_queue :
    (q e' q' : Bytes) (m : BindingMap)
    → HasDistinctKeys m
    → lookup e' q' (drop_queue q m) ≡ (if q == q' then none else lookup e' q' m)
unfolding drop_queue lookup find
lookup-drop_queue q e' q' [] h = ground arith
lookup-drop_queue q e' q' ((e, qmap) ∷ m) (f, h) =
    walked q e e' q' (erase q qmap) m (drop_queue q m) (find-drop_queue_fresh q e m f)
      (lookup-drop_queue q e' q' m h)
    ∙ ground (arith, find-erase q q' qmap)
