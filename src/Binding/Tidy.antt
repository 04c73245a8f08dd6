-- ===== src/Binding/Tidy.antt =====
-- The shape of the map of bindings: no exchange stands twice in it, no queue twice behind an exchange,
-- and no exchange has an empty map.
use bitmq.Base.{◌≡◌, ◌≢◌, none, [], ◌∷◌, arith, Bytes, bytes_key, All}
use bitmq.Dict.{
  find, emplace, assign, erase, HasDistinctKeys, assign-HasDistinctKeys, erase-HasDistinctKeys,
  emplace-HasDistinctKeys, same_self,
}
use bitmq.Binding.{
  Binding, BindingMap, MsgQueueBindingMap, add_binding, drop_queue, drop_binding, map_at,
}
use bitmq.Binding.Laws.{find-drop_queue_fresh}

abbrev pub HasBindings : Bytes × MsgQueueBindingMap → Type 0
HasBindings (e, qmap) = (qmap ≢ []) × HasDistinctKeys qmap

abbrev pub IsTidy : BindingMap → Type 0
IsTidy m = HasDistinctKeys m × All HasBindings m

assign-All :
    (e : Bytes) (qmap : MsgQueueBindingMap) (m : BindingMap)
    → HasBindings (e, qmap)
    → All HasBindings m
    → All HasBindings (assign e qmap m)
unfolding assign
assign-All e qmap [] b h = (b, tt)
assign-All e qmap ((i, w) ∷ m) b h = ground (arith, assign-All e qmap m)

erase-All : (e : Bytes) (m : BindingMap) → All HasBindings m → All HasBindings (erase e m)
unfolding erase
erase-All e [] h = tt
erase-All e ((i, w) ∷ m) h = ground (arith, erase-All e m)

pub map_at-HasDistinctKeys :
    (e : Bytes) (m : BindingMap) → All HasBindings m → HasDistinctKeys (map_at e m)
unfolding find
map_at-HasDistinctKeys e [] h = tt
map_at-HasDistinctKeys e ((i, w) ∷ m) h = ground (arith, map_at-HasDistinctKeys e m)

emplace_some : (q : Bytes) (b : Binding) (qmap : MsgQueueBindingMap) → emplace q b qmap ≢ []
unfolding emplace
emplace_some q b [] h = cc
emplace_some q b ((i, w) ∷ m) h = ground arith

pub add_binding-IsTidy :
    (e q : Bytes) (b : Binding) (m : BindingMap) → IsTidy m → IsTidy (add_binding e q b m)
unfolding add_binding
add_binding-IsTidy e q b m (d, h) = (
  assign-HasDistinctKeys e _ m d,
  assign-All e _ m
      (
        emplace_some q b (map_at e m),
        emplace-HasDistinctKeys q b (map_at e m) (map_at-HasDistinctKeys e m h),
      )
      h,
)

erase-assign-All :
    (e : Bytes) (qmap : MsgQueueBindingMap) (m : BindingMap)
    → All HasBindings m
    → HasDistinctKeys m
    → All HasBindings (erase e (assign e qmap m))
unfolding assign erase find
erase-assign-All e qmap [] h d = rw (same_self e) tt
erase-assign-All e qmap ((i, w) ∷ m) h d =
    ground (arith, same_self e, erase-All e m, erase-assign-All e qmap m)

put_back-IsTidy :
    (e : Bytes) (qmap : MsgQueueBindingMap) (m : BindingMap)
    → IsTidy m
    → HasDistinctKeys qmap
    → IsTidy (elim qmap [ [] ↦ erase e (assign e [] m) | b ∷ qmap' ↦ assign e (b ∷ qmap') m ])
put_back-IsTidy e [] m (d, h) k =
    (erase-HasDistinctKeys e _ (assign-HasDistinctKeys e [] m d), erase-assign-All e [] m h d)
put_back-IsTidy e (b ∷ qmap) m (d, h) k =
    (assign-HasDistinctKeys e _ m d, assign-All e _ m ((λ h. cc), k) h)

pub drop_binding-IsTidy : (e q : Bytes) (m : BindingMap) → IsTidy m → IsTidy (drop_binding e q m)
unfolding drop_binding
drop_binding-IsTidy e q m (d, h) =
    put_back-IsTidy e _ m (d, h) (erase-HasDistinctKeys q _ (map_at-HasDistinctKeys e m h))

pub erase-IsTidy : (e : Bytes) (m : BindingMap) → IsTidy m → IsTidy (erase e m)
erase-IsTidy e m (d, h) = (erase-HasDistinctKeys e m d, erase-All e m h)

walked-IsTidy :
    (e : Bytes) (qmap : MsgQueueBindingMap) (rest : BindingMap)
    → HasDistinctKeys qmap
    → find e rest ≡ none
    → IsTidy rest
    → IsTidy (elim qmap [ [] ↦ rest | b ∷ qmap' ↦ (e, b ∷ qmap') ∷ rest ])
walked-IsTidy e [] rest k f t = t
walked-IsTidy e (b ∷ qmap) rest k f (d, h) = ((f, d), (((λ h. cc), k), h))

pub drop_queue-IsTidy : (q : Bytes) (m : BindingMap) → IsTidy m → IsTidy (drop_queue q m)
unfolding drop_queue
drop_queue-IsTidy q [] t = t
drop_queue-IsTidy q ((e, qmap) ∷ m) ((f, d), ((s, k), h)) =
    walked-IsTidy e (erase q qmap) (drop_queue q m) (erase-HasDistinctKeys q qmap k)
      (find-drop_queue_fresh q e m f) (drop_queue-IsTidy q m (d, h))
