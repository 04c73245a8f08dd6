-- ===== src/QueueMessage/Queued.antt =====
-- The messages that wait in the list of `QueueMessage`, beside its two hash tables.
use bitmq.Base.{
  ℕ, ◌<◌, ◌≡◌, ◌≢◌, sym, ap, ◌∙◌, Bool, true, none, some, List, [], ◌∷◌, ◌++◌, Bytes, bytes_key,
  All, All-append,
}
use bitmq.Dict.{Dict, find}
use bitmq.Message.{Payload}
use bitmq.QueueMessage.{Ptr, is_durable}
use bitmq.QueueMessage.Placed.{id_in}

pub All-map :
    {A : Type 0} (P Q : A → Type 0) (xs : List A) → ((x : A) → P x → Q x) → All P xs → All Q xs
All-map P Q [] f h = tt
All-map P Q (x ∷ xs) f h = (f x h.0, All-map P Q xs f h.1)

abbrev pub lasts : Payload → Bool
lasts p = is_durable p.properties.delivery_mode

-- A durable message that waits is managed under its id; no message that waits has the id of one that waits
-- for its acknowledgement, or of another one that waits.
abbrev pub IsQueued : (Ptr → Payload) → Dict Bytes Ptr → Dict Bytes Ptr → List Ptr → Type 0
IsQueued pay dm wa [] = Unit
IsQueued pay dm wa (x ∷ xs) =
    (lasts (pay x) ≡ true → find (id_in (pay x)) dm ≡ some x)
    × (find (id_in (pay x)) wa ≡ none)
    × All (λ y. id_in (pay y) ≢ id_in (pay x)) xs
    × IsQueued pay dm wa xs

pub IsQueued-acked :
    (pay : Ptr → Payload) (dm wa : Dict Bytes Ptr) (xs : List Ptr)
    → IsQueued pay dm wa xs
    → All (λ x. find (id_in (pay x)) wa ≡ none) xs
IsQueued-acked pay dm wa [] h = tt
IsQueued-acked pay dm wa (x ∷ xs) h = (h.1, IsQueued-acked pay dm wa xs h.3)

ids_same :
    (pay pay' : Ptr → Payload) (x : Ptr) (xs : List Ptr)
    → pay' x ≡ pay x
    → All (λ y. pay' y ≡ pay y) xs
    → All (λ y. id_in (pay y) ≢ id_in (pay x)) xs
    → All (λ y. id_in (pay' y) ≢ id_in (pay' x)) xs
ids_same pay pay' x [] e es h = tt
ids_same pay pay' x (y ∷ xs) e es h =
    (λ i. h.0 (ap id_in (sym es.0) ∙ i ∙ ap id_in e), ids_same pay pay' x xs e es.1 h.1)

-- What else may change beside the payloads of those that wait.
pub IsQueued-same :
    (pay pay' : Ptr → Payload) (dm dm' wa wa' : Dict Bytes Ptr) (xs : List Ptr)
    → All (λ y. pay' y ≡ pay y) xs
    → All (λ y. find (id_in (pay y)) dm' ≡ find (id_in (pay y)) dm) xs
    → All (λ y. find (id_in (pay y)) wa' ≡ none) xs
    → IsQueued pay dm wa xs
    → IsQueued pay' dm' wa' xs
IsQueued-same pay pay' dm dm' wa wa' [] es d w h = tt
IsQueued-same pay pay' dm dm' wa wa' (x ∷ xs) es d w h =
    let e = es.0 in
    (
      λ t. ap (λ p. find (id_in p) dm') e ∙ d.0 ∙ h.0 (ap lasts (sym e) ∙ t),
      ap (λ p. find (id_in p) wa') e ∙ w.0,
      ids_same pay pay' x xs e es.1 h.2,
      IsQueued-same pay pay' dm dm' wa wa' xs es.1 d.1 w.1 h.3,
    )

pub IsQueued-frame :
    (pay pay' : Ptr → Payload) (dm dm' wa wa' : Dict Bytes Ptr) (n : ℕ) (xs : List Ptr)
    → ((y : Ptr) → y < n → pay' y ≡ pay y)
    → All (λ y. y < n) xs
    → All (λ y. find (id_in (pay y)) dm' ≡ find (id_in (pay y)) dm) xs
    → All (λ y. find (id_in (pay y)) wa' ≡ none) xs
    → IsQueued pay dm wa xs
    → IsQueued pay' dm' wa' xs
IsQueued-frame pay pay' dm dm' wa wa' n xs same ls =
    IsQueued-same pay pay' dm dm' wa wa' xs (All-map (λ y. y < n) _ xs same ls)

-- One more message at the end, with an id of its own.
pub IsQueued-append :
    (pay : Ptr → Payload) (dm wa : Dict Bytes Ptr) (xs : List Ptr) (x : Ptr)
    → (lasts (pay x) ≡ true → find (id_in (pay x)) dm ≡ some x)
    → find (id_in (pay x)) wa ≡ none
    → All (λ y. id_in (pay y) ≢ id_in (pay x)) xs
    → IsQueued pay dm wa xs
    → IsQueued pay dm wa (xs ++ x ∷ [])
IsQueued-append pay dm wa [] x d w ids h = (d, w, tt, tt)
IsQueued-append pay dm wa (y ∷ xs) x d w ids h = (
  h.0,
  h.1,
  All-append (λ z. id_in (pay z) ≢ id_in (pay y)) xs (x ∷ []) h.2 (λ e. ids.0 (sym e), tt),
  IsQueued-append pay dm wa xs x d w ids.1 h.3,
)
