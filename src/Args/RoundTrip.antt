-- ===== src/Args/RoundTrip.antt =====
-- `getArgs` and then `setArgs` of mqserver/mq_queue.hpp.
use bitmq.Base.{
  ◌≡◌, ◌≢◌, refl, sym, ap, ◌∙◌, false, none, List, [], ◌∷◌, ◌++◌, map, append_assoc, append-nil,
  Bytes, bytes_eq_iff, take-length, All, All-append, arith, bytes_key,
}
use bitmq.Dict.{find, assign, find-assign, assign_fresh, HasDistinctKeys}
use bitmq.Str.{split}
use bitmq.Str.Search.{Lacks, find_text_at}
use bitmq.Str.Words.{words, words-Lacks, words_at, words-none, split-words, close, drop_past}
use bitmq.Args.{Args, encode_arg_token, set_arg, set_loop, set_args, get_loop, get_args}
use bitmq.Args.Token.{IsByte, decode-encode_arg_token, encode_arg_token-Lacks}

abbrev entry : Bytes × Bytes → Bytes
entry (key, val) = encode_arg_token key ++ b'=' ∷ encode_arg_token val

-- The entries behind the first one, each behind its separator.
abbrev tail_text : Args → Bytes
tail_text [] = []
tail_text (kv ∷ args) = b'&' ∷ (entry kv ++ tail_text args)

-- The bytes of the keys and values are bytes, and no key is empty.
abbrev pub IsEncodable : Args → Type 0
IsEncodable = All (λ kv. All IsByte kv.0 × All IsByte kv.1 × (kv.0 ≢ []))

get_loop-tail :
    (args : Args) (result : Bytes) → get_loop args false result ≡ result ++ tail_text args
unfolding get_loop
get_loop-tail [] result = sym (append-nil result)
get_loop-tail ((key, val) ∷ args) result = simp (get_loop-tail args, append_assoc)

get_args-cons :
    (kv : Bytes × Bytes) (args : Args) → get_args (kv ∷ args) ≡ entry kv ++ tail_text args
unfolding get_args
get_args-cons (key, val) args = simp (get_loop-tail args, append_assoc)

entry-Lacks : (kv : Bytes × Bytes) → All IsByte kv.0 → All IsByte kv.1 → Lacks b'&' (entry kv)
entry-Lacks (key, val) hk hv =
    All-append (λ x. x ≢ b'&') (encode_arg_token key) (b'=' ∷ encode_arg_token val)
      (encode_arg_token-Lacks key hk).0 (omega arith, (encode_arg_token-Lacks val hv).0)

entry-no_nul : (kv : Bytes × Bytes) → All IsByte kv.0 → All IsByte kv.1 → Lacks 0 (entry kv)
entry-no_nul (key, val) hk hv =
    All-append (λ x. x ≢ 0) (encode_arg_token key) (b'=' ∷ encode_arg_token val)
      (encode_arg_token-Lacks key hk).2 (omega arith, (encode_arg_token-Lacks val hv).2)

tail_text-no_nul : (args : Args) → IsEncodable args → Lacks 0 (tail_text args)
tail_text-no_nul [] h = tt
tail_text-no_nul (kv ∷ args) h = (
  omega arith,
  All-append (λ x. x ≢ 0) (entry kv) (tail_text args) (entry-no_nul kv h.0.0 h.0.1)
      (tail_text-no_nul args h.1),
)

-- The text of an argument map holds no NUL.
pub get_args-no_nul : (args : Args) → IsEncodable args → Lacks 0 (get_args args)
get_args-no_nul [] h = unfold get_args in tt
get_args-no_nul (kv ∷ args) h = rw (get_args-cons kv args) (
    All-append (λ x. x ≢ 0) (entry kv) (tail_text args) (entry-no_nul kv h.0.0 h.0.1)
      (tail_text-no_nul args h.1))

close_entry :
    (key v : Bytes) (rest : List Bytes) → close (key ++ b'=' ∷ v) rest ≡ (key ++ b'=' ∷ v) ∷ rest
close_entry [] v rest = refl
close_entry (x ∷ key) v rest = refl

words-entries :
    (kv : Bytes × Bytes) (args : Args)
    → IsEncodable (kv ∷ args)
    → words b'&' [] (entry kv ++ tail_text args) ≡ map entry (kv ∷ args)
words-entries kv [] (h, _) =
    words-Lacks b'&' [] (entry kv) [] (entry-Lacks kv h.0 h.1)
    ∙ words-none b'&' (entry kv)
    ∙ close_entry (encode_arg_token kv.0) (encode_arg_token kv.1) []
words-entries kv (kv' ∷ args) (h, hs) =
    words-Lacks b'&' [] (entry kv) (tail_text (kv' ∷ args)) (entry-Lacks kv h.0 h.1)
    ∙ words_at b'&' (entry kv) (entry kv' ++ tail_text args)
    ∙ close_entry (encode_arg_token kv.0) (encode_arg_token kv.1) _
    ∙ ap (λ r. entry kv ∷ r) (words-entries kv' args hs)

split-get_args :
    (args : Args) → IsEncodable args → split (get_args args) (b'&' ∷ []) [] ≡ map entry args
split-get_args [] h = split-words b'&' (get_args []) [] ∙ unfold get_args words in refl
split-get_args (kv ∷ args) h =
    split-words b'&' (get_args (kv ∷ args)) []
    ∙ ap (words b'&' []) (get_args-cons kv args)
    ∙ words-entries kv args h

set_arg-entry :
    (kv : Bytes × Bytes) (args : Args)
    → All IsByte kv.0
    → All IsByte kv.1
    → kv.0 ≢ []
    → set_arg (entry kv) args ≡ assign kv.0 kv.1 args
unfolding set_arg
set_arg-entry (key, val) args hk hv hn =
    let found =
      find_text_at b'=' (encode_arg_token key) (encode_arg_token val)
        (encode_arg_token-Lacks key hk).1 in
    rw (found, set_arg)
      (rw
        (
          take-length (encode_arg_token key) (b'=' ∷ encode_arg_token val),
          drop_past b'=' (encode_arg_token key) (encode_arg_token val),
          decode-encode_arg_token key hk,
          decode-encode_arg_token val hv,
        )
        (ground (arith, bytes_eq_iff key [])))

-- No key of the rest is taken yet.
abbrev AreFresh : Args → Args → Type 0
AreFresh args done = All (λ kv. find kv.0 done ≡ none) args

-- A key that is not in the rest leaves the rest fresh.
AreFresh-assign :
    (k v : Bytes) (args done : Args)
    → find k args ≡ none
    → AreFresh args done
    → AreFresh args (assign k v done)
unfolding find
AreFresh-assign k v [] done h f = tt
AreFresh-assign k v ((j, w) ∷ args) done h f = (
  ground (arith, find-assign k j v done, bytes_eq_iff j k, bytes_eq_iff k j),
  AreFresh-assign k v args done (ground arith) f.1,
)

set_loop-entries :
    (args done : Args)
    → IsEncodable args
    → HasDistinctKeys args
    → AreFresh args done
    → set_loop (map entry args) done ≡ done ++ args
unfolding set_loop
set_loop-entries [] done h d f = sym (append-nil done)
set_loop-entries ((k, v) ∷ args) done h d f =
    ap (set_loop (map entry args)) (set_arg-entry (k, v) done h.0.0 h.0.1 h.0.2)
    ∙ set_loop-entries args (assign k v done) h.1 d.1 (AreFresh-assign k v args done d.0 f.1)
    ∙ ap (λ r. r ++ args) (assign_fresh k v done f.0)
    ∙ append_assoc done ((k, v) ∷ []) args

AreFresh-nil : (args : Args) → AreFresh args []
unfolding find
AreFresh-nil [] = tt
AreFresh-nil (kv ∷ args) = (refl, AreFresh-nil args)

-- `setArgs` reads back the map that `getArgs` wrote, entry by entry, for every map with distinct and
-- non-empty keys, whatever bytes the keys and values hold.
pub set_args-get_args :
    (args : Args) → HasDistinctKeys args → IsEncodable args → set_args (get_args args) ≡ args
unfolding set_args
set_args-get_args args d h =
    ap (λ r. set_loop r []) (split-get_args args h)
    ∙ set_loop-entries args [] h d (AreFresh-nil args)
