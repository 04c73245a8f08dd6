-- ===== src/Str/Words.antt =====
-- `split` of mqcommon/mq_helper.hpp by a single byte.
use bitmq.Base.{
  ℕ, zero, suc, true, false, ◌+◌, ◌<◌, ◌≡◌, refl, sym, ap, ◌∙◌, inl, inr, none, some, List, [], ◌∷◌,
  ◌++◌, append_assoc, append-nil, Bytes, nat_eq, nat_eq_iff, length, take, drop, length-append,
  take-length, arith,
}
use bitmq.Str.{find_text, split_loop, split}
use bitmq.Str.Search.{Lacks, find_text-Located}

-- A run that is empty is no word.
abbrev pub close : Bytes → List Bytes → List Bytes
close [] rest = rest
close (x ∷ w) rest = (x ∷ w) ∷ rest

-- The words of a text, `cur` being the part of the first one that has been read.
unfoldable pub words : ℕ → Bytes → Bytes → List Bytes
words c cur [] = close cur []
words c cur (x ∷ s) = elim (nat_eq x c) [
  | true ↦ close cur (words c [] s)
  | false ↦ words c (cur ++ x ∷ []) s
]

pub words-Lacks :
    (c : ℕ) (cur w s : Bytes) → Lacks c w → words c cur (w ++ s) ≡ words c (cur ++ w) s
unfolding words
words-Lacks c cur [] s h = rw append-nil
words-Lacks c cur (x ∷ w) s h =
    ground (arith, words-Lacks c (cur ++ x ∷ []) w s, append_assoc cur (x ∷ []) w, nat_eq_iff x c)

pub words_at : (c : ℕ) (cur s : Bytes) → words c cur (c ∷ s) ≡ close cur (words c [] s)
unfolding words
words_at c cur s = ground (arith, nat_eq_iff c c)

pub words-none : (c : ℕ) (cur : Bytes) → words c cur [] ≡ close cur []
unfolding words
words-none c cur = refl

words_whole : (c x : ℕ) (s : Bytes) → Lacks c (x ∷ s) → words c [] (x ∷ s) ≡ (x ∷ s) ∷ []
words_whole c x s h =
    ap (words c []) (sym (append-nil (x ∷ s)))
    ∙ words-Lacks c [] (x ∷ s) [] h
    ∙ words-none c (x ∷ s)

words_first :
    (c x : ℕ) (w t : Bytes)
    → Lacks c (x ∷ w)
    → words c [] ((x ∷ w) ++ c ∷ t) ≡ (x ∷ w) ∷ words c [] t
words_first c x w t h = words-Lacks c [] (x ∷ w) (c ∷ t) h ∙ words_at c (x ∷ w) t

pub drop_past : (c : ℕ) (w t : Bytes) → drop (length w + 1) (w ++ c ∷ t) ≡ t
drop_past c [] t = refl
drop_past c (x ∷ w) t =
    let e : suc (length w) + 1 ≡ suc (length w + 1) = omega arith in rw e (drop_past c w t)

-- One round of the loop on a text that holds the separator.
round_found :
    (f c x : ℕ) (text w t : Bytes) (result : List Bytes)
    → (x ∷ text) ≡ w ++ c ∷ t
    → find_text (c ∷ []) (x ∷ text) ≡ some (length w)
    → split_loop (suc f) (c ∷ []) (x ∷ text) result ≡ split_loop f (c ∷ []) t (result ++ close w [])
unfolding split_loop
round_found f c x text [] t result e found =
    rw (found, split_loop) (cc (append-nil result, ap (drop 1) e))
round_found f c x text (y ∷ w) t result e found =
    rw (found, split_loop)
      (cc (
        ap (take (suc (length w))) e ∙ take-length (y ∷ w) (c ∷ t),
        ap (drop (suc (length w) + 1)) e ∙ drop_past c (y ∷ w) t,
      ))

round_last :
    (f c x : ℕ) (text : Bytes) (result : List Bytes)
    → find_text (c ∷ []) (x ∷ text) ≡ none
    → split_loop (suc f) (c ∷ []) (x ∷ text) result ≡ result ++ (x ∷ text) ∷ []
unfolding split_loop
round_last f c x text result e = rw (e, split_loop)

words_found : (c : ℕ) (w t : Bytes) → Lacks c w → words c [] (w ++ c ∷ t) ≡ close w (words c [] t)
words_found c w t h = words-Lacks c [] w (c ∷ t) h ∙ words_at c w t

close-append :
    (w : Bytes) (result rest : List Bytes) → (result ++ close w []) ++ rest ≡ result ++ close w rest
close-append [] result rest = rw append-nil
close-append (x ∷ w) result rest = append_assoc result ((x ∷ w) ∷ []) rest

split_loop-words :
    (f c : ℕ) (text : Bytes) (result : List Bytes)
    → length text < f
    → split_loop f (c ∷ []) text result ≡ result ++ words c [] text
split_loop-words zero c text result h = absurd (omega arith)
split_loop-words (suc f) c [] result h = unfold split_loop words in sym (append-nil result)
split_loop-words (suc f) c (x ∷ text) result h = elim (find_text-Located c (x ∷ text)) [
  | inl (lacks, e) ↦
      round_last f c x text result e ∙ ap (λ r. result ++ r) (sym (words_whole c x text lacks))
  | inr (w, t, lacks, e, found) ↦
      round_found f c x text w t result e found
      ∙ split_loop-words f c t (result ++ close w [])
          (omega (arith, ap length e, length-append w (c ∷ t)))
      ∙ close-append w result (words c [] t)
      ∙ ap (λ r. result ++ r) (sym (ap (words c []) e ∙ words_found c w t lacks))
]

-- Splitting at a single byte, whatever the text: `split` appends to `result` exactly the non-empty
-- runs of bytes between the separators, in their order.
pub split-words :
    (c : ℕ) (text : Bytes) (result : List Bytes)
    → split text (c ∷ []) result ≡ result ++ words c [] text
unfolding split
split-words c [] result = split_loop-words 1 c [] result (omega arith)
split-words c (x ∷ text) result =
    split_loop-words (suc (length (x ∷ text))) c (x ∷ text) result (omega arith)
