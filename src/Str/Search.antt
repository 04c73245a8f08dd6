-- ===== src/Str/Search.antt =====
-- What a search for a single byte finds.
use bitmq.Base.{
  ℕ, ◌≡◌, ◌≢◌, refl, ◌⊎◌, inl, inr, Option, none, some, [], ◌∷◌, ◌++◌, Bytes, nat_eq, Bool-cases,
  length, All, arith, ap, nat_eq_iff,
}
use bitmq.Str.{find_text}

abbrev pub Lacks : ℕ → Bytes → Type 0
Lacks c = All (λ x. x ≢ c)

-- The place of the first `c`, or that there is none.
abbrev pub Located : ℕ → Bytes → Option ℕ → Type 0
Located c s r =
    (Lacks c s × (r ≡ none))
    ⊎ ((w t : Bytes) × Lacks c w × (s ≡ w ++ c ∷ t) × (r ≡ some (length w)))

pub find_text-Located : (c : ℕ) (s : Bytes) → Located c s (find_text (c ∷ []) s)
unfolding find_text
find_text-Located c [] = inl (tt, refl)
find_text-Located c (x ∷ s) = elim (Bool-cases (nat_eq c x)) [
  | inl h ↦ inr ([], s, tt, ground (arith, nat_eq_iff c x), ground arith)
  | inr h ↦ elim (find_text-Located c s) [
    | inl (lacks, e) ↦ inl ((ground (arith, nat_eq_iff c x), lacks), ground arith)
    | inr (w, t, lacks, e, found) ↦
        inr (x ∷ w, t, (ground (arith, nat_eq_iff c x), lacks), ap (λ r. x ∷ r) e, ground arith)
  ]
]

-- The first separator is found behind a text that lacks it.
pub find_text_at :
    (c : ℕ) (w t : Bytes) → Lacks c w → find_text (c ∷ []) (w ++ c ∷ t) ≡ some (length w)
unfolding find_text
find_text_at c [] t h = ground (arith, nat_eq_iff c c)
find_text_at c (x ∷ w) t h = ground (arith, nat_eq_iff c x, find_text_at c w t h.1)
