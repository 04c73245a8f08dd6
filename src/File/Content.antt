-- ===== src/File/Content.antt =====
-- Reading and writing inside the contents of a file.
use bitmq.Base.{
  ℕ, zero, suc, ◌+◌, ◌-◌, ◌≤◌, ◌≡◌, refl, sym, ap, ◌∙◌, some, [], ◌∷◌, ◌++◌, append_assoc,
  append-nil, Bytes, nat_eq_iff, length, take, drop, length-append, take-length, drop-length, arith,
}
use bitmq.File.{read_content, write_content}

-- The middle of three parts is read at its place.
pub read_content_middle :
    (xs body ys : Bytes) → read_content (xs ++ (body ++ ys)) (length xs) (length body) ≡ some body
unfolding read_content
read_content_middle xs body ys =
    rw (drop-length xs (body ++ ys), read_content)
      (rw (take-length body ys) (ground (arith, nat_eq_iff (length body) (length body))))

take_beyond : (n : ℕ) (s : Bytes) → length s ≤ n → take n s ≡ s
take_beyond zero [] h = refl
take_beyond zero (x ∷ s) h = absurd (omega arith)
take_beyond (suc n) [] h = refl
take_beyond (suc n) (x ∷ s) h = ap (λ r. x ∷ r) (take_beyond n s (omega arith))

drop_beyond : (n : ℕ) (s : Bytes) → length s ≤ n → drop n s ≡ []
drop_beyond zero [] h = refl
drop_beyond zero (x ∷ s) h = absurd (omega arith)
drop_beyond (suc n) [] h = refl
drop_beyond (suc n) (x ∷ s) h = drop_beyond n s (omega arith)

-- A write at the end appends.
pub write_content_end : (s body : Bytes) → write_content s (length s) body ≡ s ++ body
unfolding write_content
write_content_end s [] = sym (append-nil s)
write_content_end s (x ∷ body) =
    let gap : length s - length s ≡ 0 = omega arith in
    rw (
      gap,
      take_beyond (length s) s (omega arith),
      drop_beyond (length s + length (x ∷ body)) s (omega arith),
      append-nil,
    )

drop_middle : (xs old ys : Bytes) → drop (length xs + length old) (xs ++ (old ++ ys)) ≡ ys
drop_middle xs old ys =
    ap (λ n. drop n (xs ++ (old ++ ys))) (sym (length-append xs old))
    ∙ ap (drop (length (xs ++ old))) (sym (append_assoc xs old ys))
    ∙ drop-length (xs ++ old) ys

-- A write of as many bytes as stand there replaces them.
pub write_content_middle :
    (xs old body ys : Bytes)
    → length body ≡ length old
    → write_content (xs ++ (old ++ ys)) (length xs) body ≡ xs ++ (body ++ ys)
unfolding write_content
write_content_middle xs [] [] ys h = refl
write_content_middle xs (y ∷ old) [] ys h = absurd (omega arith)
write_content_middle xs old (x ∷ body) ys h =
    let gap : length xs - length (xs ++ (old ++ ys)) ≡ 0 =
      omega (arith, length-append xs (old ++ ys)) in
    rw (gap, h, take-length xs (old ++ ys), drop_middle xs old ys)
