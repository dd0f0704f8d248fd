-- ===== src/Agent/Logs/Tails.antt =====
-- The tail of a log: its last lines.
use birdman.Base.{
  All, Bool-cases, List, [], ap, arith, drop, false, if_cases, if◌then◌else◌, inl, inr, leb, length,
  length-append, ltb, map, none, refl, some, subst, suc, sym, true, ℕ, ◌++◌, ◌+◌, ◌-◌, ◌<◌, ◌==◌,
  ◌∙◌, ◌∷◌, ◌≡◌, ◌≢◌, ◌≤◌,
}
use birdman.Agent.Logs.{
  Byte, Files, active_source, chunk_size, chunks, drop_return, emitted, fill, fill_from,
  fits_buffer, flatten, max_line, max_tail_lines, read_lines, remember, split_lines, stream,
  tail_chunks,
}

abbrev pub unlines : List (List Byte) → List Byte
unlines [] = []
unlines (l ∷ ls) = (l ++ 10 ∷ []) ++ unlines ls

-- A line as a server writes it.
abbrev pub IsLine : List Byte → Type 0
IsLine l = All (λ b. (b ≢ 10) × (b ≢ 13)) l × (length l < max_line)

module _ {ℓ} {A : Type ℓ} where
  append_assoc : (xs ys zs : List A) → xs ++ ys ++ zs ≡ xs ++ (ys ++ zs)
  append_assoc [] ys zs = refl
  append_assoc (x ∷ xs) ys zs = ap (λ r. x ∷ r) (append_assoc xs ys zs)

  append_nil : (xs : List A) → xs ++ [] ≡ xs
  append_nil [] = refl
  append_nil (x ∷ xs) = ap (λ r. x ∷ r) (append_nil xs)

  fill-append : (n : ℕ) (ring xs ys : List A) → fill n ring (xs ++ ys) ≡ fill n (fill n ring xs) ys
  unfolding fill
  fill-append n ring [] ys = refl
  fill-append n ring (x ∷ xs) ys = fill-append n (remember n ring x) xs ys

  fill-nil : (n : ℕ) (ring : List A) → fill n ring [] ≡ ring
  unfolding fill
  fill-nil n ring = refl

  remember-room :
      (n : ℕ) (ring : List A) (l : A) → length ring < n → remember n ring l ≡ ring ++ l ∷ []
  unfolding remember
  remember-room n ring l h = ground arith

  remember-full :
      (n : ℕ) (ring : List A) (l : A) → length ring ≡ n → remember n ring l ≡ drop 1 ring ++ l ∷ []
  unfolding remember
  remember-full n ring l h = ground arith

  drop_none : (k : ℕ) (xs : List A) → k ≡ 0 → drop k xs ≡ xs
  drop_none k xs e = ap (λ i. drop i xs) e

  -- The ring holds the last `n` of the lines.
  fill-drop :
      (n k : ℕ) (ring ls : List A)
      → 0 < n
      → length ring ≤ n
      → k ≡ length ring + length ls - n
      → fill n ring ls ≡ drop k (ring ++ ls)
  unfolding fill
  fill-drop n k ring [] some_ h e =
      sym (drop_none k (ring ++ []) (omega (arith, h, e)) ∙ append_nil ring)
  fill-drop n k [] (l ∷ ls) some_ h e =
      ap (λ r. fill n r ls) (remember-room n [] l some_)
      ∙ fill-drop n k (l ∷ []) ls some_ (omega arith) (omega (arith, e))
  fill-drop n k (r ∷ ring) (l ∷ ls) some_ h e = elim (Bool-cases (length (r ∷ ring) == n)) [
    | inl is_full ↦
        let full : suc (length ring) ≡ n = ground arith in
        let rest : suc (length ls) ≡ k = omega (arith, e, full) in
        ap (λ x. fill n x ls) (remember-full n (r ∷ ring) l full)
        ∙ fill-drop n (length ls) (ring ++ l ∷ []) ls some_
            (omega (arith, length-append ring (l ∷ []), h))
            (omega (arith, length-append ring (l ∷ []), full))
        ∙ ap (drop (length ls)) (append_assoc ring (l ∷ []) ls)
        ∙ ap (λ i. drop i (r ∷ ring ++ l ∷ ls)) rest
    | inr has_room ↦
        let room : suc (length ring) < n = ground arith in
        ap (λ x. fill n x ls) (remember-room n (r ∷ ring) l room)
        ∙ fill-drop n k ((r ∷ ring) ++ l ∷ []) ls some_
            (omega (arith, length-append ring (l ∷ []), room))
            (omega (arith, length-append ring (l ∷ []), e))
        ∙ ap (drop k) (append_assoc (r ∷ ring) (l ∷ []) ls)
  ]

split_lines-line :
    (l : List Byte) (bs : List Byte)
    → All (λ b. (b ≢ 10) × (b ≢ 13)) l
    → split_lines (l ++ 10 ∷ [] ++ bs) ≡ l ∷ split_lines bs
unfolding split_lines
split_lines-line [] bs h = refl
split_lines-line (b ∷ l) bs h =
    let differs : (b == 10) ≡ false = ground (arith, h.0.0) in
    rw (differs, split_lines-line l bs h.1) refl

drop_return-line : (l : List Byte) → All (λ b. (b ≢ 10) × (b ≢ 13)) l → drop_return l ≡ l
unfolding drop_return
drop_return-line [] h = refl
drop_return-line (b ∷ []) h = ground (arith, h.0.1)
drop_return-line (b ∷ c ∷ l) h = ap (λ r. b ∷ r) (drop_return-line (c ∷ l) h.1)

pub split_lines-unlines : (ls : List (List Byte)) → All IsLine ls → split_lines (unlines ls) ≡ ls
unfolding split_lines
split_lines-unlines [] h = refl
split_lines-unlines (l ∷ ls) h =
    split_lines-line l (unlines ls) h.0.0 ∙ ap (λ r. l ∷ r) (split_lines-unlines ls h.1)

flatten-chunks :
    (buf : List Byte) (ls : List (List Byte)) → flatten (chunks buf ls) ≡ buf ++ unlines ls
unfolding chunks
flatten-chunks [] [] = refl
flatten-chunks (b ∷ buf) [] = ground arith
flatten-chunks buf (l ∷ ls) =
    let line : List Byte = buf ++ l ++ 10 ∷ [] in
    let same : line ++ unlines ls ≡ buf ++ (l ++ 10 ∷ [] ++ unlines ls) =
      ap (λ t. t ++ unlines ls) (append_assoc buf l (10 ∷ []))
      ∙ append_assoc buf (l ++ 10 ∷ []) (unlines ls) in
    if_cases (λ out. flatten out ≡ buf ++ (l ++ 10 ∷ [] ++ unlines ls))
      (leb chunk_size (length line)) (line ∷ chunks [] ls) (chunks line ls)
      (ap (λ t. line ++ t) (flatten-chunks [] ls) ∙ same) (flatten-chunks line ls ∙ same)

fits_buffer-lines : (ls : List (List Byte)) → All IsLine ls → fits_buffer ls ≡ true
unfolding fits_buffer
fits_buffer-lines [] h = refl
fits_buffer-lines (l ∷ ls) h = ground (arith, h.0.1, fits_buffer-lines ls h.1)

map-drop_return : (ls : List (List Byte)) → All IsLine ls → map drop_return ls ≡ ls
map-drop_return [] h = refl
map-drop_return (l ∷ ls) h = rw (drop_return-line l h.0.0, map-drop_return ls h.1) refl

read_lines-unlines : (ls : List (List Byte)) → All IsLine ls → read_lines (unlines ls) ≡ some ls
unfolding read_lines
read_lines-unlines ls h =
    rw (split_lines-unlines ls h, fits_buffer-lines ls h, map-drop_return ls h) refl

fill_from-cons :
    (n : ℕ) (ring ls : List (List Byte)) (src : List Byte) (srcs : List (List Byte))
    → read_lines src ≡ some ls
    → fill_from n ring (src ∷ srcs) ≡ fill_from n (fill n ring ls) srcs
unfolding fill_from
fill_from-cons n ring ls src srcs e =
    subst
      (λ o.
        (elim o [ none ↦ none | some found ↦ fill_from n (fill n ring found) srcs ])
        ≡ fill_from n (fill n ring ls) srcs)
      (sym e) refl

fill_from-unlines :
    (n : ℕ) (ring : List (List Byte)) (files : List (List (List Byte)))
    → All (All IsLine) files
    → fill_from n ring (map unlines files) ≡ some (fill n ring (flatten files))
unfolding fill_from
fill_from-unlines n ring [] h = ap some (sym (fill-nil n ring))
fill_from-unlines n ring (ls ∷ files) h =
    fill_from-cons n ring ls (unlines ls) (map unlines files) (read_lines-unlines ls h.0)
    ∙ fill_from-unlines n (fill n ring ls) files h.1
    ∙ ap some (sym (fill-append n ring ls (flatten files)))

some_sources :
    (files : List (List (List Byte))) → 0 < length files → (length (map unlines files) == 0) ≡ false
some_sources [] h = elim h [ ]
some_sources (f ∷ files) h = ground arith

clamped : (n : ℕ) → n ≤ max_tail_lines → (if ltb max_tail_lines n then max_tail_lines else n) ≡ n
clamped n h = ground arith

tail_chunks-unlines :
    (n : ℕ) (files : List (List (List Byte)))
    → All (All IsLine) files
    → n ≤ max_tail_lines
    → tail_chunks n (map unlines files) ≡ some (chunks [] (fill n [] (flatten files)))
unfolding tail_chunks
tail_chunks-unlines n files h le =
    subst
      (λ m.
        (elim (fill_from m [] (map unlines files)) [
          | none ↦ none
          | some ring ↦ some (chunks [] ring)
        ])
        ≡ some (chunks [] (fill n [] (flatten files))))
      (sym (clamped n le)) (rw (fill_from-unlines n [] files h) refl)

-- A tail of complete lines without byte 13, each shorter than the scanner's buffer: the last `n`
-- lines of all the files together, for at most `max_tail_lines`, each with its end, whatever chunks
-- they go out in.
pub stream-last :
    (fs : Files) (files : List (List (List Byte))) (n : ℕ)
    → fs.older ++ active_source fs.active ≡ map unlines files
    → All (All IsLine) files
    → 0 < length files
    → 0 < n
    → n ≤ max_tail_lines
    → stream fs n false [] ≡ emitted (unlines (drop (length (flatten files) - n) (flatten files)))
unfolding stream
stream-last fs files n sources lines some_files some_lines le =
    let asked : ltb 0 n ≡ true = ground arith in
    rw (sources, some_sources files some_files, asked, tail_chunks-unlines n files lines le)
      (ap emitted (
        append_nil (flatten (chunks [] (fill n [] (flatten files))))
        ∙ flatten-chunks [] (fill n [] (flatten files))
        ∙ ap unlines (
            fill-drop n (length (flatten files) - n) [] (flatten files) some_lines (omega arith)
              (omega arith))))
