-- ===== src/Agent/ImageGc/Recent.antt =====
-- The bound on the refs that count as used of late.
use birdman.Base.{
  Bool-cases, List, String, [], ap, arith, contains, delete, inl, inr, insert, leb, leb→le, length,
  ltb, nat_eq, refl, string_eq, sym, true, ℕ, ◌+◌, ◌<◌, ◌||◌, ◌∷◌, ◌≡◌, ◌≤◌, ◌⊎◌,
}
use birdman.Agent.ImageGc.{
  Call, Touched, oldest_loop, protected_cap, protected_refs, run, touch, untouch,
}

length-insert : (k : String) (v : ℕ) (m : Touched) → length (insert k v m) ≤ length m + 1
length-insert k v [] = omega arith
length-insert k v ((j, w) ∷ m) = ground (arith, length-insert k v m)

length-delete : (k : String) (m : Touched) → length (delete k m) ≤ length m
length-delete k [] = omega arith
length-delete k ((j, w) ∷ m) = ground (arith, length-delete k m)

length-delete_contained :
    (k : String) (m : Touched)
    → contains k (protected_refs m) ≡ true
    → length (delete k m) + 1 ≤ length m
unfolding protected_refs
length-delete_contained k [] h = absurd (cc)
length-delete_contained k ((j, w) ∷ m) h = elim (Bool-cases (string_eq.beq j k)) [
  | inl e ↦ let n = length-delete k m in rw e (omega arith)
  | inr e ↦ let n = length-delete_contained k m (ground (arith, h, e)) in rw e (omega arith)
]

oldest_loop-found :
    (best : String × ℕ) (m : Touched)
    → (oldest_loop best m ≡ best) ⊎ (contains (oldest_loop best m).0 (protected_refs m) ≡ true)
unfolding oldest_loop protected_refs
oldest_loop-found best [] = inl refl
oldest_loop-found best ((r, at) ∷ more) =
    elim (Bool-cases (string_eq.beq best.0 "" || ltb at best.1)) [
      | inl e ↦ rw e (elim (oldest_loop-found (r, at) more) [
        | inl same ↦ inr (
            let k : r ≡ (oldest_loop (r, at) more).0 = ap (λ (p : String × ℕ). p.0) (sym same) in
            ground (arith, (string_eq.beq_iff r (oldest_loop (r, at) more).0).1 k))
        | inr found ↦ inr (ground (arith, found))
      ])
      | inr e ↦ rw e (elim (oldest_loop-found best more) [
        | inl same ↦ inl same
        | inr found ↦ inr (ground (arith, found))
      ])
    ]

-- The oldest of a map that is not empty is one of its refs.
oldest_loop-contained :
    (m : Touched) → 0 < length m → contains (oldest_loop ("", 0) m).0 (protected_refs m) ≡ true
unfolding oldest_loop protected_refs
oldest_loop-contained [] h = absurd (omega arith)
oldest_loop-contained ((r, at) ∷ more) h = elim (oldest_loop-found (r, at) more) [
  | inl same ↦
      let k : r ≡ (oldest_loop (r, at) more).0 = ap (λ (p : String × ℕ). p.0) (sym same) in
      ground (arith, (string_eq.beq_iff r (oldest_loop (r, at) more).0).1 k)
  | inr found ↦ ground (arith, found)
]

touch_bounded :
    (now : ℕ) (ref : String) (t : Touched)
    → length t ≤ protected_cap
    → length (touch now ref t) ≤ protected_cap
unfolding touch
touch_bounded now ref t h = elim (Bool-cases (string_eq.beq ref "")) [
  | inl none_given ↦ rw (none_given, touch) h
  | inr given ↦
      let marked = insert ref now t in
      let n = length-insert ref now t in
      elim (Bool-cases (leb (length marked) protected_cap)) [
        | inl fits ↦ rw (given, fits, touch) (leb→le (length marked) protected_cap fits)
        | inr over ↦
            let more : protected_cap < length marked = ground arith in
            let d =
              length-delete_contained (oldest_loop ("", 0) marked).0 marked
                (oldest_loop-contained marked (omega arith)) in
            rw (given, over, touch) (omega arith)
      ]
]

run_bounded_from :
    (t : Touched) (cs : List Call) → length t ≤ protected_cap → length (run t cs) ≤ protected_cap
unfolding run untouch
run_bounded_from t [] h = h
run_bounded_from t (Call.touches now ref ∷ cs) h =
    run_bounded_from (touch now ref t) cs (touch_bounded now ref t h)
run_bounded_from t (Call.untouches ref ∷ cs) h =
    run_bounded_from (untouch ref t) cs (let n = length-delete ref t in ground (arith, n, h))

-- At most eight refs count as used of late, whatever is touched and untouched.
pub run_bounded : (cs : List Call) → length (run [] cs) ≤ protected_cap
run_bounded cs = run_bounded_from [] cs (omega arith)
