-- ===== src/Agent/Ports/Ownership.antt =====
-- Who owns a port: the pool's invariant, and what each call grants.
use birdman.Base.{
  All, IsDistinct, List, Option-cases, [], arith, contains, contains-erase_all, erase_all, false,
  inl, inr, nat_eq, negsuc, pos, refl, some, string_eq, suc, zero, ℕ, ℤ, ◌+◌, ◌-◌, ◌<◌, ◌∷◌, ◌≡◌,
  ◌≤◌,
}
use birdman.Agent.Ports.{
  Call, Pool, acquire, acquire_specific, acquires, claims, first_free, granted, max_port, new,
  release, releases, run, step,
}

abbrev pub IsWithin : ℕ → ℕ → List ℕ → Type 0
IsWithin lo hi = All (λ port. (lo ≤ port) × (port ≤ hi))

-- What holds of a pool between two calls.
pub record Inv (p : Pool) : Type 0 where
  pub valid : (0 < p.from) × (p.from ≤ p.to) × (p.to ≤ max_port)
  pub within : IsWithin p.from p.to p.in_use
  pub distinct : IsDistinct p.in_use

erase_all-IsWithin :
    (lo hi port : ℕ) (xs : List ℕ) → IsWithin lo hi xs → IsWithin lo hi (erase_all port xs)
erase_all-IsWithin lo hi port [] h = h
erase_all-IsWithin lo hi port (x ∷ xs) h = ground (arith, erase_all-IsWithin lo hi port xs h.1)

pub first_free-some :
    (used : List ℕ) (left port : ℕ) {q : ℕ}
    → first_free used left port ≡ some q
    → (port ≤ q) × (q < port + left) × (contains q used ≡ false)
unfolding first_free
first_free-some used zero port h = cc
first_free-some used (suc left) port {q} h =
    ground (arith, first_free-some used left (port + 1) {q = q})

pub new-Inv : (from to : ℤ) {p : Pool} → new from to ≡ some p → Inv p
unfolding new
new-Inv (pos from) (pos to) h = ground arith
new-Inv (pos from) (negsuc to) h = cc
new-Inv (negsuc from) to h = cc

pub erase_all-IsDistinct : (port : ℕ) (xs : List ℕ) → IsDistinct xs → IsDistinct (erase_all port xs)
erase_all-IsDistinct port [] h = h
erase_all-IsDistinct port (x ∷ xs) h =
    ground (arith, erase_all-IsDistinct port xs h.1, contains-erase_all x port xs)

pub acquire-Inv : (p : Pool) → Inv p → Inv (acquire p).0
unfolding acquire
acquire-Inv p v = elim (Option-cases (first_free p.in_use (p.to + 1 - p.from) p.from)) [
  | inl e ↦ rw (e, acquire) v
  | inr (q, e) ↦
      let found = first_free-some p.in_use (p.to + 1 - p.from) p.from e in
      rw (e, acquire)
        (record {
          valid = v.valid;
          within = (omega arith, v.within);
          distinct = (found.2, v.distinct);
        })
]

pub acquire_specific-Inv : (p : Pool) (port : ℕ) → Inv p → Inv (acquire_specific p port).0
unfolding acquire_specific
acquire_specific-Inv p port v = ground arith

pub release-Inv : (p : Pool) (port : ℕ) → Inv p → Inv (release p port).0
unfolding release
release-Inv p port v = ground (
  arith,
  erase_all-IsWithin p.from p.to port p.in_use v.within,
  erase_all-IsDistinct port p.in_use v.distinct,
)

step-Inv : (p : Pool) (c : Call) → Inv p → Inv (step p c)
unfolding step
step-Inv p acquires v = acquire-Inv p v
step-Inv p (claims port) v = acquire_specific-Inv p port v
step-Inv p (releases port) v = release-Inv p port v

pub run-Inv : (p : Pool) (cs : List Call) → Inv p → Inv (run p cs)
unfolding run
run-Inv p [] v = v
run-Inv p (c ∷ cs) v = run-Inv (step p c) cs (step-Inv p c v)

-- Whatever calls are made on a pool that `New` built, its ports stay inside a valid range and no
-- port is owned twice.
pub run-new-Inv : (from to : ℤ) (p : Pool) (cs : List Call) → new from to ≡ some p → Inv (run p cs)
run-new-Inv from to p cs h = run-Inv p cs (new-Inv from to h)

pub erase_all-absent : (port : ℕ) (xs : List ℕ) → contains port xs ≡ false → erase_all port xs ≡ xs
erase_all-absent port [] h = refl
erase_all-absent port (x ∷ xs) h = ground (arith, erase_all-absent port xs)

-- A port that `Acquire` grants lies in the range, was free, and is given back by `Release`, which
-- leaves the pool exactly as it was before the two calls.
pub acquire-release :
    (p : Pool) (port : ℕ)
    → (acquire p).1 ≡ granted port
    → (p.from ≤ port)
      × (port ≤ p.to)
      × (contains port p.in_use ≡ false)
      × (release (acquire p).0 port ≡ (p, granted port))
unfolding acquire release
acquire-release p port h = ground (
  arith,
  first_free-some p.in_use (p.to + 1 - p.from) p.from {q = port},
  erase_all-absent port p.in_use,
)
