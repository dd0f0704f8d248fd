-- ===== src/Deploy/Reports.antt =====
-- The timeouts and the pull reports of Deploy/Jobs keep what Deploy/Warm states.
use birdman.Base.{
  &&-true, Bool-cases, List, Option-cases, String, [], arith, contains, delete, erase_all, false,
  if_cases, inl, inr, insert, lookup, lookup-delete, lookup-insert, nat_eq, refl, some, some_eq,
  string_eq, subst, suc, true, ◌&&◌, ◌+◌, ◌∙◌, ◌∷◌, ◌≡◌, ◌≤◌,
}
use birdman.Deploy.{Effect, Job, Manager, Task, Version, emit, fails, heard, notes, spawn}
use birdman.Deploy.Jobs.{
  PullStatus, find_job, handle_pull_report, note_pulled, other_status, pull_failed, pulled,
}
use birdman.Deploy.Warm.{
  IsAwaiting, IsWarm, Warm, activations, awaited, coming, completions, cost, is_done,
}

-- A task that activates nothing of itself.
pub with_task :
    (jobs : List (String × Job)) (tasks : List Task) (es : List Effect) (t : Task)
    → ((id : String) → cost id t ≡ 0)
    → IsWarm jobs tasks es
    → IsWarm jobs (t ∷ tasks) es
unfolding coming
with_task jobs tasks es t free h = record {
  waits = h.waits;
  paid = λ id. omega (arith, free id, h.paid id);
}

-- A job leaves the map.
without_job :
    (id : String) (jobs : List (String × Job)) (tasks : List Task) (es : List Effect)
    → IsWarm jobs tasks es
    → IsWarm (delete id jobs) tasks es
without_job id jobs tasks es h = record {
  waits = λ i j got. elim (Bool-cases (string_eq.beq id i)) [
    | inl same ↦ absurd (let e = rw (lookup-delete id i jobs, same) at got in cc)
    | inr other ↦ h.waits i j (rw (lookup-delete id i jobs, other) at got)
  ];
  paid = h.paid;
}

find_job-some :
    (ref node : String) (all rest : List (String × Job)) {id : String} {j : Job}
    → find_job ref node all rest ≡ some (id, j)
    → (lookup id all ≡ some j) × (j.version.image_ref ≡ ref) × (contains node j.pending ≡ true)
unfolding find_job
find_job-some ref node all [] h = absurd (cc)
find_job-some ref node all ((key, entry) ∷ rest) {id} {j} h = elim (Option-cases (lookup key all)) [
  | inl e ↦ find_job-some ref node all rest {id = id} {j = j} (rw (e, find_job) at h)
  | inr (k, e) ↦
      elim (Bool-cases (string_eq.beq k.version.image_ref ref && contains node k.pending)) [
        | inr other ↦
            find_job-some ref node all rest {id = id} {j = j} (rw (e, find_job, other) at h)
        | inl mine ↦
            let (image, waits) = &&-true _ _ mine in
            let eq : (key, k) ≡ (id, j) = some_eq (rw (e, find_job, mine) at h) in
            subst
              (λ (p : String × Job).
                (lookup p.0 all ≡ some p.1)
                × (p.1.version.image_ref ≡ ref)
                × (contains node p.1.pending ≡ true))
              eq (e, (string_eq.beq_iff k.version.image_ref ref).0 image, waits)
      ]
]

-- The report that a job waited for last.
last_report :
    (m : Manager) (node id : String) (j : Job)
    → Warm m
    → lookup id m.jobs ≡ some j
    → erase_all node j.pending ≡ []
    → IsWarm (delete id m.jobs) (notes node j.version true ∷ m.tasks) (heard node id ∷ m.effects)
unfolding awaited activations completions coming cost
last_report m node id j h got empty =
    let less = without_job id m.jobs m.tasks m.effects h in
    let (key, waited) = h.waits id j got in
    record {
      waits = λ k j' got'. elim (Bool-cases (string_eq.beq id k)) [
        | inl same ↦ absurd (let e = rw (lookup-delete id k m.jobs, same) at got' in cc)
        | inr other ↦ rw (other, awaited) (less.waits k j' got')
      ];
      paid = λ k. elim (Bool-cases (string_eq.beq id k)) [
        | inr other ↦ rw (key, other) (omega (arith, h.paid k))
        | inl same ↦
            let eq : id ≡ k = (string_eq.beq_iff id k).0 same in
            let here : awaited k m.effects ≡ some j.pending =
              subst (λ i. awaited i m.effects ≡ some j.pending) eq waited in
            rw (key, same) (rw (here, empty) (omega (arith, h.paid k)))
      ];
    }

-- A report while others are still waited for.
other_report :
    (m : Manager) (node id n : String) (ns : List String) (j : Job)
    → Warm m
    → lookup id m.jobs ≡ some j
    → erase_all node j.pending ≡ n ∷ ns
    → IsWarm
        (insert id (record j { pending = n ∷ ns }) m.jobs)
        (notes node j.version false ∷ m.tasks)
        (heard node id ∷ m.effects)
unfolding awaited activations completions coming cost
other_report m node id n ns j h got left =
    let (key, waited) = h.waits id j got in
    let j' : Job = record j { pending = n ∷ ns } in
    record {
      waits = λ k u got'. elim (Bool-cases (string_eq.beq id k)) [
        | inl same ↦
            let eq : id ≡ k = (string_eq.beq_iff id k).0 same in
            let here : awaited k m.effects ≡ some j.pending =
              subst (λ i. awaited i m.effects ≡ some j.pending) eq waited in
            let e : j' ≡ u = some_eq (rw (lookup-insert id k j' m.jobs, same) at got') in
            subst (IsAwaiting (heard node id ∷ m.effects) k) e
              (key ∙ eq, rw (same, awaited) (rw (here, left) refl))
        | inr other ↦
            rw (other, awaited) (h.waits k u (rw (lookup-insert id k j' m.jobs, other) at got'))
      ];
      paid = λ k.
          if_cases (λ c. activations k m.effects + (0 + coming k m.tasks) ≤ c)
            (string_eq.beq id k && is_done (awaited k (heard node id ∷ m.effects)))
            (suc (completions k m.effects)) (completions k m.effects) (omega (arith, h.paid k))
            (omega (arith, h.paid k));
    }

note_pulled-Warm :
    (m : Manager) (node id : String) (j : Job)
    → Warm m
    → lookup id m.jobs ≡ some j
    → Warm (note_pulled m node id j)
unfolding note_pulled
note_pulled-Warm m node id j h got =
    elim (erase_all node j.pending)
        as (λ left.
          erase_all node j.pending ≡ left
          → Warm (elim left [
            | [] ↦
                spawn (emit (record m { jobs = delete id m.jobs }) (heard node id))
                  (notes node j.version true)
            | n ∷ ns ↦
                spawn
                  (emit (record m { jobs = insert id (record j { pending = n ∷ ns }) m.jobs })
                    (heard node id))
                  (notes node j.version false)
          ])) [
            | [] ↦ λ e. last_report m node id j h got e
            | n ∷ ns ↦ λ e. other_report m node id n ns j h got e
          ]
      refl

fails_free : (id : String) (v : Version) → cost id (fails v) ≡ 0
unfolding cost
fails_free id v = refl

-- A job is given up.
pub given_up :
    (m : Manager) (id : String) (v : Version)
    → Warm m
    → Warm (spawn (record m { jobs = delete id m.jobs }) (fails v))
given_up m id v h =
    with_task (delete id m.jobs) m.tasks m.effects (fails v) (λ i. fails_free i v)
      (without_job id m.jobs m.tasks m.effects h)

pub report-Warm :
    (m : Manager) (node ref : String) (status : PullStatus)
    → Warm m
    → Warm (handle_pull_report m node ref status)
unfolding handle_pull_report
report-Warm m node ref other_status h = h
report-Warm m node ref pulled h = elim (Option-cases (find_job ref node m.jobs m.jobs)) [
  | inl e ↦ rw (e, handle_pull_report) h
  | inr ((id, j), e) ↦
      rw (e, handle_pull_report)
        (note_pulled-Warm m node id j h
          (find_job-some ref node m.jobs m.jobs {id = id} {j = j} e).0)
]
report-Warm m node ref pull_failed h = elim (Option-cases (find_job ref node m.jobs m.jobs)) [
  | inl e ↦ rw (e, handle_pull_report) h
  | inr ((id, j), e) ↦ rw (e, handle_pull_report) (given_up m id j.version h)
]
