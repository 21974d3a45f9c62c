-- ===== src/Pipeline/Worker/Progress.antt =====
-- The number of steps of the workers of src/pipeline/worker.rs, and which steps are possible.
use mathlib.Core.Path.{subst}
use mathlib.Core.Option.{some-injective, none-ne-some}
use chain_lens.Base.{
  ◌≢◌, ◌⊎◌, In, ℕ, zero, suc, ◌+◌, ◌*◌, ◌≤◌, ◌<◌, ◌≡◌, ◌∙◌, refl, ap, inl, inr, some, List, [], ◌∷◌,
  ◌++◌, true, false, length, arith, Outcome, ok, err, panic, Option-cases, Bool-cases,
}
use chain_lens.Pipeline.Worker.{
  Workers, Choice, take_next, finish, remove_at, finished, taken, step, steps, spawn_workers,
  is_done,
}
use chain_lens.Pipeline.Worker.Schedules.{remove_at-Leaves, done_empty, steps-staffed}

module _ {E B : Type 0} (fetch : ℕ → Outcome E B) where
  -- What is left to do: each number is taken and then finished.
  abbrev pub work : Workers B → ℕ
  work w = 2 * length w.pending + length w.in_flight

  taken-work :
      (idle : ℕ) (pending : List ℕ) (w : Workers B) {w' : Workers B}
      → w.pending ≡ pending
      → taken fetch idle pending w ≡ some w'
      → work w' < work w
  unfolding taken
  taken-work zero pending w p h = absurd (none-ne-some _ h)
  taken-work (suc idle) [] w p h = absurd (none-ne-some _ h)
  taken-work (suc idle) (n ∷ rest) w p h =
      subst (λ v. work v < work w) (some-injective _ _ h) (ground (arith, p))

  finished-work : (n : ℕ) (w : Workers B) (o : Outcome E B) → work (finished fetch n w o) ≡ work w
  unfolding finished
  finished-work n w (ok b) = refl
  finished-work n w (err e) = refl
  finished-work n w panic = refl

  step-work :
      (c : Choice) (w : Workers B) {w' : Workers B} → step fetch c w ≡ some w' → work w' < work w
  unfolding step
  step-work take_next w h = taken-work w.idle w.pending w refl h
  step-work (finish i) w {w'} h = elim (Option-cases (remove_at i w.in_flight)) [
    | inl nothing ↦ absurd (ground arith)
    | inr ((n, rest), found) ↦
        let v : Workers B = record w { in_flight = rest } in
        let e : ◌≡◌ {A = Workers B} (finished fetch n v (fetch n)) w' = ground arith in
        let less : work v < work w = omega (arith, (remove_at-Leaves i w.in_flight found).2) in
        subst (λ u. work u < work w) e (rw (finished-work n v (fetch n)) less)
  ]

  steps-work :
      (cs : List Choice) (w : Workers B) {w' : Workers B}
      → steps fetch cs w ≡ some w'
      → length cs + work w' ≤ work w
  unfolding steps
  steps-work [] w h = subst (λ v. 0 + work v ≤ work w) (some-injective _ _ h) (omega arith)
  steps-work (c ∷ cs) w {w'} h = elim (Option-cases (step fetch c w)) [
    | inl nothing ↦ absurd (ground arith)
    | inr (next, found) ↦
        omega (arith, steps-work cs next {w' = w'} (ground arith), step-work c w found)
  ]

  -- A step of workers that have not come to an end.
  step_possible :
      (w : Workers B)
      → is_done w ≡ false
      → (c : Choice) × (w' : Workers B) × (step fetch c w ≡ some w')
  unfolding step remove_at taken
  step_possible w = go w.in_flight w.pending w.idle refl refl refl
    where
      go :
          (in_flight pending : List ℕ) (idle : ℕ)
          → w.in_flight ≡ in_flight
          → w.pending ≡ pending
          → w.idle ≡ idle
          → is_done w ≡ false
          → (c : Choice) × (w' : Workers B) × (step fetch c w ≡ some w')
      go (n ∷ rest) pending idle f p i d =
          (finish 0, finished fetch n (record w { in_flight = rest }) (fetch n), ground (arith, f))
      go [] [] idle f p i d = absurd (ground (arith, f, p))
      go [] (n ∷ rest) zero f p i d = absurd (ground (arith, f, p, i))
      go [] (n ∷ rest) (suc idle) f p i d = (
        take_next,
        record w { idle = idle; pending = rest; in_flight = n ∷ w.in_flight },
        ground (arith, p, i),
      )

  -- A run of the workers takes at most two steps for each number. If there is a worker and no fetch
  -- panics, no worker is lost, whatever fetches fail, and some step is possible until the queue is
  -- empty and every fetch has ended: an idle worker takes the next number, or a fetch ends.
  pub workers_terminate :
      (worker_count : ℕ) (numbers : List ℕ) (cs : List Choice) (w : Workers B)
      → steps fetch cs (spawn_workers worker_count numbers) ≡ some w
      → 0 < worker_count
      → ((k : ℕ) → In k numbers → fetch k ≢ panic)
      → (length cs ≤ 2 * length numbers)
        × (w.idle + length w.in_flight ≡ worker_count)
        × (((w.pending ≡ []) × (w.in_flight ≡ []))
            ⊎ ((c : Choice) × (w' : Workers B) × (step fetch c w ≡ some w')))
  unfolding spawn_workers
  workers_terminate worker_count numbers cs w h some_worker calm =
      let kept = steps-staffed fetch worker_count numbers cs w h calm in
      (
        omega (arith, steps-work cs (spawn_workers worker_count numbers) h),
        kept,
        elim (Bool-cases (is_done w)) [
          | inr going ↦ inr (step_possible w going)
          | inl ended ↦
              let (no_flight, ends) = done_empty fetch worker_count numbers w ended in
              elim ends [
                | inl empty ↦ inl (empty, no_flight)
                | inr none_idle ↦ absurd (ground (arith, kept, no_flight, some_worker, none_idle))
              ]
        ],
      )

  steps-step :
      (c : Choice) (cs : List Choice) (w : Workers B) {v : Workers B}
      → step fetch c w ≡ some v
      → steps fetch (c ∷ cs) w ≡ steps fetch cs v
  unfolding steps
  steps-step c cs w found = rw (steps, found) refl

  pub steps-append :
      (cs more : List Choice) (w : Workers B) {v : Workers B}
      → steps fetch cs w ≡ some v
      → steps fetch (cs ++ more) w ≡ steps fetch more v
  unfolding steps
  steps-append [] more w h = ap (steps fetch more) (some-injective _ _ h)
  steps-append (c ∷ cs) more w {v} h = elim (Option-cases (step fetch c w)) [
    | inl nothing ↦ absurd (ground arith)
    | inr (next, found) ↦
        steps-step c (cs ++ more) w found ∙ steps-append cs more next {v = v} (ground arith)
  ]

  -- From every state the workers can come to an end.
  pub steps-end :
      (fuel : ℕ) (w : Workers B)
      → work w ≤ fuel
      → (more : List Choice) × (w' : Workers B) × (steps fetch more w ≡ some w')
        × (is_done w' ≡ true)
  unfolding steps
  steps-end zero w enough = elim (Bool-cases (is_done w)) [
    | inl ended ↦ ([], w, refl, ended)
    | inr going ↦
        let (c, v, found) = step_possible w going in
        let less = step-work c w found in absurd (omega arith)
  ]
  steps-end (suc fuel) w enough = elim (Bool-cases (is_done w)) [
    | inl ended ↦ ([], w, refl, ended)
    | inr going ↦
        let (c, v, found) = step_possible w going in
        let (more, w', reached, ended) = steps-end fuel v (omega (arith, step-work c w found)) in
        (c ∷ more, w', steps-step c more w found ∙ reached, ended)
  ]
