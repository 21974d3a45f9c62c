-- ===== src/Pipeline/Worker/Schedules.antt =====
-- The interleavings of the workers of src/pipeline/worker.rs.
use mathlib.Core.Path.{subst}
use mathlib.Core.Option.{some-injective, none-ne-some}
use chain_lens.Base.{
  ℕ, zero, suc, ◌+◌, ◌<◌, ◌≡◌, ◌≢◌, refl, sym, ◌⊎◌, inl, inr, ◌↔◌, some, List, [], ◌∷◌, ◌++◌, true,
  length, arith, Outcome, ok, err, panic, Option-cases,
}
use chain_lens.Base.{In, In-append_left, In-append_last, In-append_cases}
use chain_lens.Pipeline.Worker.{
  Workers, Choice, take_next, finish, remove_at, finished, taken, step, steps, spawn_workers,
  is_done,
}

-- What a removal takes, and what it leaves.
abbrev pub Leaves : List ℕ → ℕ × List ℕ → Type 0
Leaves ns (n, rest) =
    ((k : ℕ) → In k ns → (k ≡ n) ⊎ In k rest)
    × ((k : ℕ) → (k ≡ n) ⊎ In k rest → In k ns)
    × (length ns ≡ length rest + 1)

Leaves-head : (x : ℕ) (ns : List ℕ) → Leaves (x ∷ ns) (x, ns)
Leaves-head x ns = (λ k h. h, λ k h. h, omega arith)

Leaves-tail : (x n : ℕ) (ns rest : List ℕ) → Leaves ns (n, rest) → Leaves (x ∷ ns) (n, x ∷ rest)
Leaves-tail x n ns rest (there, back, size) = (before, after, omega (arith, size))
  where
    before : (k : ℕ) → In k (x ∷ ns) → (k ≡ n) ⊎ In k (x ∷ rest)
    before k (inl h) = inr (inl h)
    before k (inr h) = elim (there k h) [ inl is ↦ inl is | inr other ↦ inr (inr other) ]

    after : (k : ℕ) → (k ≡ n) ⊎ In k (x ∷ rest) → In k (x ∷ ns)
    after k (inl is) = inr (back k (inl is))
    after k (inr (inl h)) = inl h
    after k (inr (inr h)) = inr (back k (inr h))

pub remove_at-Leaves :
    (i : ℕ) (ns : List ℕ) {p : ℕ × List ℕ} → remove_at i ns ≡ some p → Leaves ns p
unfolding remove_at
remove_at-Leaves i [] h = absurd (none-ne-some _ h)
remove_at-Leaves zero (x ∷ ns) h = subst (Leaves (x ∷ ns)) (some-injective _ _ h) (Leaves-head x ns)
remove_at-Leaves (suc i) (x ∷ ns) {p} h = elim (Option-cases (remove_at i ns)) [
  | inl nothing ↦ absurd (ground arith)
  | inr ((m, rest), found) ↦
      let e : ◌≡◌ {A = ℕ × List ℕ} (m, x ∷ rest) p = ground arith in
      subst (Leaves (x ∷ ns)) e (Leaves-tail x m ns rest (remove_at-Leaves i ns found))
]

module _ {E B : Type 0} (fetch : ℕ → Outcome E B) (worker_count : ℕ) (numbers : List ℕ) where
  -- What is true of the workers at any time.
  pub record Spreads (w : Workers B) : Type 0 where
    pub accounted :
        (k : ℕ)
        → In k numbers
        → In k w.pending ⊎ (In k w.in_flight ⊎ ((b : B) → fetch k ≡ ok b → In (k, b) w.delivered))
    pub honest : (p : ℕ × B) → In p w.delivered → In p.0 numbers × (fetch p.0 ≡ ok p.1)
    pub held : (k : ℕ) → In k w.pending ⊎ In k w.in_flight → In k numbers
    pub staffed :
        ((k : ℕ) → In k numbers → fetch k ≢ panic) → w.idle + length w.in_flight ≡ worker_count

  taken-Spreads :
      (idle : ℕ) (pending : List ℕ) (w : Workers B) {w' : Workers B}
      → w.idle ≡ idle
      → w.pending ≡ pending
      → taken fetch idle pending w ≡ some w'
      → Spreads w
      → Spreads w'
  unfolding taken
  taken-Spreads zero pending w i p h s = absurd (none-ne-some _ h)
  taken-Spreads (suc idle) [] w i p h s = absurd (none-ne-some _ h)
  taken-Spreads (suc idle) (n ∷ rest) w i p h s = subst Spreads (some-injective _ _ h) (record {
    accounted = λ k m. elim (s.accounted k m) [
      | inl waits ↦ elim (subst (In k) p waits) [
        | inl here ↦ inr (inl (inl here))
        | inr there ↦ inl there
      ]
      | inr (inl works) ↦ inr (inl (inr works))
      | inr (inr sent) ↦ inr (inr sent)
    ];
    honest = s.honest;
    held = λ k m. elim m [
      | inl waits ↦ s.held k (inl (subst (In k) (sym p) (inr waits)))
      | inr (inl here) ↦ s.held k (inl (subst (In k) (sym p) (inl here)))
      | inr (inr works) ↦ s.held k (inr works)
    ];
    staffed = λ f. omega (arith, s.staffed f, i);
  })

  module _ (n : ℕ) (rest : List ℕ) (w : Workers B) (l : Leaves w.in_flight (n, rest))
      (s : Spreads w) where
    -- Where a number is, if the fetch of `n` puts it into what is sent.
    accounted_after :
        (sent : List (ℕ × B))
        → ((b : B) → fetch n ≡ ok b → In (n, b) sent)
        → ((p : ℕ × B) → In p w.delivered → In p sent)
        → (k : ℕ) → In k numbers
        → In k w.pending ⊎ (In k rest ⊎ ((b : B) → fetch k ≡ ok b → In (k, b) sent))
    accounted_after sent this others k m = elim (s.accounted k m) [
      | inl waits ↦ inl waits
      | inr (inr before) ↦ inr (inr (λ b e. others (k, b) (before b e)))
      | inr (inl works) ↦ elim (l.0 k works) [
        | inl is ↦ inr (inr (subst (λ j. (b : B) → fetch j ≡ ok b → In (j, b) sent) (sym is) this))
        | inr other ↦ inr (inl other)
      ]
    ]

    held_after : (k : ℕ) → In k w.pending ⊎ In k rest → In k numbers
    held_after k (inl waits) = s.held k (inl waits)
    held_after k (inr works) = s.held k (inr (l.1 k (inr works)))

    n_held : In n numbers
    n_held = s.held n (inr (l.1 n (inl refl)))

    finished-Spreads :
        (o : Outcome E B)
        → fetch n ≡ o
        → Spreads (finished fetch n (record w { in_flight = rest }) o)
    unfolding finished
    finished-Spreads (ok b) e = record {
      accounted =
          accounted_after (w.delivered ++ (n, b) ∷ [])
            (λ c f.
              let same : b ≡ c = ground (arith, e, f) in
              subst (λ c. In (n, c) (w.delivered ++ (n, b) ∷ [])) same
                (In-append_last (n, b) w.delivered))
            (λ p. In-append_left p w.delivered ((n, b) ∷ []));
      honest = λ p h. elim (In-append_cases p (n, b) w.delivered h) [
        | inl before ↦ s.honest p before
        | inr is ↦ subst (λ p. In p.0 numbers × (fetch p.0 ≡ ok p.1)) (sym is) (n_held, e)
      ];
      held = held_after;
      staffed = λ f. omega (arith, s.staffed f, l.2);
    }
    finished-Spreads (err x) e = record {
      accounted = accounted_after w.delivered (λ c f. absurd (ground (arith, e, f))) (λ p h. h);
      honest = s.honest;
      held = held_after;
      staffed = λ f. omega (arith, s.staffed f, l.2);
    }
    finished-Spreads panic e = record {
      accounted = accounted_after w.delivered (λ c f. absurd (ground (arith, e, f))) (λ p h. h);
      honest = s.honest;
      held = held_after;
      staffed = λ f. absurd (f n n_held e);
    }

  step-Spreads :
      (c : Choice) (w : Workers B) {w' : Workers B}
      → step fetch c w ≡ some w'
      → Spreads w
      → Spreads w'
  unfolding step
  step-Spreads take_next w h s = taken-Spreads w.idle w.pending w refl refl h s
  step-Spreads (finish i) w {w'} h s = elim (Option-cases (remove_at i w.in_flight)) [
    | inl nothing ↦ absurd (ground arith)
    | inr ((n, rest), found) ↦
        let e : ◌≡◌ {A = Workers B} (finished fetch n (record w { in_flight = rest }) (fetch n))
            w' =
          ground arith in
        subst Spreads e
          (finished-Spreads n rest w (remove_at-Leaves i w.in_flight found) s (fetch n) refl)
  ]

  steps-Spreads :
      (cs : List Choice) (w : Workers B) {w' : Workers B}
      → steps fetch cs w ≡ some w'
      → Spreads w
      → Spreads w'
  unfolding steps
  steps-Spreads [] w h s = subst Spreads (some-injective _ _ h) s
  steps-Spreads (c ∷ cs) w h s = elim (Option-cases (step fetch c w)) [
    | inl nothing ↦ absurd (ground arith)
    | inr (next, found) ↦ steps-Spreads cs next (ground arith) (step-Spreads c w found s)
  ]

  start-Spreads : Spreads (spawn_workers worker_count numbers)
  unfolding spawn_workers
  start-Spreads = record {
    accounted = λ k h. inl h;
    honest = λ p h. absurd h;
    held = λ k m. elim m [ inl h ↦ h | inr h ↦ absurd h ];
    staffed = λ f. omega arith;
  }

  -- No worker is lost when no fetch panics.
  pub steps-staffed :
      (cs : List Choice) (w : Workers B)
      → steps fetch cs (spawn_workers worker_count numbers) ≡ some w
      → ((k : ℕ) → In k numbers → fetch k ≢ panic)
      → w.idle + length w.in_flight ≡ worker_count
  steps-staffed cs w h =
      (steps-Spreads cs (spawn_workers worker_count numbers) h start-Spreads).staffed

  -- Nothing is left for workers that have come to an end.
  pub done_empty :
      (w : Workers B) → is_done w ≡ true → (w.in_flight ≡ []) × ((w.pending ≡ []) ⊎ (w.idle ≡ 0))
  done_empty w h = go w.in_flight w.pending w.idle refl refl refl h
    where
      go :
          (in_flight pending : List ℕ) (idle : ℕ)
          → w.in_flight ≡ in_flight
          → w.pending ≡ pending
          → w.idle ≡ idle
          → is_done w ≡ true
          → (w.in_flight ≡ []) × ((w.pending ≡ []) ⊎ (w.idle ≡ 0))
      go [] [] idle f p i h = (f, inl p)
      go [] (x ∷ pending) zero f p i h = (f, inr i)
      go [] (x ∷ pending) (suc idle) f p i h = absurd (ground (arith, f, p, i))
      go (x ∷ in_flight) pending idle f p i h = absurd (ground (arith, f))

  -- However the workers interleave, once they have come to an end they have delivered exactly the
  -- blocks of the queue whose fetch succeeded, each with its number, if there is a worker at all
  -- and no fetch panics.
  pub workers_iff :
      (cs : List Choice) (w : Workers B)
      → steps fetch cs (spawn_workers worker_count numbers) ≡ some w
      → is_done w ≡ true
      → 0 < worker_count
      → ((k : ℕ) → In k numbers → fetch k ≢ panic)
      → (p : ℕ × B) → In p w.delivered ↔ (In p.0 numbers × (fetch p.0 ≡ ok p.1))
  workers_iff cs w h d some_worker calm p =
      let s = steps-Spreads cs (spawn_workers worker_count numbers) h start-Spreads in
      let (no_flight, ends) = done_empty w d in
      let full = s.staffed calm in
      let nothing : w.pending ≡ [] = elim ends [
        | inl e ↦ e
        | inr i ↦ absurd (ground (arith, full, no_flight, some_worker, i))
      ] in
      (
        s.honest p,
        λ (m, e). elim (s.accounted p.0 m) [
          | inl waits ↦ absurd (subst (In p.0) nothing waits)
          | inr (inl works) ↦ absurd (subst (In p.0) no_flight works)
          | inr (inr sent) ↦ sent p.1 e
        ],
      )
