-- ===== src/Pipeline/Sequencer/Order.antt =====
-- The order and the extent of what src/pipeline/sequencer.rs sends.
use mathlib.Core.List.{append-nil, append_assoc}
use mathlib.Core.Path.{subst}
use chain_lens.Base.{
  ℕ, zero, suc, ◌+◌, ◌≤◌, ◌<◌, ◌≡◌, refl, sym, ◌∙◌, ap, ltb, List, [], ◌∷◌, ◌++◌, true, false, ◌==◌,
  length, arith, inl, inr, All, All-append, Bool-cases, Option-cases, ◌↔◌,
}
use chain_lens.Pipeline.Sequencer.{
  State, insert, remove, drain, drain_buffer, receive, receive_all, run,
}
use chain_lens.Base.{In, In-append_left, In-append_last}
use chain_lens.Pipeline.Sequencer.Maps.{
  has, has-append, has-insert, All-insert, remove-none, remove-some, remove-All,
}

-- The keys are `e`, `e + 1`, … up to `n`, which is left out.
abbrev pub Consecutive {ℓ} : {B : Type ℓ} → ℕ → List (ℕ × B) → ℕ → Type 0
Consecutive e [] n = e ≡ n
Consecutive e (p ∷ ps) n = (p.0 ≡ e) × Consecutive (e + 1) ps n

Consecutive-append {ℓ} :
    {B : Type ℓ} (e n : ℕ) (b : B) (ps : List (ℕ × B))
    → Consecutive e ps n
    → Consecutive e (ps ++ (n, b) ∷ []) (n + 1)
Consecutive-append e n b [] h = (sym h, ap (λ t. t + 1) h)
Consecutive-append e n b (p ∷ ps) h = (h.0, Consecutive-append (e + 1) n b ps h.1)

pub Consecutive-le {ℓ} :
    {B : Type ℓ} (e n : ℕ) (ps : List (ℕ × B)) → Consecutive e ps n → e + length ps ≡ n
Consecutive-le e n [] h = omega arith
Consecutive-le e n (p ∷ ps) h = omega (arith, Consecutive-le (e + 1) n ps h.1)

module _ {B : Type 0} (e : ℕ) where
  -- What holds when the messages `seen` have come in.
  pub record Tracks (seen : List (ℕ × B)) (s : State B) : Type 0 where
    pub in_order : Consecutive e s.sent s.expected
    pub sent_seen : All (λ p. In p seen) s.sent
    pub buffer_seen : All (λ p. In p seen) s.buffer
    pub waits : (k : ℕ) → s.expected ≤ k → has k seen ≡ has k s.buffer

  drain-Tracks :
      (fuel : ℕ) (seen : List (ℕ × B)) (s : State B)
      → Tracks seen s
      → length s.buffer ≤ fuel
      → Tracks seen (drain fuel s) × (has (drain fuel s).expected (drain fuel s).buffer ≡ false)
  unfolding drain
  drain-Tracks zero seen s t f = (t, empty s.buffer f)
    where
      empty : (m : List (ℕ × B)) → length m ≤ 0 → has s.expected m ≡ false
      empty [] h = refl
      empty (x ∷ m) h = absurd (omega arith)
  drain-Tracks (suc fuel) seen s t f = elim (Option-cases (remove s.expected s.buffer)) [
    | inl nothing ↦ rw (nothing, drain) (t, remove-none s.expected s.buffer nothing)
    | inr ((b, buffer), found) ↦
        let (there, size, others) = remove-some s.expected s.buffer found in
        let (here, rest) = remove-All (λ p. In p seen) s.expected s.buffer found t.buffer_seen in
        let s' : State B = record {
          buffer = buffer;
          expected = s.expected + 1;
          sent = s.sent ++ (s.expected, b) ∷ [];
        } in
        let t' : Tracks seen s' = record {
          in_order = Consecutive-append e s.expected b s.sent t.in_order;
          sent_seen =
              All-append (λ p. In p seen) s.sent ((s.expected, b) ∷ []) t.sent_seen (here, tt);
          buffer_seen = rest;
          waits = λ k h. t.waits k (omega arith) ∙ sym (others k (omega arith));
        } in
        rw (found, drain) (drain-Tracks fuel seen s' t' (omega arith))
  ]

  All-implies {κ μ} :
      (P : ℕ × B → Type κ) (Q : ℕ × B → Type μ) (xs : List (ℕ × B))
      → ((x : ℕ × B) → P x → Q x)
      → All P xs
      → All Q xs
  All-implies P Q [] f h = tt
  All-implies P Q (x ∷ xs) f h = (f x h.0, All-implies P Q xs f h.1)

  receive-Tracks :
      (seen : List (ℕ × B)) (s : State B) (m : ℕ × B)
      → Tracks seen s
      → Tracks (seen ++ m ∷ []) (receive s m)
        × (has (receive s m).expected (receive s m).buffer ≡ false)
  unfolding receive drain_buffer
  receive-Tracks seen s (number, block) t =
      let m : ℕ × B = (number, block) in
      let s' : State B = record s { buffer = insert number block s.buffer } in
      let more = λ (p : ℕ × B) (h : In p seen). In-append_left p seen (m ∷ []) h in
      let t' : Tracks (seen ++ m ∷ []) s' = record {
        in_order = t.in_order;
        sent_seen = All-implies _ _ s.sent more t.sent_seen;
        buffer_seen =
            All-insert (λ p. In p (seen ++ m ∷ [])) number block s.buffer (In-append_last m seen)
              (All-implies _ _ s.buffer more t.buffer_seen);
        waits = λ k h.
            ground
              (arith, has-append k seen (m ∷ []), has-insert k number block s.buffer, t.waits k h);
      } in
      drain-Tracks (length s'.buffer) (seen ++ m ∷ []) s' t' (omega arith)

  receive_all-Tracks :
      (messages seen : List (ℕ × B)) (s : State B)
      → Tracks seen s
      → Tracks (seen ++ messages) (receive_all s messages)
  unfolding receive_all
  receive_all-Tracks [] seen s t = rw append-nil t
  receive_all-Tracks (m ∷ messages) seen s t =
      subst (λ l. Tracks l (receive_all (receive s m) messages))
        (append_assoc seen (m ∷ []) messages)
        (receive_all-Tracks messages (seen ++ m ∷ []) (receive s m) (receive-Tracks seen s m t).0)

  run-Tracks :
      (messages : List (ℕ × B))
      → Tracks messages (run messages e)
        × (has (run messages e).expected (run messages e).buffer ≡ false)
  unfolding run drain_buffer
  run-Tracks messages =
      let start : State B = record { buffer = []; expected = e; sent = [] } in
      let t : Tracks [] start = record {
        in_order = refl;
        sent_seen = tt;
        buffer_seen = tt;
        waits = λ k h. refl;
      } in
      let s = receive_all start messages in
      drain-Tracks (length s.buffer) messages s (receive_all-Tracks messages [] start t)
        (omega arith)

  pub In-has : (p : ℕ × B) (seen : List (ℕ × B)) → In p seen → has p.0 seen ≡ true
  In-has p [] h = absurd h
  In-has p (x ∷ seen) (inl h) = let same : p.0 ≡ x.0 = ap (λ q. q.0) h in ground (arith, same)
  In-has p (x ∷ seen) (inr h) = ground (arith, In-has p seen h)

  Consecutive-has :
      (first last : ℕ) (sent seen : List (ℕ × B))
      → Consecutive first sent last
      → All (λ p. In p seen) sent
      → (m : ℕ) → first ≤ m
      → m < last
      → has m seen ≡ true
  Consecutive-has first last [] seen c a m l h = absurd (omega (arith, c))
  Consecutive-has first last (p ∷ ps) seen c a m l h = elim (Bool-cases (m == first)) [
    | inl same ↦
        let here : p.0 ≡ m = ground (arith, c.0) in
        subst (λ k. has k seen ≡ true) here (In-has p seen a.0)
    | inr other ↦
        let next : first + 1 ≤ m = ground arith in
        Consecutive-has (first + 1) last ps seen c.1 a.1 m next h
  ]

  -- A run sends the blocks from `expected` on in the order of their numbers, without a gap, and
  -- each is one that was received, with its content.
  pub run-Consecutive :
      (messages : List (ℕ × B))
      → Consecutive e (run messages e).sent (run messages e).expected
        × All (λ p. In p messages) (run messages e).sent
  run-Consecutive messages = let t = (run-Tracks messages).0 in (t.in_order, t.sent_seen)

  pub run_iff :
      (messages : List (ℕ × B)) (n : ℕ)
      → e ≤ n
      → (n < (run messages e).expected) ↔ ((m : ℕ) → e ≤ m → m ≤ n → has m messages ≡ true)
  run_iff messages n from =
      let (t, stops) = run-Tracks messages in
      let s = run messages e in
      let reach : e ≤ s.expected = omega (arith, Consecutive-le e s.expected s.sent t.in_order) in
      (
        λ h m l u.
            Consecutive-has e s.expected s.sent messages t.in_order t.sent_seen m l (omega arith),
        λ h. elim (Bool-cases (ltb n s.expected)) [
          | inl below ↦ ground arith
          | inr above ↦
              let over : s.expected ≤ n = ground arith in
              absurd
                (ground (arith, h s.expected reach over, t.waits s.expected (omega arith), stops))
        ],
      )
