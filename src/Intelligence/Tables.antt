-- ===== src/Intelligence/Tables.antt =====
-- A `HashMap` that is filled once and then only read, as the tables of src/intelligence/.
use mathlib.Core.Path.{subst}
use mathlib.Core.Option.{some-injective, none-ne-some}
use chain_lens.Base.{
  ◌≡◌, sym, ap, ◌↔◌, ◌⊎◌, inl, inr, Option, none, some, List, [], ◌∷◌, map, if◌then◌else◌, bytes_eq,
  bytes_eq_iff, Bool-cases, arith, In, Nodup,
}
use chain_lens.Domain.{Bytes}

module _ {V : Type 0} where
  unfoldable pub get : Bytes → List (Bytes × V) → Option V
  get key [] = none
  get key ((k, v) ∷ m) = if bytes_eq key k then some v else get key m

  -- Statements `m.insert(key, value)` one after the other; the last one with a key stays.
  unfoldable pub inserted : List (Bytes × V) → List (Bytes × V) → List (Bytes × V)
  inserted [] m = m
  inserted (entry ∷ entries) m = inserted entries (entry ∷ m)

  abbrev pub keys : List (Bytes × V) → List Bytes
  keys entries = map (λ e. e.0) entries

  get_head :
      (key k : Bytes) (v w : V) (m : List (Bytes × V))
      → (get key ((k, v) ∷ m) ≡ some w)
        ↔ (((key ≡ k) × (v ≡ w)) ⊎ ((¬ (key ≡ k)) × (get key m ≡ some w)))
  unfolding get
  get_head key k v w m = elim (Bool-cases (bytes_eq key k)) [
    | inl same ↦
        let e = (bytes_eq_iff key k).0 same in
        rw same (
          λ h. inl (e, some-injective _ _ h),
          λ h. elim h [ inl (_, f) ↦ ap some f | inr (other, _) ↦ absurd (other e) ],
        )
    | inr differ ↦
        let apart : ¬ (key ≡ k) = λ e. ground (arith, differ, (bytes_eq_iff key k).1 e) in
        rw differ
          (λ h. inr (apart, h), λ h. elim h [ inl (e, _) ↦ absurd (apart e) | inr (_, g) ↦ g ])
  ]

  inserted_from_iff :
      (entries m : List (Bytes × V)) (key : Bytes) (w : V)
      → Nodup (keys entries)
      → (get key (inserted entries m) ≡ some w)
        ↔ (In (key, w) entries ⊎ ((¬ In key (keys entries)) × (get key m ≡ some w)))
  unfolding inserted
  inserted_from_iff [] m key w n =
      (λ h. inr (λ f. f, h), λ h. elim h [ inl f ↦ absurd f | inr (_, g) ↦ g ])
  inserted_from_iff ((k, v) ∷ entries) m key w n =
      let later = inserted_from_iff entries ((k, v) ∷ m) key w n.1 in
      let head = get_head key k v w m in
      (
        λ h. elim (later.0 h) [
          | inl l ↦ inl (inr l)
          | inr (free, g) ↦ elim (head.0 g) [
            | inl (e, f) ↦ inl (inl (cc (e, f)))
            | inr (other, l) ↦ inr (λ i. elim i [ inl e ↦ other e | inr l ↦ free l ], l)
          ]
        ],
        λ h. elim h [
          | inl (inl e) ↦
              let same : key ≡ k = ap (λ p. p.0) e in
              later.1 (
                inr (
                  λ l. n.0 (subst (λ b. In b (keys entries)) same l),
                  head.1 (inl (same, ap (λ p. p.1) (sym e))),
                ))
          | inl (inr l) ↦ later.1 (inl l)
          | inr (free, g) ↦ later.1 (inr (λ l. free (inr l), head.1 (inr (λ e. free (inl e), g))))
        ],
      )

  -- A table whose entries have different keys gives for each key its entry.
  pub get-inserted_iff :
      (entries : List (Bytes × V)) (key : Bytes) (w : V)
      → Nodup (keys entries)
      → (get key (inserted entries []) ≡ some w) ↔ In (key, w) entries
  unfolding get
  get-inserted_iff entries key w n =
      let i = inserted_from_iff entries [] key w n in
      (λ h. elim (i.0 h) [ inl l ↦ l | inr (_, g) ↦ absurd (none-ne-some w g) ], λ l. i.1 (inl l))
