-- ===== src/Intelligence/Interfaces/Laws.antt =====
-- The interfaces found: the loop of src/intelligence/interfaces.rs.
use mathlib.Core.Path.{subst}
use mathlib.Core.List.{map-append}
use mathlib.Core.Option.{some-injective}
use chain_lens.Base.{
  ◌≡◌, refl, sym, ap, ◌∙◌, ◌↔◌, ◌⊎◌, inl, inr, none, some, List, [], ◌∷◌, ◌++◌, map, true, false,
  any, bytes_eq, any_iff, Bool-cases, Option-cases, arith, In, In-append_iff, Nodup, Nodup-append,
}
use chain_lens.Domain.{Bytes}
use chain_lens.Intelligence.Interfaces.{
  InterfaceInfo, detect_interface, detect_from, detect_interfaces,
}

abbrev pub names : List InterfaceInfo → List Bytes
names infos = map (λ i. i.name) infos

-- One of the selectors belongs to an interface of this name.
abbrev pub Offers : List Bytes → Bytes → Type 0
Offers selectors name =
    (sel : Bytes) × (i : InterfaceInfo) × In sel selectors
    × (detect_interface sel ≡ some i)
    × (i.name ≡ name)

abbrev Found : List InterfaceInfo → List Bytes → List InterfaceInfo → Type 0
Found result selectors out =
    Nodup (names out)
    × ((n : Bytes) → In n (names out) ↔ (In n (names result) ⊎ Offers selectors n))

-- What a selector adds that offers nothing new.
Offers-known :
    (result : List InterfaceInfo) (sel : Bytes) (selectors : List Bytes) (out : List InterfaceInfo)
    → ((i : InterfaceInfo) → detect_interface sel ≡ some i → In i.name (names result))
    → Found result selectors out
    → Found result (sel ∷ selectors) out
Offers-known result sel selectors out known (once, each) = (
  once,
  λ n. (
    λ m. elim ((each n).0 m) [ inl l ↦ inl l | inr (s, i, l, e, f) ↦ inr (s, i, inr l, e, f) ],
    λ m. (each n).1 (elim m [
      | inl l ↦ inl l
      | inr (s, i, inr l, e, f) ↦ inr (s, i, l, e, f)
      | inr (s, i, inl here, e, f) ↦ inl (
          subst (λ b. In b (names result)) f
            (known i (subst (λ b. detect_interface b ≡ some i) here e)))
    ]),
  ),
)

names-last :
    (result : List InterfaceInfo) (info : InterfaceInfo)
    → names (result ++ info ∷ []) ≡ names result ++ info.name ∷ []
names-last result info = map-append (λ i. i.name) result (info ∷ [])

In-last :
    (result : List InterfaceInfo) (info : InterfaceInfo) (n : Bytes)
    → In n (names (result ++ info ∷ [])) ↔ (In n (names result) ⊎ (n ≡ info.name))
In-last result info n =
    let i = In-append_iff n (names result) (info.name ∷ []) in
    subst (λ l. In n l ↔ (In n (names result) ⊎ (n ≡ info.name))) (sym (names-last result info))
      (
        λ m. elim (i.0 m) [
          | inl l ↦ inl l
          | inr (inl e) ↦ inr e
          | inr (inr nowhere) ↦ absurd nowhere
        ],
        λ m. i.1 (elim m [ inl l ↦ inl l | inr e ↦ inr (inl e) ]),
      )

-- A selector of a new interface.
Offers-new :
    (result : List InterfaceInfo) (sel : Bytes) (selectors : List Bytes) (out : List InterfaceInfo)
    (info : InterfaceInfo)
    → detect_interface sel ≡ some info
    → Found (result ++ info ∷ []) selectors out
    → Found result (sel ∷ selectors) out
Offers-new result sel selectors out info hit (once, each) = (
  once,
  λ n.
      let last = In-last result info n in
      (
        λ m. elim ((each n).0 m) [
          | inl l ↦ elim (last.0 l) [
            | inl old ↦ inl old
            | inr e ↦ inr (sel, info, inl refl, hit, sym e)
          ]
          | inr (s, i, l, e, f) ↦ inr (s, i, inr l, e, f)
        ],
        λ m. (each n).1 (elim m [
          | inl l ↦ inl (last.1 (inl l))
          | inr (s, i, inr l, e, f) ↦ inr (s, i, l, e, f)
          | inr (s, i, inl here, e, f) ↦
              let hit' : detect_interface sel ≡ some i =
                subst (λ b. detect_interface b ≡ some i) here e in
              let same : i ≡ info = some-injective _ _ (sym hit' ∙ hit) in
              inl (last.1 (inr (sym f ∙ ap (λ j. j.name) same)))
        ]),
      ),
)

module _ (seen : List Bytes) (result : List InterfaceInfo) (sel : Bytes)
    (selectors : List Bytes) where
  detect_from-miss :
      detect_interface sel ≡ none
      → detect_from seen result (sel ∷ selectors) ≡ detect_from seen result selectors
  unfolding detect_from
  detect_from-miss miss = rw (miss, detect_from) refl

  detect_from-old :
      (info : InterfaceInfo)
      → detect_interface sel ≡ some info
      → any (bytes_eq info.name) seen ≡ true
      → detect_from seen result (sel ∷ selectors) ≡ detect_from seen result selectors
  unfolding detect_from
  detect_from-old info hit old = rw (hit, old, detect_from) refl

  detect_from-new :
      (info : InterfaceInfo)
      → detect_interface sel ≡ some info
      → any (bytes_eq info.name) seen ≡ false
      → detect_from seen result (sel ∷ selectors)
        ≡ detect_from (info.name ∷ seen) (result ++ info ∷ []) selectors
  unfolding detect_from
  detect_from-new info hit new = rw (hit, new, detect_from) refl

detect_from_lem :
    (seen : List Bytes) (result : List InterfaceInfo) (selectors : List Bytes)
    → ((n : Bytes) → In n seen ↔ In n (names result))
    → Nodup (names result)
    → Found result selectors (detect_from seen result selectors)
unfolding detect_from
detect_from_lem seen result [] same once =
    (once, λ n. (inl, λ h. elim h [ inl l ↦ l | inr (_, _, m, _, _) ↦ absurd m ]))
detect_from_lem seen result (sel ∷ selectors) same once =
    elim (Option-cases (detect_interface sel)) [
      | inl miss ↦
          subst (Found result (sel ∷ selectors))
            (sym (detect_from-miss seen result sel selectors miss))
            (Offers-known result sel selectors _ (λ i e. ground (arith, miss, e))
              (detect_from_lem seen result selectors same once))
      | inr (info, hit) ↦ elim (Bool-cases (any (bytes_eq info.name) seen)) [
        | inl old ↦
            let known = (same info.name).0 ((any_iff info.name seen).0 old) in
            subst (Found result (sel ∷ selectors))
              (sym (detect_from-old seen result sel selectors info hit old))
              (Offers-known result sel selectors _
                (λ i e.
                  subst (λ j. In j.name (names result)) (some-injective _ _ (sym hit ∙ e)) known)
                (detect_from_lem seen result selectors same once))
        | inr new ↦
            let fresh : ¬ In info.name (names result) = λ m.
              let again = (any_iff info.name seen).1 ((same info.name).1 m) in
              ground (arith, again, new) in
            let once' : Nodup (names (result ++ info ∷ [])) =
              subst Nodup (sym (names-last result info)) (
                Nodup-append (names result) (info.name ∷ []) once (λ m. m, tt)
                  (λ n m l. elim l [
                    | inl e ↦ fresh (subst (λ b. In b (names result)) e m)
                    | inr nowhere ↦ nowhere
                  ])) in
            subst (Found result (sel ∷ selectors))
              (sym (detect_from-new seen result sel selectors info hit new))
              (Offers-new result sel selectors _ info hit (
                detect_from_lem (info.name ∷ seen) (result ++ info ∷ []) selectors
                  (λ n.
                    let last = In-last result info n in
                    (
                      λ m. last.1 (elim m [ inl e ↦ inr e | inr l ↦ inl ((same n).0 l) ]),
                      λ m. elim (last.0 m) [ inl l ↦ inr ((same n).1 l) | inr e ↦ inl e ],
                    ))
                  once'))
      ]
    ]

-- The interfaces that are found have different names, and their names are exactly those of the
-- interfaces that the selectors belong to.
pub detect_interfaces_iff :
    (selectors : List Bytes)
    → Nodup (names (detect_interfaces selectors))
      × ((n : Bytes) → In n (names (detect_interfaces selectors)) ↔ Offers selectors n)
unfolding detect_interfaces
detect_interfaces_iff selectors =
    let (once, each) = detect_from_lem [] [] selectors (λ n. (λ m. m, λ m. m)) tt in
    (
      once,
      λ n. (
        λ m. elim ((each n).0 m) [ inl nowhere ↦ absurd nowhere | inr o ↦ o ],
        λ o. (each n).1 (inr o),
      ),
    )
