-- ===== src/Base/Members.antt =====
-- Membership in lists, and lists without repetition.
use mathlib.Core.Path.{◌≡◌, refl, sym, ap, subst}
use mathlib.Core.Logic.{◌⊎◌, inl, inr, ◌↔◌, ⊎_elim}
use mathlib.Core.Bool.{true}
use mathlib.Core.List.{List, [], ◌∷◌, ◌++◌, map}
use native.Mathlib.Omega.{arith}
use Prim.Native.Nat.{ℕ}
use chain_lens.Base.Tests.{bytes_eq, bytes_eq_iff, Bool-cases}
use chain_lens.Base.Lists.{any, All}

-- Membership, as a type that proofs take apart.
abbrev pub In : {A : Type 0} → A → List A → Type 0
In x [] = ⊥
In x (y ∷ ys) = (x ≡ y) ⊎ In x ys

pub In-append_left : {A : Type 0} (p : A) (xs ys : List A) → In p xs → In p (xs ++ ys)
In-append_left p [] ys h = absurd h
In-append_left p (x ∷ xs) ys (inl h) = inl h
In-append_left p (x ∷ xs) ys (inr h) = inr (In-append_left p xs ys h)

pub In-append_last : {A : Type 0} (p : A) (xs : List A) → In p (xs ++ p ∷ [])
In-append_last p [] = inl refl
In-append_last p (x ∷ xs) = inr (In-append_last p xs)

pub In-append_cases : {A : Type 0} (p q : A) (xs : List A) → In p (xs ++ q ∷ []) → In p xs ⊎ (p ≡ q)
In-append_cases p q [] (inl h) = inr h
In-append_cases p q [] (inr h) = absurd h
In-append_cases p q (x ∷ xs) (inl h) = inl (inl h)
In-append_cases p q (x ∷ xs) (inr h) = elim (In-append_cases p q xs h) [
  | inl there ↦ inl (inr there)
  | inr here ↦ inr here
]

pub In-append_right : {A : Type 0} (p : A) (xs ys : List A) → In p ys → In p (xs ++ ys)
In-append_right p [] ys h = h
In-append_right p (x ∷ xs) ys h = inr (In-append_right p xs ys h)

pub In-append_iff : {A : Type 0} (p : A) (xs ys : List A) → In p (xs ++ ys) ↔ (In p xs ⊎ In p ys)
In-append_iff p xs ys = (go xs, ⊎_elim (In-append_left p xs ys) (In-append_right p xs ys))
  where
    go : (xs : List _) → In p (xs ++ ys) → In p xs ⊎ In p ys
    go [] h = inr h
    go (x ∷ xs) (inl h) = inl (inl h)
    go (x ∷ xs) (inr h) = ⊎_elim (λ m. inl (inr m)) inr (go xs h)

pub In-map : {A B : Type 0} (f : A → B) (x : A) (xs : List A) → In x xs → In (f x) (map f xs)
In-map f x (y ∷ ys) (inl h) = inl (ap f h)
In-map f x (y ∷ ys) (inr h) = inr (In-map f x ys h)
In-map f x [] h = absurd h

pub In-map_inv :
    {A B : Type 0} (f : A → B) (y : B) (xs : List A)
    → In y (map f xs)
    → (x : A) × In x xs × (y ≡ f x)
In-map_inv f y [] h = absurd h
In-map_inv f y (x ∷ xs) (inl h) = (x, inl refl, h)
In-map_inv f y (x ∷ xs) (inr h) = let (z, m, e) = In-map_inv f y xs h in (z, inr m, e)

pub All-In : {A : Type 0} (P : A → Type 0) (x : A) (xs : List A) → All P xs → In x xs → P x
All-In P x [] a m = absurd m
All-In P x (y ∷ ys) a (inl here) = subst P (sym here) a.0
All-In P x (y ∷ ys) a (inr there) = All-In P x ys a.1 there

-- The test that the code makes.
pub any_iff : (a : List ℕ) (xs : List (List ℕ)) → (any (bytes_eq a) xs ≡ true) ↔ In a xs
any_iff a [] = (λ h. cc, λ h. absurd h)
any_iff a (x ∷ xs) = (
  λ h. elim (Bool-cases (bytes_eq a x)) [
    | inl same ↦ inl ((bytes_eq_iff a x).0 same)
    | inr other ↦ inr ((any_iff a xs).0 (ground (arith, h, other)))
  ],
  λ h. elim h [
    | inl here ↦ ground (arith, (bytes_eq_iff a x).1 here)
    | inr there ↦ ground (arith, (any_iff a xs).1 there)
  ],
)

abbrev pub Nodup : {A : Type 0} → List A → Type 0
Nodup [] = Unit
Nodup (x ∷ xs) = (¬ In x xs) × Nodup xs

pub Nodup-append :
    {A : Type 0} (xs ys : List A)
    → Nodup xs
    → Nodup ys
    → ((x : A) → In x xs → ¬ In x ys)
    → Nodup (xs ++ ys)
Nodup-append [] ys a b d = b
Nodup-append (x ∷ xs) ys a b d = (
  λ m. ⊎_elim a.0 (d x (inl refl)) ((In-append_iff x xs ys).0 m),
  Nodup-append xs ys a.1 b (λ z m. d z (inr m)),
)
