-- ===== src/Intelligence/Events/Laws.antt =====
-- Which topics src/intelligence/events.rs knows.
use mathlib.Core.Path.{subst}
use chain_lens.Base.{
  ◌≡◌, refl, sym, ap, ◌↔◌, inl, inr, some, List, [], ◌∷◌, map, Bool, true, not, ◌&&◌, any, bytes_eq,
  any_iff, arith, In, In-map, In-map_inv, Nodup, text,
}
use chain_lens.Domain.{Bytes, B256}
use chain_lens.Intelligence.Tables.{get-inserted_iff, keys}
use chain_lens.Intelligence.Events.{
  EventSignature, event_signatures, known_events, decode_event_signature,
}

-- The test that no text stands twice.
unfoldable distinct : List Bytes → Bool
distinct [] = true
distinct (a ∷ l) = not (any (bytes_eq a) l) && distinct l

distinct-Nodup : (l : List Bytes) → distinct l ≡ true → Nodup l
unfolding distinct
distinct-Nodup [] h = tt
distinct-Nodup (a ∷ l) h = (
  λ m. let seen = (any_iff a l).1 m in ground (arith, h, seen),
  distinct-Nodup l (ground (arith, h)),
)

texts-Nodup : Nodup (keys event_signatures)
unfolding event_signatures text distinct bytes_eq
texts-Nodup = distinct-Nodup (keys event_signatures) refl

-- Different texts of a list have different hashes.
abbrev pub HashesApart : (Bytes → B256) → List Bytes → Type 0
HashesApart keccak256 texts =
    (s t : Bytes) → In s texts → In t texts → keccak256 s ≡ keccak256 t → s ≡ t

Nodup-hashes :
    (keccak256 : Bytes → B256) (texts : List Bytes)
    → HashesApart keccak256 texts
    → Nodup texts
    → Nodup (map keccak256 texts)
Nodup-hashes keccak256 [] apart n = tt
Nodup-hashes keccak256 (t ∷ texts) apart n = (
  λ m.
      let (s, there, same) = In-map_inv keccak256 (keccak256 t) texts m in
      n.0 (subst (λ b. In b texts) (sym (apart t s (inl refl) (inr there) same)) there),
  Nodup-hashes keccak256 texts (λ s t m l. apart s t (inr m) (inr l)) n.1,
)

keys-hashed :
    (keccak256 : Bytes → B256) (l : List (Bytes × EventSignature))
    → keys (map (λ e. (keccak256 e.0, e.1)) l) ≡ map keccak256 (keys l)
keys-hashed keccak256 [] = refl
keys-hashed keccak256 (e ∷ l) = ap (λ r. keccak256 e.0 ∷ r) (keys-hashed keccak256 l)

-- When the hashes of the listed signatures are different, a topic is decoded to an event exactly when
-- it is the hash of the signature that the list has for this event.
pub decode_event_signature_iff :
    (keccak256 : Bytes → B256) (hex_encode : Bytes → Bytes)
    → HashesApart keccak256 (keys event_signatures)
    → (topic0 : B256) (event : EventSignature)
    → (decode_event_signature keccak256 hex_encode topic0 ≡ some event) ↔ (
        (signature : Bytes) × In (signature, event) event_signatures
        × (topic0 ≡ keccak256 signature))
unfolding decode_event_signature known_events
decode_event_signature_iff keccak256 hex_encode apart topic0 event =
    let hashed : List (B256 × EventSignature) = map (λ e. (keccak256 e.0, e.1)) event_signatures in
    let once : Nodup (keys hashed) =
      subst Nodup (sym (keys-hashed keccak256 event_signatures))
        (Nodup-hashes keccak256 (keys event_signatures) apart texts-Nodup) in
    let found = get-inserted_iff hashed topic0 event once in
    (
      λ h.
          let (e, there, same) =
            In-map_inv (λ e. (keccak256 e.0, e.1)) (topic0, event) event_signatures (found.0 h) in
          (
            e.0,
            subst (λ v. In (e.0, v) event_signatures) (sym (ap (λ p. p.1) same)) there,
            ap (λ p. p.0) same,
          ),
      λ (signature, there, same). found.1 (
          subst (λ t. In (t, event) hashed) (sym same)
            (In-map (λ e. (keccak256 e.0, e.1)) (signature, event) event_signatures there)),
    )
