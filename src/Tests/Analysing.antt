-- ===== src/Tests/Analysing.antt =====
-- The analyses at concrete transactions.
use chain_lens.Base.{ℕ, ◌*◌, ◌/◌, ◌↔◌, some, [], ◌∷◌, length, ltb}
use chain_lens.Domain.{Transaction}
use chain_lens.Base.{In}
use chain_lens.Intelligence.Anomalies.{Floats}
use chain_lens.Intelligence.Mev.{detect_sandwich_patterns, sandwich_event}
use chain_lens.Intelligence.Mev.Sandwiches.{Sandwiched, detect_sandwich_patterns_iff}
use chain_lens.Tests.Storing.{tx}

abbrev victim : Transaction
victim = record tx { hash = 51 ∷ []; from = 3 ∷ []; tx_index = 1 }

abbrev back_run : Transaction
back_run = record tx { hash = 52 ∷ []; tx_index = 2 }

-- Numbers in the place of floating-point ones.
abbrev pub whole : Floats ℕ
whole = record {
  of_nat = λ n. n;
  parse = λ s. some (length s);
  mul = λ a b. a * b;
  div = λ a b. a / b;
  sum = λ l. length l;
  gt = λ a b. ltb b a;
  show = λ a. a ∷ [];
  show_0 = λ a. a ∷ [];
  show_nat = λ a. a ∷ [];
  hex_encode = λ b. b;
}

detect_sandwich_patterns_iff_example :
    In
      (sandwich_event whole 7 (9 ∷ []) tx victim back_run)
      (detect_sandwich_patterns whole 7 (9 ∷ []) (tx ∷ victim ∷ back_run ∷ []))
    ↔ Sandwiched whole 7
        (9 ∷ [])
        (tx ∷ victim ∷ back_run ∷ [])
        (sandwich_event whole 7 (9 ∷ []) tx victim back_run)
detect_sandwich_patterns_iff_example =
    detect_sandwich_patterns_iff whole 7 (9 ∷ [])
      (sandwich_event whole 7 (9 ∷ []) tx victim back_run) (tx ∷ victim ∷ back_run ∷ [])
