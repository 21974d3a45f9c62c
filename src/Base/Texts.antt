-- ===== src/Base/Texts.antt =====
-- Texts as lists of bytes, and integers with a sign.
use Prim.Native.Char.{code}
use Prim.Native.String.{String}
use Prim.Native.Nat.{ℕ, ◌+◌}
use mathlib.Core.List.{List, [], ◌∷◌}
use mathlib.Core.Bool.{Bool, true, false, ◌&&◌}
use mathlib.Core.Option.{Option, none, some}
use chain_lens.Base.Tests.{◌==◌, if◌then◌else◌}

-- The bytes of a text of ASCII characters.
unfoldable pub text : String → List ℕ
text String.[] = []
text (String.◌∷◌ c s) = code c ∷ text s

-- `trim_start_matches("0x")`, which removes the prefix as often as it is there.
unfoldable pub trim_0x : List ℕ → List ℕ
trim_0x (a ∷ b ∷ rest) =
    let trimmed = trim_0x rest in if a == b'0' && b == b'x' then trimmed else a ∷ b ∷ rest
trim_0x s = s

abbrev pub is_none : {A : Type 0} → Option A → Bool
is_none none = true
is_none (some _) = false

abbrev pub unwrap_or : {A : Type 0} → Option A → A → A
unwrap_or none default = default
unwrap_or (some a) default = a

abbrev pub is_empty : {A : Type 0} → List A → Bool
is_empty [] = true
is_empty (_ ∷ _) = false

-- Machine integers with a sign: `negsuc n` is `- (n + 1)`.
pub data ℤ : Type 0 where
  pos negsuc : ℕ → ℤ

abbrev pub unsigned_abs : ℤ → ℕ
unsigned_abs (pos n) = n
unsigned_abs (negsuc n) = n + 1
