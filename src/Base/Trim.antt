-- ===== src/Base/Trim.antt =====
-- The functions of Go's `strings` and `unicode` that trim and flatten a text, by code points.
use Prim.Native.Char.{Char, code}
use Prim.Native.String.{String}
use mathlib.Core.Path.{◌≡◌, refl}
use mathlib.Core.Bool.{Bool, true, false, ◌&&◌, ◌||◌}
use native.Mathlib.Omega.{arith}
use Prim.Native.Nat.{ℕ}
use text.Mathlib.Text.{◌==◌ as str_eq}
use chain_registry_sentinel.Base.Tests.{leb, ◌==◌, if◌then◌else◌}

-- `strings.TrimRightFunc` and `strings.TrimLeftFunc`.
unfoldable pub trim_right : (ℕ → Bool) → String → String
trim_right p String.[] = ""
trim_right p (String.◌∷◌ c s) =
    let rest = trim_right p s in if str_eq rest "" && p (code c) then "" else String.◌∷◌ c rest

unfoldable pub trim_left : (ℕ → Bool) → String → String
trim_left p String.[] = ""
trim_left p (String.◌∷◌ c s) =
    let rest = trim_left p s in if p (code c) then rest else String.◌∷◌ c s

-- `unicode.IsControl`.
unfoldable pub is_control : ℕ → Bool
is_control c = leb c 31 || leb 127 c && leb c 159

-- `unicode.IsSpace`.
unfoldable pub is_space : ℕ → Bool
is_space c =
    leb 9 c && leb c 13
    || c == 32
    || c == 133
    || c == 160
    || c == 5760
    || leb 8192 c && leb c 8202
    || c == 8232
    || c == 8233
    || c == 8239
    || c == 8287
    || c == 12288

-- `strings.TrimSpace`.
unfoldable pub trim_space : String → String
trim_space s = trim_right is_space (trim_left is_space s)

-- Whether all characters of a text are such.
unfoldable pub every_char : (ℕ → Bool) → String → Bool
every_char p String.[] = true
every_char p (String.◌∷◌ c s) = p (code c) && every_char p s

pub every_char-nil : (p : ℕ → Bool) → every_char p "" ≡ true
unfolding every_char
every_char-nil p = refl

every_char-if :
    (p : ℕ → Bool) (b : Bool) (c : Char) (s : String)
    → p (code c) ≡ true
    → every_char p s ≡ true
    → every_char p (if b then "" else String.◌∷◌ c s) ≡ true
unfolding every_char
every_char-if p true c s h k = refl
every_char-if p false c s h k = ground arith

pub every_char-trim_right :
    (p q : ℕ → Bool) (s : String) → every_char p s ≡ true → every_char p (trim_right q s) ≡ true
unfolding trim_right every_char
every_char-trim_right p q String.[] h = refl
every_char-trim_right p q (String.◌∷◌ c s) h =
    every_char-if p _ c (trim_right q s) (ground arith) (every_char-trim_right p q s (ground arith))

pub every_char-trim_left :
    (p q : ℕ → Bool) (s : String) → every_char p s ≡ true → every_char p (trim_left q s) ≡ true
unfolding trim_left every_char
every_char-trim_left p q String.[] h = refl
every_char-trim_left p q (String.◌∷◌ c s) h = ground (arith, every_char-trim_left p q s)
