-- ===== src/Base/Text.antt =====
-- The functions of Go's `strings` that the program calls, on texts as sequences of characters.
use Prim.Native.Nat.{ℕ, ◌+◌}
use Prim.Native.Char.{Char, code}
use Prim.Native.String
use Prim.Native.String.{String}
use mathlib.Core.Path.{◌≡◌}
use mathlib.Core.Bool.{Bool, true, false, ◌&&◌, ◌||◌}
use mathlib.Core.Option.{Option, none, some}
use mathlib.Core.List.{List, [], ◌∷◌}
use native.Mathlib.Omega.{arith}
use text.Mathlib.Text.{◌==◌ as str_eq}
use text.Mathlib.TextLemmas.{nil-append, cons-append}
use chain_registry_sentinel.Base.Tests.{leb, ◌==◌, if◌then◌else◌}

infixl 65 ◌+s◌
abbrev pub ◌+s◌ : String → String → String
s +s t = String.◌++◌ s t

-- `strings.HasPrefix(s, prefix)`.
unfoldable pub has_prefix : String → String → Bool
has_prefix s String.[] = true
has_prefix String.[] (String.◌∷◌ p ps) = false
has_prefix (String.◌∷◌ c s) (String.◌∷◌ p ps) = code c == code p && has_prefix s ps

-- `strings.HasSuffix(s, suffix)`.
unfoldable pub has_suffix : String → String → Bool
has_suffix String.[] suffix = str_eq String.[] suffix
has_suffix (String.◌∷◌ c s) suffix = str_eq (String.◌∷◌ c s) suffix || has_suffix s suffix

-- `strings.Contains(s, part)`.
unfoldable pub contains : String → String → Bool
unfolding has_prefix
contains String.[] part = has_prefix String.[] part
contains (String.◌∷◌ c s) part = has_prefix (String.◌∷◌ c s) part || contains s part

-- The lower case of a code point, among the ASCII letters.
abbrev pub lower : ℕ → ℕ
lower c = if leb b'A' c && leb c b'Z' then c + 32 else c

lower_prefix : String → String → Bool
lower_prefix s String.[] = true
lower_prefix String.[] (String.◌∷◌ p ps) = false
lower_prefix (String.◌∷◌ c s) (String.◌∷◌ p ps) = lower (code c) == code p && lower_prefix s ps

-- `strings.Contains(strings.ToLower(s), part)`, for a `part` of ASCII characters without i and k
-- (no character but the ASCII letters has another ASCII letter for its lower case).
unfoldable pub contains_lower : String → String → Bool
unfolding lower_prefix
contains_lower String.[] part = lower_prefix String.[] part
contains_lower (String.◌∷◌ c s) part = lower_prefix (String.◌∷◌ c s) part || contains_lower s part

abbrev extend : Char → Option (String × String) → Option (String × String)
extend c none = none
extend c (some (before, behind)) = some (String.◌∷◌ c before, behind)

-- `strings.Cut(s, sep)` for a separator of one character, given by its code.
unfoldable pub cut : String → ℕ → Option (String × String)
cut String.[] sep = none
cut (String.◌∷◌ c s) sep =
    let rest = cut s sep in if code c == sep then some ("", s) else extend c rest

abbrev or_else : Option String → Option String → Option String
or_else none later = later
or_else (some s) later = some s

-- `strings.TrimPrefix(s, prefix)`.
drop_prefix : String → String → Option String
drop_prefix s String.[] = some s
drop_prefix String.[] (String.◌∷◌ p ps) = none
drop_prefix (String.◌∷◌ c s) (String.◌∷◌ p ps) =
    let rest = drop_prefix s ps in if code c == code p then rest else none

abbrev get_or : String → Option String → String
get_or s none = s
get_or s (some rest) = rest

unfoldable pub trim_prefix : String → String → String
unfolding drop_prefix
trim_prefix s prefix = get_or s (drop_prefix s prefix)

drop_prefix-append : (prefix s : String) → drop_prefix (prefix +s s) prefix ≡ some s
unfolding drop_prefix
drop_prefix-append String.[] s = rw nil-append (λ i. some s)
drop_prefix-append (String.◌∷◌ c prefix) s =
    rw cons-append (ground (arith, drop_prefix-append prefix s))

pub trim_prefix-append : (prefix s : String) → trim_prefix (prefix +s s) prefix ≡ s
unfolding trim_prefix
trim_prefix-append prefix s = rw (drop_prefix-append prefix s) (λ i. s)

-- `strings.ReplaceAll(s, c, "")` for the character with that code.
unfoldable pub without : String → ℕ → String
without String.[] c = ""
without (String.◌∷◌ d s) c =
    let rest = without s c in if code d == c then rest else String.◌∷◌ d rest

-- `strings.ReplaceAll(s, c, by)` for the character with that code.
unfoldable pub replace : String → ℕ → String → String
replace String.[] c by' = ""
replace (String.◌∷◌ d s) c by' =
    let rest = replace s c by' in if code d == c then by' +s rest else String.◌∷◌ d rest

-- Whether a text has a character with that code.
unfoldable pub has_char : String → ℕ → Bool
has_char String.[] sep = false
has_char (String.◌∷◌ c s) sep = code c == sep || has_char s sep

-- A text is cut at the first separator: a part without one, the separator and any rest.
pub cut-append :
    (s rest : String) (sep : Char)
    → has_char s (code sep) ≡ false
    → cut (s +s String.◌∷◌ sep rest) (code sep) ≡ some (s, rest)
unfolding cut has_char
cut-append String.[] rest sep h = rw nil-append (ground arith)
cut-append (String.◌∷◌ c s) rest sep h = rw cons-append (ground (arith, cut-append s rest sep))

-- The text behind the first `sep`, `s[strings.Index(s, sep)+len(sep):]`; the text itself without one.
behind_from : String → String → Option String
behind_from String.[] sep = drop_prefix String.[] sep
behind_from (String.◌∷◌ c s) sep =
    let later = behind_from s sep in or_else (drop_prefix (String.◌∷◌ c s) sep) later

unfoldable pub behind : String → String → String
unfolding behind_from drop_prefix
behind s sep = get_or s (behind_from s sep)

abbrev cons_label : Char → List String → List String
cons_label c [] = String.◌∷◌ c "" ∷ []
cons_label c (l ∷ ls) = String.◌∷◌ c l ∷ ls

-- `strings.Split(s, sep)` for a separator of one character, given by its code.
unfoldable pub labels : String → ℕ → List String
labels String.[] sep = "" ∷ []
labels (String.◌∷◌ c s) sep =
    let rest = labels s sep in if code c == sep then "" ∷ rest else cons_label c rest

-- `strings.TrimSuffix(s, suffix)`.
unfoldable pub trim_suffix : String → String → String
trim_suffix String.[] suffix = ""
trim_suffix (String.◌∷◌ c s) suffix =
    let later = String.◌∷◌ c (trim_suffix s suffix) in
    if str_eq (String.◌∷◌ c s) suffix then "" else later
