-- ===== src/Base/Text.antt =====
-- Python's `str` methods that the program uses on headers and paths, over ASCII.
use Prim.Native.Char.{Char, code}
use Prim.Native.Nat.{ℕ, zero, suc, ◌+◌, ◌-◌}
use Prim.Native.String.{String, [], ◌∷◌, char_at}
use mathlib.Core.Bool.{Bool, true, false, ◌&&◌, ◌||◌}
use mathlib.Core.Option.{Option, none, some}
use paperless_assistant.Base.Tests.{if◌then◌else◌, leb, nat_beq}
use paperless_assistant.Base.Equality.{◌==◌, string_eq}

abbrev pub is_space : ℕ → Bool
is_space c = nat_beq c 32 || (leb 9 c && leb c 13) || (leb 28 c && leb c 31)

abbrev pub lower : ℕ → ℕ
lower c = if leb b'A' c && leb c b'Z' then c + 32 else c

-- `s.lower() == t.lower()`, which is `s.upper() == t` for an upper-case `t`
unfoldable pub same_letters : String → String → Bool
same_letters [] [] = true
same_letters [] (d ∷ t) = false
same_letters (c ∷ s) [] = false
same_letters (c ∷ s) (d ∷ t) =
    let rest = same_letters s t in if nat_beq (lower (code c)) (lower (code d)) then rest else false

-- `s.lower().startswith(prefix)`, and the rest of `s` behind the prefix
unfoldable pub after_prefix : String → String → Option String
after_prefix [] s = some s
after_prefix (p ∷ prefix) [] = none
after_prefix (p ∷ prefix) (c ∷ s) =
    let rest = after_prefix prefix s in if nat_beq (lower (code c)) (code p) then rest else none

-- `s.startswith(prefix)`
unfoldable pub starts_with : String → String → Bool
starts_with [] s = true
starts_with (p ∷ prefix) [] = false
starts_with (p ∷ prefix) (c ∷ s) =
    let rest = starts_with prefix s in if nat_beq (code c) (code p) then rest else false

unfoldable pub lstrip : String → String
lstrip [] = []
lstrip (c ∷ s) = let rest = lstrip s in if is_space (code c) then rest else c ∷ s

-- `s.rstrip()` for the characters of `drops`
unfoldable pub rstrip : (ℕ → Bool) → String → String
rstrip drops [] = []
rstrip drops (c ∷ s) =
    let rest = rstrip drops s in if drops (code c) && rest == "" then [] else c ∷ rest

-- `s.strip()`
unfoldable pub strip : String → String
unfolding lstrip rstrip
strip s = rstrip (λ c. is_space c) (lstrip s)

-- `s.split(mark, 1)[0]`
unfoldable pub before_mark : ℕ → String → String
before_mark mark [] = []
before_mark mark (c ∷ s) =
    let rest = before_mark mark s in if nat_beq (code c) mark then [] else c ∷ rest

-- the rest of `s` behind `prefix`
unfoldable pub skip_prefix : String → String → Option String
skip_prefix [] s = some s
skip_prefix (p ∷ prefix) [] = none
skip_prefix (p ∷ prefix) (c ∷ s) =
    let rest = skip_prefix prefix s in if nat_beq (code c) (code p) then rest else none

-- `s[:n]`
unfoldable pub clip : ℕ → String → String
clip zero s = []
clip (suc n) [] = []
clip (suc n) (c ∷ s) = c ∷ clip n s

-- `s + t`
unfoldable pub concat : String → String → String
concat [] t = t
concat (c ∷ s) t = c ∷ concat s t

-- `c.lower()` of an ASCII character
abbrev pub lower_char : Char → Char
lower_char c =
    if leb b'A' (code c) && leb (code c) b'Z'
    then char_at "abcdefghijklmnopqrstuvwxyz" (code c - b'A')
    else c

-- `s.lower()`
unfoldable pub lower_case : String → String
lower_case [] = []
lower_case (c ∷ s) = lower_char c ∷ lower_case s

-- `s.rstrip("/")`
unfoldable pub rstrip_slash : String → String
unfolding rstrip
rstrip_slash s = rstrip (λ c. nat_beq c b'/') s
