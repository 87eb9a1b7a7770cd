-- ===== src/Agent/Webhook/DocUrl.antt =====
-- `_DOC_ID_RE` of webhook.py and the numbers that `parse_doc_id` reads, over ASCII digits.
use Prim.Native.Char.{code}
use Prim.Native.String.{[], ◌∷◌}
use paperless_assistant.Base.{
  ℕ, ◌+◌, ◌-◌, ◌*◌, String, Bool, true, ◌&&◌, ◌||◌, Option, none, some, if◌then◌else◌, leb, nat_beq,
  ◌==◌, string_eq,
}
use paperless_assistant.Base.Text.{skip_prefix}

abbrev pub is_digit : ℕ → Bool
is_digit c = leb b'0' c && leb c b'9'

-- the digits that a text begins with, read behind the number `n`, and the text behind them
unfoldable pub digits_of : ℕ → String → ℕ × String
digits_of n [] = (n, [])
digits_of n (c ∷ s) =
    let rest = digits_of (n * 10 + (code c - b'0')) s in
    if is_digit (code c) then rest else (n, c ∷ s)

-- `(\d+)`, then `rest`
unfoldable pub number_at : String → Option (ℕ × String)
unfolding digits_of
number_at [] = none
number_at (c ∷ s) = if is_digit (code c) then some (digits_of 0 (c ∷ s)) else none

-- `(?:/|$|\?)`; `$` also matches in front of a line feed that ends the text
unfoldable pub ends_id : String → Bool
ends_id [] = true
ends_id (c ∷ s) = nat_beq (code c) b'/' || nat_beq (code c) b'?' || (nat_beq (code c) 10 && s == "")

-- `_DOC_ID_RE` at the beginning of a text
unfoldable pub doc_id_at : String → Option ℕ
unfolding skip_prefix number_at ends_id
doc_id_at s = elim (skip_prefix "/documents/" s) [
  | none ↦ none
  | some behind ↦ elim (number_at behind) [
    | none ↦ none
    | some (n, rest) ↦ if ends_id rest then some n else none
  ]
]

-- `_DOC_ID_RE.search`
unfoldable pub doc_id_in : String → Option ℕ
unfolding doc_id_at
doc_id_in [] = none
doc_id_in (c ∷ s) = elim (doc_id_at (c ∷ s)) [ some n ↦ some n | none ↦ doc_id_in s ]

-- `int(s)` if `s.isdigit()`
unfoldable pub whole_number : String → Option ℕ
unfolding number_at
whole_number s = elim (number_at s) [
  | none ↦ none
  | some (n, rest) ↦ if rest == "" then some n else none
]
