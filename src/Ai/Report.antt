-- ===== src/Ai/Report.antt =====
-- `parseReport` of internal/ai/advisor.go. A text is the list of its code points; the parser of JSON is an
-- interface, and a confidence is a float32 in units of 2^-149.
use tao_node_guardian.Base.{
  ℕ, ◌^◌, String, List, [], ◌∷◌, Option, none, some, Bool, true, false, is_some, ◌&&◌, ◌||◌, leb,
  ltb, ◌==◌, if◌then◌else◌,
}
use tao_node_guardian.Base.Int.{ℤ, pos_part}
use tao_node_guardian.Base.Errors.{Result, ok, ◌>>=◌, context}
use tao_node_guardian.Controller.StatusUpdate.{IncidentReport}

-- What the JSON holds, before the confidence is clamped.
pub record RawReport : Type 0 where
  pub severity : String
  pub summary : String
  pub root_cause_category : String
  pub recommended_action : String
  pub confidence : ℤ

-- What follows the prefix, if the text starts with it.
unfoldable pub strip_prefix : List ℕ → List ℕ → Option (List ℕ)
strip_prefix [] xs = some xs
strip_prefix (p ∷ ps) [] = none
strip_prefix (p ∷ ps) (x ∷ xs) = let rest = strip_prefix ps xs in if p == x then rest else none

abbrev pub fence : List ℕ
fence = 0x60 ∷ 0x60 ∷ 0x60 ∷ []

abbrev json_word : List ℕ
json_word = 0x6a ∷ 0x73 ∷ 0x6f ∷ 0x6e ∷ []

abbrev found_or : Option (List ℕ) → Option (List ℕ) → Option (List ℕ)
found_or none other = other
found_or (some a) other = some a

-- What follows the first fence.
unfoldable pub after_fence : List ℕ → Option (List ℕ)
unfolding strip_prefix
after_fence [] = none
after_fence (x ∷ xs) = found_or (strip_prefix fence (x ∷ xs)) (after_fence xs)

abbrev added_to : ℕ → Option (List ℕ) → Option (List ℕ)
added_to x none = none
added_to x (some xs) = some (x ∷ xs)

-- What stands before the next fence.
unfoldable pub until_fence : List ℕ → Option (List ℕ)
unfolding strip_prefix
until_fence [] = none
until_fence (x ∷ xs) =
    let rest = until_fence xs in
    if is_some (strip_prefix fence (x ∷ xs)) then some [] else added_to x rest

-- `\s` of a regular expression.
abbrev is_blank : ℕ → Bool
is_blank c = c == 0x20 || c == 9 || c == 10 || c == 12 || c == 13

unfoldable pub skip_while : (ℕ → Bool) → List ℕ → List ℕ
skip_while p [] = []
skip_while p (x ∷ xs) = let rest = skip_while p xs in if p x then rest else x ∷ xs

abbrev without_json : Option (List ℕ) → List ℕ → List ℕ
without_json none xs = xs
without_json (some rest) xs = rest

-- The group of the expression (?s)```(?:json)?\s*(.*?)``` at its first match.
abbrev pub fenced_in : Option (List ℕ) → Option (List ℕ)
unfolding until_fence skip_while strip_prefix
fenced_in none = none
fenced_in (some opened) =
    until_fence (skip_while is_blank (without_json (strip_prefix json_word opened) opened))

-- `unicode.IsSpace`
abbrev is_space : ℕ → Bool
is_space c =
    is_blank c
    || c == 11
    || c == 0x85
    || c == 0xa0
    || c == 0x1680
    || (leb 0x2000 c && leb c 0x200a)
    || c == 0x2028
    || c == 0x2029
    || c == 0x202f
    || c == 0x205f
    || c == 0x3000

-- A text without the spaces at its end, and without those at both ends.
unfoldable pub trim_end : List ℕ → List ℕ
trim_end [] = []
trim_end (x ∷ xs) = let rest = trim_end xs in if is_space x && is_empty rest then [] else x ∷ rest
  where
    is_empty : List ℕ → Bool
    is_empty [] = true
    is_empty (_ ∷ _) = false

unfoldable pub trimmed : List ℕ → List ℕ
unfolding skip_while trim_end
trimmed text = trim_end (skip_while is_space text)

-- The text from the first opening brace, if it has one.
unfoldable pub from_open : List ℕ → Option (List ℕ)
from_open [] = none
from_open (x ∷ xs) = let rest = from_open xs in if x == 0x7b then some (x ∷ xs) else rest

-- The text up to the last closing brace, if it has one.
unfoldable pub to_last_close : List ℕ → Option (List ℕ)
to_last_close [] = none
to_last_close (x ∷ xs) =
    let rest = to_last_close xs in
    found_or (added_to x rest) (if x == 0x7d then some (x ∷ []) else none)

abbrev pub text_or : List ℕ → Option (List ℕ) → List ℕ
text_or default none = default
text_or default (some xs) = xs

abbrev closed_in : Option (List ℕ) → Option (List ℕ)
closed_in none = none
closed_in (some opened) = to_last_close opened

-- Steps 1 and 2: what is taken out of the answer of the model.
unfoldable pub cleaned : List ℕ → List ℕ
unfolding after_fence until_fence skip_while strip_prefix trimmed from_open to_last_close
cleaned raw =
    let unfenced = trimmed (text_or raw (fenced_in (after_fence raw))) in
    text_or unfenced (closed_in (from_open unfenced))

-- 1 as a float32.
abbrev pub one_unit : ℕ
one_unit = 2 ^ 149

abbrev clamped : ℤ → ℕ
clamped z = if ltb one_unit (pos_part z) then one_unit else pos_part z

unfoldable pub parse_report : (List ℕ → Result RawReport) → List ℕ → Result IncidentReport
unfolding cleaned
parse_report unmarshal raw =
    context "parse LLM report (unmarshal): %w | raw: %s" (unmarshal (cleaned raw)) >>= (λ report.
      ok (record {
        severity = report.severity;
        summary = report.summary;
        root_cause_category = report.root_cause_category;
        recommended_action = report.recommended_action;
        confidence_units = clamped report.confidence;
      }))
