-- ===== src/Web/Http.antt =====
-- src/web/http.rs: the target, the parameters and the body of a request. A `&str` is its bytes.
pub mod Body
pub mod Examples
use omniportal.Base.{
  ℕ, zero, suc, ◌+◌, List, [], ◌∷◌, Bool, true, false, Option, none, some, ◌==◌, if◌then◌else◌,
  take, drop,
}
use omniportal.Base.Bytes.{bytes_eq}
use omniportal.Base.Utf8.{is_utf8}

-- `str::split_once` at an ASCII character.
unfoldable pub split_once : ℕ → List ℕ → Option (List ℕ × List ℕ)
split_once c [] = none
split_once c (x ∷ xs) =
    let rest = split_once c xs in
    if x == c
    then some ([], xs)
    else elim rest [ none ↦ none | some (before, after) ↦ some (x ∷ before, after) ]

unfoldable pub split_target : List ℕ → List ℕ × List ℕ
unfolding split_once
split_target target = elim (split_once 63 target) [ none ↦ (target, []) | some parts ↦ parts ]

unfoldable pub params : List ℕ → List ℕ → List ℕ
params [] body = if is_utf8 body then body else []
params (c ∷ query) body = c ∷ query

abbrev pub header_separator : List ℕ
header_separator = 13 ∷ 10 ∷ 13 ∷ 10 ∷ []

-- `windows(4).position(…)`: a window that is shorter than the separator is not equal to it.
unfoldable pub separator_position : List ℕ → Option ℕ
separator_position [] = none
separator_position (x ∷ xs) =
    let rest = separator_position xs in
    if bytes_eq (take 4 (x ∷ xs)) header_separator
    then some 0
    else elim rest [ none ↦ none | some index ↦ some (suc index) ]

unfoldable pub body_start : List ℕ → Option ℕ
unfolding separator_position
body_start request = elim (separator_position request) [
  | none ↦ none
  | some index ↦ some (index + 4)
]

unfoldable pub request_body : List ℕ → Option (List ℕ)
unfolding body_start
request_body request = elim (body_start request) [
  | none ↦ none
  | some start ↦ some (drop start request)
]
