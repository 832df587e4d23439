-- ===== src/Web/Http/Body.antt =====
-- The body of a request, src/web/http.rs.
use omniportal.Base.{
  ℕ, suc, ◌+◌, ◌≡◌, refl, ap, ◌∙◌, List, [], ◌∷◌, ◌++◌, Bool, true, false, Option, none, some,
  if◌then◌else◌, take, drop, length, arith,
}
use omniportal.Base.Bytes.{bytes_eq}
use omniportal.Web.Http.{header_separator, separator_position, body_start, request_body}

-- The separator without its last byte.
abbrev unfinished : List ℕ
unfinished = 13 ∷ 10 ∷ 13 ∷ []

window_same :
    (x : ℕ) (head body : List ℕ)
    → take 4 (x ∷ head ++ header_separator ++ body) ≡ take 4 (x ∷ head ++ unfinished)
window_same x [] body = refl
window_same x (a ∷ []) body = refl
window_same x (a ∷ b ∷ []) body = refl
window_same x (a ∷ b ∷ c ∷ head) body = refl

abbrev position_or : Bool → Option ℕ → Option ℕ
position_or here rest =
    if here then some 0 else elim rest [ none ↦ none | some index ↦ some (suc index) ]

not_here :
    (here : Bool) (rest : Option ℕ) → position_or here rest ≡ none → (here ≡ false) × (rest ≡ none)
not_here true rest h = absurd (ground arith)
not_here false none h = (refl, refl)
not_here false (some n) h = absurd (ground arith)

later :
    (here : Bool) (rest : Option ℕ) (n : ℕ)
    → here ≡ false
    → rest ≡ some n
    → position_or here rest ≡ some (suc n)
later true rest n h r = absurd (ground arith)
later false rest n h r = ap (position_or false) r

separator_position-length :
    (head body : List ℕ)
    → separator_position (head ++ unfinished) ≡ none
    → separator_position (head ++ header_separator ++ body) ≡ some (length head)
unfolding separator_position
separator_position-length [] body h = refl
separator_position-length (x ∷ head) body h =
    let split =
      not_here (bytes_eq (take 4 (x ∷ head ++ unfinished)) header_separator)
        (separator_position (head ++ unfinished)) h in
    later (bytes_eq (take 4 (x ∷ head ++ header_separator ++ body)) header_separator)
      (separator_position (head ++ header_separator ++ body)) (length head)
      (ap (λ w. bytes_eq w header_separator) (window_same x head body) ∙ split.0)
      (separator_position-length head body split.1)

drop-length :
    (head body : List ℕ) → drop (length head + 4) (head ++ header_separator ++ body) ≡ body
drop-length [] body = refl
drop-length (x ∷ head) body =
    let next : suc (length head) + 4 ≡ suc (length head + 4) = omega arith in
    ap (λ n. drop n (x ∷ head ++ header_separator ++ body)) next ∙ drop-length head body

abbrev body_at : List ℕ → Option ℕ → Option (List ℕ)
body_at request none = none
body_at request (some index) = some (drop (index + 4) request)

request_body-position :
    (request : List ℕ) (found : Option ℕ)
    → separator_position request ≡ found
    → request_body request ≡ body_at request found
unfolding body_start request_body
request_body-position request none h = rw (h, request_body, body_start)
request_body-position request (some index) h = rw (h, request_body, body_start)

-- The body of a request is what stands behind the first blank line, whatever bytes it has: when no
-- separator ends before the last byte of one that follows a head, then what stands behind both is
-- the body.
pub request_body-append :
    (head body : List ℕ)
    → separator_position (head ++ unfinished) ≡ none
    → request_body (head ++ header_separator ++ body) ≡ some body
request_body-append head body h =
    request_body-position (head ++ header_separator ++ body) (some (length head))
      (separator_position-length head body h)
    ∙ ap some (drop-length head body)
