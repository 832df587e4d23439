-- ===== src/Web/Http/Examples.antt =====
-- Tests of src/web/http.rs.
use omniportal.Base.{ℕ, ◌≡◌, refl, List, [], ◌∷◌, ◌++◌, some}
use omniportal.Web.Http.{
  header_separator, separator_position, split_once, split_target, params, request_body,
}
use omniportal.Web.Http.Body.{request_body-append}

-- `GET /\r\n`, before the blank line's own line end.
abbrev head : List ℕ
head = 71 ∷ 69 ∷ 84 ∷ 32 ∷ 47 ∷ []

-- A body that holds a separator of its own.
abbrev body : List ℕ
body = 105 ∷ 100 ∷ 13 ∷ 10 ∷ 13 ∷ 10 ∷ 61 ∷ []

request_body-append_example : request_body (head ++ header_separator ++ body) ≡ some body
unfolding separator_position
request_body-append_example = request_body-append head body refl

-- `/a?b=1`, with `id` in the body: the query is read and the body is not.
query_first : params (split_target (47 ∷ 97 ∷ 63 ∷ 98 ∷ 61 ∷ 49 ∷ [])).1 body ≡ 98 ∷ 61 ∷ 49 ∷ []
unfolding params split_target split_once
query_first = refl

no_query : split_target (47 ∷ 97 ∷ []) ≡ (47 ∷ 97 ∷ [], [])
unfolding split_target split_once
no_query = refl
