-- ===== src/Storage/Store/Params.antt =====
-- How the operations of src/storage/mod.rs read their parameters.
use omniportal.Base.{ℕ, List, Option, none, some}
use omniportal.Base.Result.{Result, ok, err}
use omniportal.Storage.Records.{FixedText, from_str}
use omniportal.Storage.Table.{bad_request}
use omniportal.Storage.Forms.{query_param, parse_u32}
use omniportal.Storage.Store.{Fault, failed, or_fail}

abbrev pub or_else : {A : Type 0} → Option A → Option A → Option A
or_else none other = other
or_else (some a) other = some a

abbrev pub as_u32 : Option (List ℕ) → Option ℕ
as_u32 none = none
as_u32 (some value) = parse_u32 value

-- `query_param(…).ok_or(StorageError::BadRequest)?`.
abbrev pub required : List ℕ → List ℕ → Result {0, 0} Fault (List ℕ)
required query name = or_fail (query_param query name) bad_request

-- `query_param(…).and_then(|value| parse_u32(value.as_str()))`.
abbrev pub number_param : List ℕ → List ℕ → Option ℕ
number_param query name = as_u32 (query_param query name)

abbrev pub required_number : List ℕ → List ℕ → Result {0, 0} Fault ℕ
required_number query name = or_fail (number_param query name) bad_request

-- `FixedText::from_str(…).map_err(|_| StorageError::BadRequest)?`.
abbrev pub text : ℕ → List ℕ → Result {0, 0} Fault FixedText
text n raw = elim (from_str n raw) [ ok t ↦ ok t | err e ↦ err (failed bad_request) ]
