-- ===== src/Crates/Outside.antt =====
-- chrono, and the HTTP client of reqwest.
use did_rust.Prelude.{Text, Bool, Option, ◌⊎◌}

-- `DateTime::parse_from_rfc3339`, in UTC, and the test `a > b`
pub record Chrono : Type 1 where
  pub Time : Type 0
  pub parse_from_rfc3339 : Text → Option Time
  pub is_after : Time → Time → Bool

-- What `Client::builder()…build()` gives, which can fail; `get(url).send()` of a client,
-- `status().is_success()`, the printed status, the body, and `json()`
pub record Http (Document : Type 0) : Type 1 where
  pub Response : Type 0
  pub Client : Type 0
  pub client : Option Client
  pub send : Client → Text → Text ⊎ Response
  pub is_success : Response → Bool
  pub status : Response → Text
  pub body : Response → Text
  pub json : Response → Text ⊎ Document
