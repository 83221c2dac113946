-- ===== src/Ffi/Strings.antt =====
-- `c_string` on the replies of the C interface.
use did_rust.Prelude.{some, ◌≡◌}
use did_rust.Crates.Json.{Json, IsJson}
use did_rust.Ffi.{c_string}

module _ (J : Json) where
  -- The C string of a document is not null, since no print has a NUL.
  pub c_string-to_string :
      IsJson J → (v : J.Value) → c_string (J.to_string v) ≡ some (J.to_string v)
  unfolding c_string
  c_string-to_string L v = rw (L.to_string-has_nul v)
