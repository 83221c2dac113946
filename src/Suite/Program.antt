-- ===== src/Suite/Program.antt =====
-- The steps of a unit test. A program runs on the C strings that are live; it has no result where
-- an assertion fails, an `unwrap` has nothing, or a pointer that is not live is read or freed.
use did_rust.Prelude.{
  ℕ, Text, Bytes, length, List, [], ◌∷◌, Bool, true, false, Option, none, some, Result, ok, ◌⊎◌,
  inl, inr, ◌==◌, not, if◌then◌else◌,
}
use did_rust.Prelude.Utf8.{from_utf8}
use did_rust.Crates.Json.{Variant, bool, array}
use did_rust.Services.{Services}
use did_rust.Credential.{get_str}
use did_rust.Ffi.{c_string}
use did_rust.Ffi.Memory.{Memory, lookup, Allocator, into_raw, free_string}

abbrev pub Program {ℓ} : Type ℓ → Type ℓ
Program A = Memory → Option (A × Memory)

infixl 5 ◌>>=◌ ◌>>◌
unfoldable pub ◌>>=◌ {ℓ ℓ1} : {A : Type ℓ} {B : Type ℓ1} → Program A → (A → Program B) → Program B
◌>>=◌ p k m = elim (p m) [ none ↦ none | some (a, m') ↦ k a m' ]

abbrev pub ◌>>◌ {ℓ} : {B : Type ℓ} → Program (Unit {0}) → Program B → Program B
p >> q = p >>= λ _. q

-- `unwrap` of an `Option`, and of a `Result`
unfoldable pub unwrap {ℓ} : {A : Type ℓ} → Option A → Program A
unwrap none m = none
unwrap (some a) m = some (a, m)

unfoldable pub unwrap_ok {ℓ ℓ1} : {E : Type ℓ} {A : Type ℓ1} → Result E A → Program A
unwrap_ok (ok a) m = some (a, m)
unwrap_ok _ m = none

-- `unwrap` of the result of a package
unfoldable pub unwrap_inr {ℓ ℓ1} : {E : Type ℓ} {A : Type ℓ1} → E ⊎ A → Program A
unwrap_inr (inl e) m = none
unwrap_inr (inr a) m = some (a, m)

abbrev pub return {ℓ} : {A : Type ℓ} → A → Program A
return a m = some (a, m)

-- `copy_from_slice` into 32 bytes
unfoldable pub copy_from_slice : Bytes → Program Bytes
copy_from_slice b m = if length b == 32 then some (b, m) else none

unfoldable pub assert : Bool → Program (Unit {0})
assert true m = some (tt, m)
assert false m = none

-- A call of the C interface, which hands a pointer out.
unfoldable pub call : Allocator → Result ⊥ (Option Text) → Program ℕ
call A (ok r) m = some (into_raw A m r)
call A _ m = none

-- `!ptr.is_null()`
abbrev pub is_live : ℕ → Bool
is_live ptr = not (ptr == 0)

-- `CStr::from_ptr(ptr).to_str().unwrap()`
unfoldable pub c_str : ℕ → Program Text
c_str ptr m = if ptr == 0 then none else elim (lookup m ptr) [
  | none ↦ none
  | some s ↦ elim (from_utf8 s) [ none ↦ none | some t ↦ some (t, m) ]
]

-- `CString::new(s).unwrap()`
unfoldable pub c_string_new : Text → Program Text
c_string_new s = unwrap (c_string s)

unfoldable pub free : ℕ → Program (Unit {0})
free ptr m = elim (free_string m ptr) [ none ↦ none | some m' ↦ some (tt, m') ]

module _ (S : Services) where
  open S use {json}

  -- `serde_json::from_str(s).unwrap()`
  unfoldable pub from_str : Text → Program json.Value
  from_str s m = elim (json.from_str s) [ inl e ↦ none | inr v ↦ some (v, m) ]

  -- `v[k].as_str().unwrap()`
  unfoldable pub str_at : json.Value → Text → Program Text
  str_at v k = unwrap (get_str S v k)

  -- `v.as_bool()`
  abbrev pub bool_variant : Variant json.Value json.Map json.Number → Option Bool
  bool_variant (bool b) = some b
  bool_variant _ = none

  -- `v[k].as_bool().unwrap()`
  unfoldable pub bool_at : json.Value → Text → Program Bool
  bool_at v k =
      unwrap (elim (json.value_get v k) [ none ↦ none | some x ↦ bool_variant (json.variant x) ])

  -- `v[k]`, where what is read of it next is unwrapped: nothing is read of a value that is missing.
  unfoldable pub index : json.Value → Text → Program json.Value
  index v k = unwrap (json.value_get v k)

-- `v[0]` of a vector.
unfoldable pub first {ℓ} : {A : Type ℓ} → List A → Program A
first [] m = none
first (x ∷ xs) m = some (x, m)

-- `v[0]` of a JSON array, of which something is read next.
unfoldable pub index_first : (S : Services) → S.json.Value → Program S.json.Value
index_first S v m = elim (S.json.variant v) [ array vs ↦ first vs m | _ ↦ none ]
