-- ===== src/Suite/Steps.antt =====
-- How each step of a unit test runs.
use did_rust.Prelude.{
  ℕ, Text, Bytes, length, Bool, true, false, has_nul, List, ◌∷◌, ◌++◌, refl, All, Option, none,
  some, Result, ok, ◌≡◌, ◌≢◌, ap, ◌∙◌, none, [], ◌⊎◌, inr, subst, sym, arith,
}
use did_rust.Prelude.Utf8.{is_utf8}
use did_rust.Crates.Json.{bool, array, IsJson}
use did_rust.Services.{Services}
use did_rust.Credential.{get_str}
use did_rust.Ffi.{c_string}
use did_rust.Ffi.Memory.{Memory, lookup, Allocator, IsAllocator, into_raw, free_string}
use did_rust.Suite.Program.{
  Program, ◌>>=◌, unwrap, unwrap_ok, unwrap_inr, copy_from_slice, first, assert, call, is_live,
  c_str, c_string_new, free, from_str, str_at, index, index_first, bool_at, bool_variant,
}

-- A step that runs, and what follows it.
pub step {ℓ ℓ1} :
    {A : Type ℓ} {B : Type ℓ1} (p : Program A) (k : A → Program B) {m m' : Memory} {a : A}
    {r : Option (B × Memory)}
    → p m ≡ some (a, m')
    → k a m' ≡ r
    → (p >>= k) m ≡ r
unfolding ◌>>=◌
step p k e f = ap (λ o. elim o [ none ↦ none | some (b, n) ↦ k b n ]) e ∙ f

-- What comes after a step, or after several.
infixr 1 ◌⨾◌
abbrev pub ◌⨾◌ {ℓ ℓ1} : {X : Type ℓ} {Y : Type ℓ1} → (X → Y) → X → Y
f ⨾ x = f x

module _ {m : Memory} where
  pub unwrap_ok_lem {ℓ ℓ1} :
      {E : Type ℓ} {A : Type ℓ1} {r : Result E A} {a : A} → r ≡ ok a → unwrap_ok r m ≡ some (a, m)
  unfolding unwrap_ok
  unwrap_ok_lem h = rw h

  pub unwrap_inr_lem {ℓ ℓ1} :
      {E : Type ℓ} {A : Type ℓ1} {r : E ⊎ A} {a : A} → r ≡ inr a → unwrap_inr r m ≡ some (a, m)
  unfolding unwrap_inr
  unwrap_inr_lem h = rw h

  pub copy_from_slice_lem : (b : Bytes) → length b ≡ 32 → copy_from_slice b m ≡ some (b, m)
  unfolding copy_from_slice
  copy_from_slice_lem b h = ground (arith, h)

  pub first_lem {ℓ} : {A : Type ℓ} (x : A) (xs : List A) → first (x ∷ xs) m ≡ some (x, m)
  unfolding first
  first_lem x xs = refl

  pub assert_lem : {b : Bool} → b ≡ true → assert b m ≡ some (tt, m)
  unfolding assert
  assert_lem h = rw h

  pub c_string_new_lem : (t : Text) → has_nul t ≡ false → c_string_new t m ≡ some (t, m)
  unfolding c_string_new unwrap c_string
  c_string_new_lem t h = rw h

  pub call_string :
      (A : Allocator) (r : Result ⊥ (Option Text)) (t : Text)
      → r ≡ ok (some t)
      → call A r m ≡ some (A.fresh m, (A.fresh m, t) ∷ m)
  unfolding call into_raw
  call_string A r t h = rw h

  pub c_str_top :
      (p : ℕ) (t : Text) → p ≢ 0 → is_utf8 t ≡ true → c_str p ((p, t) ∷ m) ≡ some (t, (p, t) ∷ m)
  unfolding c_str
  c_str_top p t live text = ground arith

  pub from_str_lem :
      (S : Services) (s : Text) (v : S.json.Value)
      → S.json.from_str s ≡ inr v
      → from_str S s m ≡ some (v, m)
  unfolding from_str
  from_str_lem S s v h = rw (h, from_str)

  pub str_at_lem :
      (S : Services) (v : S.json.Value) (k t : Text)
      → get_str S v k ≡ some t
      → str_at S v k m ≡ some (t, m)
  unfolding str_at unwrap
  str_at_lem S v k t h = rw h

  pub index_lem :
      (S : Services) (v : S.json.Value) (k : Text) (x : S.json.Value)
      → S.json.value_get v k ≡ some x
      → index S v k m ≡ some (x, m)
  unfolding index unwrap
  index_lem S v k x h = rw h

  pub index_first_lem :
      (S : Services)
      → IsJson S.json
      → (x : S.json.Value) (xs : List S.json.Value)
      → index_first S (S.json.value (array (x ∷ xs))) m ≡ some (x, m)
  unfolding index_first first
  index_first_lem S L x xs = rw (L.variant-value (array (x ∷ xs)) tt, index_first)

  pub bool_at_lem :
      (S : Services)
      → IsJson S.json
      → (v : S.json.Value) (k : Text) (b : Bool)
      → S.json.value_get v k ≡ some (S.json.value (bool b))
      → bool_at S v k m ≡ some (b, m)
  unfolding bool_at unwrap
  bool_at_lem S L v k b h =
      rw (h, bool_at, bool_variant, ap (bool_variant S) (L.variant-value (bool b) tt))

pub is_live-ne : (p : ℕ) → p ≢ 0 → is_live p ≡ true
is_live-ne p h = ground arith

-- Freeing a string, wherever it stands.
free_top : (m : Memory) (p : ℕ) (t : Text) → p ≢ 0 → free_string ((p, t) ∷ m) p ≡ some m
unfolding free_string
free_top m p t h = ground arith

free_below :
    (above m : Memory) (p : ℕ) (t : Text)
    → p ≢ 0
    → All (λ e. p ≢ e.0) above
    → free_string (above ++ ((p, t) ∷ m)) p ≡ some (above ++ m)
unfolding free_string
free_below [] m p t h apart = free_top m p t h
free_below ((q, s) ∷ above) m p t h apart =
    ground (arith, free_below above m p t h apart.1, apart.0)

free_lem : (m m' : Memory) (p : ℕ) → free_string m p ≡ some m' → free p m ≡ some (tt, m')
unfolding free
free_lem m m' p h = rw (h, free)

-- A string that is held has another address than the next one.
abbrev pub Holds : Memory → ℕ → Type 0
Holds [] p = ⊥
Holds ((q, s) ∷ m) p = (p ≡ q) ⊎ Holds m p

lookup-ne-none : (m : Memory) (p : ℕ) → Holds m p → lookup m p ≢ none
lookup-ne-none [] p h e = absurd h
lookup-ne-none ((q, s) ∷ m) p h e = ground (arith, h, lookup-ne-none m p)

pub ne-fresh : (A : Allocator) → IsAllocator A → (m : Memory) (p : ℕ) → Holds m p → p ≢ A.fresh m
ne-fresh A I m p h e =
    lookup-ne-none m p h (subst (λ q. lookup m q ≡ none) (sym e) (I.lookup-fresh m))

-- The string that stands below others is freed.
pub free_under :
    (above m : Memory) (p : ℕ) (t : Text)
    → p ≢ 0
    → All (λ e. p ≢ e.0) above
    → free p (above ++ ((p, t) ∷ m)) ≡ some (tt, above ++ m)
free_under above m p t h apart = free_lem _ _ p (free_below above m p t h apart)
