-- ===== src/Suite/Rejects.antt =====
-- tests/test_dependent_derivation.rs and tests/test_prf_and_derivation.rs: the tests of the two
-- calls that derive keys on a null pointer and on a seed of the wrong length.
use did_rust.Prelude.{
  ℕ, zero, suc, Text, str, text_eq, Bytes, decimal, contains, starts_with, Bool, true, false, [],
  ◌∷◌, Option, none, some, inr, Result, ok, not, ◌≡◌, ◌∙◌, refl, ap,
}
use did_rust.Prelude.Utf8.{is_utf8}
use did_rust.Crates.Json.{bool, json_object}
use did_rust.Crates.Json.Tree.{IsReadBack, fields, text, truth, member, end}
use did_rust.Services.{Services, IsLawful}
use did_rust.Envelope.{derivation_failed}
use did_rust.Credential.{get_str}
use did_rust.Credential.Verdict.{value_get-json_object}
use did_rust.Ffi.{
  c_string, read_byte_slice, length_error, derive_identity_from_prf_ffi,
  derive_dependent_subkeys_ffi,
}
use did_rust.Ffi.Strings.{c_string-to_string}
use did_rust.Ffi.Memory.{Memory, Allocator, IsAllocator}
use did_rust.Suite.Program.{
  Program, ◌>>=◌, ◌>>◌, assert, call, is_live, c_str, free, from_str, str_at, bool_at,
}
use did_rust.Suite.Steps.{◌⨾◌, step, assert_lem, from_str_lem, str_at_lem, bool_at_lem, free_under}
use did_rust.Suite.Sessions.{call_live}
use did_rust.Credential.Verdict.{get_str-json_object}

-- `[b; n]`
abbrev pub fill : ℕ → ℕ → Bytes
fill b zero = []
fill b (suc n) = b ∷ fill b n

module _ (S : Services) (A : Allocator) where
  open S use {json}

  unfoldable pub test_dependent_ffi_rejects_bad_input : Program (Unit {0})
  test_dependent_ffi_rejects_bad_input = do
    null_ptr ← call A (derive_dependent_subkeys_ffi S none 32 0)
    assert (is_live null_ptr)
    null_str ← c_str null_ptr
    null_parsed ← from_str S null_str
    null_valid ← bool_at S null_parsed (str "valid")
    assert (not null_valid)
    null_error ← str_at S null_parsed (str "error")
    assert (contains null_error (str "Null pointer"))
    free null_ptr
    short_ptr ← call A (derive_dependent_subkeys_ffi S (some (fill 0x11 16)) 16 0)
    assert (is_live short_ptr)
    short_str ← c_str short_ptr
    short_parsed ← from_str S short_str
    short_valid ← bool_at S short_parsed (str "valid")
    assert (not short_valid)
    short_error ← str_at S short_parsed (str "error")
    assert (contains short_error (str "32"))
    free short_ptr
    long_ptr ← call A (derive_dependent_subkeys_ffi S (some (fill 0x22 64)) 64 0)
    assert (is_live long_ptr)
    long_str ← c_str long_ptr
    long_parsed ← from_str S long_str
    long_valid ← bool_at S long_parsed (str "valid")
    assert (not long_valid)
    long_error ← str_at S long_parsed (str "error")
    assert (contains long_error (str "32"))
    free long_ptr

  unfoldable pub test_ffi_derive_identity_rejects_bad_input : Program (Unit {0})
  test_ffi_derive_identity_rejects_bad_input = do
    null_ptr ← call A (derive_identity_from_prf_ffi S none 0 0)
    assert (is_live null_ptr)
    null_str ← c_str null_ptr
    null_parsed ← from_str S null_str
    null_valid ← bool_at S null_parsed (str "valid")
    assert (not null_valid)
    null_error ← str_at S null_parsed (str "error")
    assert (not (text_eq null_error []))
    free null_ptr
    short_ptr ← call A (derive_identity_from_prf_ffi S (some (fill 0x77 16)) 16 0)
    assert (is_live short_ptr)
    short_str ← c_str short_ptr
    short_parsed ← from_str S short_str
    short_valid ← bool_at S short_parsed (str "valid")
    assert (not short_valid)
    short_error ← str_at S short_parsed (str "error")
    assert (contains short_error (str "32"))
    free short_ptr

  module _ (L : IsLawful S) (R : IsReadBack json) (I : IsAllocator A) where
    module _ (e : Text) (h : is_utf8 e ≡ true) where
      failed-reads :
          json.from_str (json.to_string (derivation_failed json e)) ≡ inr (derivation_failed json e)
      unfolding derivation_failed json_object str is_utf8
      failed-reads =
          R.from_str-to_string
            (fields (
              member (str "valid") (truth false) (
                member (str "did") (text [])
                  (member (str "nostr_pubkey_hex") (text []) (member (str "error") (text e) end)))))
            (refl, tt, (refl, refl, (refl, refl, (refl, h, tt))))

      failed-valid :
          json.value_get (derivation_failed json e) (str "valid") ≡ some (json.value (bool false))
      unfolding derivation_failed str text_eq
      failed-valid = value_get-json_object S L.json _ (str "valid")

      failed-error : get_str S (derivation_failed json e) (str "error") ≡ some e
      unfolding derivation_failed str text_eq
      failed-error = get_str-json_object S L.json _ (str "error") e refl h

    -- A call that replies with the error `e`, which meets a test; the string is freed.
    call_rejected {ℓ} :
        (m : Memory) {B : Type ℓ} {result : Option (B × Memory)} (passes : Text → Bool)
        (K : ℕ → Program B) (reply : Result ⊥ (Option Text)) (e : Text)
        → is_utf8 e ≡ true
        → reply ≡ ok (some (json.to_string (derivation_failed json e)))
        → passes e ≡ true
        → K (A.fresh m) ((A.fresh m, json.to_string (derivation_failed json e)) ∷ m) ≡ result
        → (call A reply >>= λ ptr.
              assert (is_live ptr)
              >> (c_str ptr >>= λ s. from_str S s >>= λ v. bool_at S v (str "valid") >>= λ valid.
                  assert (not valid)
                  >> (str_at S v (str "error") >>= λ error. assert (passes error) >> K ptr)))
            m
          ≡ result
    call_rejected m passes K reply e h replies good rest =
        call_live S A L R I m _ reply (derivation_failed json e) replies
        ⨾ step _ _ (from_str_lem S _ _ (failed-reads e h))
        ⨾ step _ _ (bool_at_lem S L.json _ (str "valid") false (failed-valid e h))
        ⨾ step _ _ (assert_lem refl)
        ⨾ step _ _ (str_at_lem S _ (str "error") e (failed-error e h))
        ⨾ step _ _ (assert_lem good)
        ⨾ rest

    said :
        (e : Text) (reply : Result ⊥ (Option Text))
        → reply ≡ ok (c_string (json.to_string (derivation_failed json e)))
        → reply ≡ ok (some (json.to_string (derivation_failed json e)))
    said e reply same = same ∙ ap ok (c_string-to_string json L.json (derivation_failed json e))

    frees : (m : Memory) (e : Text) → free (A.fresh m) ((A.fresh m, e) ∷ m) ≡ some (tt, m)
    frees m e = free_under [] m (A.fresh m) e (I.fresh-ne-null m) tt

    pub test_dependent_ffi_rejects_bad_input_lem :
        (m : Memory) → test_dependent_ffi_rejects_bad_input m ≡ some (tt, m)
    unfolding test_dependent_ffi_rejects_bad_input derive_dependent_subkeys_ffi read_byte_slice str
        contains starts_with is_utf8 decimal
    test_dependent_ffi_rejects_bad_input_lem m =
        let wrong = length_error S (str "root seed") in
        call_rejected m (λ e. contains e (str "Null pointer")) _ _ (str "Null pointer to root seed")
          refl (said _ _ refl) refl
        ⨾ step _ _ (frees m _)
        ⨾ call_rejected m (λ e. contains e (str "32")) _ _ (wrong (fill 0x11 16)) refl
            (said _ _ refl) refl
        ⨾ step _ _ (frees m _)
        ⨾ call_rejected m (λ e. contains e (str "32")) _ _ (wrong (fill 0x22 64)) refl
            (said _ _ refl) refl
        ⨾ frees m _

    pub test_ffi_derive_identity_rejects_bad_input_lem :
        (m : Memory) → test_ffi_derive_identity_rejects_bad_input m ≡ some (tt, m)
    unfolding test_ffi_derive_identity_rejects_bad_input derive_identity_from_prf_ffi
        read_byte_slice str contains starts_with is_utf8 decimal text_eq
    test_ffi_derive_identity_rejects_bad_input_lem m =
        let wrong = length_error S (str "PRF seed") in
        call_rejected m (λ e. not (text_eq e [])) _ _ (str "Null pointer to PRF seed") refl
          (said _ _ refl) refl
        ⨾ step _ _ (frees m _)
        ⨾ call_rejected m (λ e. contains e (str "32")) _ _ (wrong (fill 0x77 16)) refl
            (said _ _ refl) refl
        ⨾ frees m _
