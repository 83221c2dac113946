-- ===== src/Ffi.antt =====
-- src/lib.rs: the C interface. A pointer argument is what it points to, or nothing where it is
-- null: a text up to its NUL, or the bytes that can be read from it. A pointer result is the text
-- that it points to, or nothing where it is null.
pub mod Strings
pub mod Verify
pub mod Vault
pub mod Issue
pub mod Safety
pub mod Memory
pub mod EndToEnd
pub mod Written
use did_rust.Prelude.{
  ℕ, Text, str, Bytes, length, take, ltb, decimal, has_nul, Bool, true, false, [], ◌∷◌, ◌++◌, ◌||◌,
  Option, none, some, inl, inr, Result, ok, err, panic, ok_or, map_err, guard, ◌>>=◌, ◌>>◌, ◌==◌,
  if◌then◌else◌,
}
use did_rust.Prelude.Utf8.{is_utf8, from_utf8}
use did_rust.Services.{Services}
use did_rust.Crypto.{fmt, derive_identity_from_prf, derive_dependent_subkeys}
use did_rust.Vault.{encrypt_vault_payload, decrypt_vault_payload}
use did_rust.Credential.{verdict, verify_vc, issue_vc}
use did_rust.Presentation.{verify_vp, issue_vp}
use did_rust.Did.{generate_did, resolve_did}
use did_rust.Envelope.{
  derived_envelope, derivation_failed, sealed_envelope, sealing_failed, opened_envelope,
  opening_failed,
}

-- `CString::new` refuses a text with a NUL.
unfoldable pub c_string : Text → Option Text
c_string s = if has_nul s then none else some s

-- `CStr::from_ptr(p).to_str().unwrap_or(default)`
abbrev pub to_str_or : Text → Bytes → Text
to_str_or default s = elim (from_utf8 s) [ none ↦ default | some t ↦ t ]

-- `len` bytes from a pointer to a memory that can be read. Where the caller asks for more than
-- can be read, the code is undefined: that is `panic` here.
unfoldable pub read_byte_slice : {E : Type 0} → Option Bytes → ℕ → Result E (Option Bytes)
read_byte_slice none len = ok none
read_byte_slice (some memory) len =
    if ltb (length memory) len then panic else ok (some (take len memory))

-- The reply of a call that answers.
abbrev pub reply : Result ⊥ Text → Result ⊥ (Option Text)
reply (ok s) = ok (c_string s)
reply (err e) = err e
reply panic = panic

-- The reply of a call, null where it fails.
abbrev pub reply_or_null : Result Text Text → Result ⊥ (Option Text)
reply_or_null (ok s) = ok (c_string s)
reply_or_null (err e) = ok none
reply_or_null panic = panic

module _ (S : Services) where
  open S use {primitives, json, chrono}
  open primitives use {hex, ed25519}

  unfoldable pub generate_did_ffi : ed25519.SigningKey → Option Bytes → Result ⊥ (Option Text)
  generate_did_ffi signing_key none = reply_or_null (generate_did S signing_key [])
  generate_did_ffi signing_key (some method_ptr) =
      reply_or_null (generate_did S signing_key (to_str_or [] method_ptr))

  unfoldable pub verify_vc_ffi : chrono.Time → Option Bytes → Result ⊥ (Option Text)
  verify_vc_ffi now none = ok (c_string (json.to_string (verdict S false (str "Null pointer"))))
  verify_vc_ffi now (some vc_ptr) = elim (from_utf8 vc_ptr) [
    | none ↦ ok (c_string (json.to_string (verdict S false (str "Invalid UTF-8"))))
    | some vc_str ↦ reply (verify_vc S now vc_str)
  ]

  unfoldable pub verify_vp_ffi : (ℕ → chrono.Time) → Option Bytes → Result ⊥ (Option Text)
  verify_vp_ffi clock none = ok (c_string (json.to_string (verdict S false (str "Null pointer"))))
  verify_vp_ffi clock (some vp_ptr) = elim (from_utf8 vp_ptr) [
    | none ↦ ok (c_string (json.to_string (verdict S false (str "Invalid UTF-8"))))
    | some vp_str ↦ reply (verify_vp S clock vp_str)
  ]

  unfoldable pub issue_vc_ffi : Option Bytes → Option Bytes → Option Bytes → Result ⊥ (Option Text)
  issue_vc_ffi (some credential_ptr) (some did_ptr) (some key_ptr) = reply_or_null (
      issue_vc S (to_str_or (str "{}") credential_ptr) (to_str_or [] did_ptr)
        (to_str_or [] key_ptr))
  issue_vc_ffi _ _ _ = ok none

  unfoldable pub issue_vp_ffi :
      Option Bytes → Option Bytes → Option Bytes → Option Bytes → Result ⊥ (Option Text)
  issue_vp_ffi (some vc_ptr) (some holder_ptr) (some challenge_ptr) (some key_ptr) = reply_or_null (
      issue_vp S (to_str_or (str "{}") vc_ptr) (to_str_or [] holder_ptr)
        (to_str_or [] challenge_ptr) (to_str_or [] key_ptr))
  issue_vp_ffi _ _ _ _ = ok none

  unfoldable pub resolve_did_ffi : Option Bytes → Result ⊥ (Option Text)
  resolve_did_ffi none = ok none
  resolve_did_ffi (some did_ptr) = reply_or_null (resolve_did S (to_str_or [] did_ptr))

  abbrev pub length_error : Text → Bytes → Text
  length_error what buf =
      str "Invalid " ++ (what ++ (str " length: expected 32 bytes, got " ++ decimal (length buf)))

  unfoldable pub derive_identity_from_prf_ffi : Option Bytes → ℕ → ℕ → Result ⊥ (Option Text)
  derive_identity_from_prf_ffi prf_seed_ptr seed_len index =
      read_byte_slice prf_seed_ptr seed_len >>= λ found. elim found [
        | none ↦
            ok (c_string (json.to_string (derivation_failed json (str "Null pointer to PRF seed"))))
        | some buf ↦
            if length buf == 32
            then elim (derive_identity_from_prf primitives buf index) [
              | ok identity ↦ ok (
                  c_string
                    (json.to_string (derived_envelope json identity.did identity.nostr_pubkey_hex)))
              | err e ↦ ok (c_string (json.to_string (derivation_failed json (fmt e))))
              | panic ↦ panic
            ]
            else ok (
                c_string
                  (json.to_string (derivation_failed json (length_error (str "PRF seed") buf))))
      ]

  unfoldable pub derive_dependent_subkeys_ffi : Option Bytes → ℕ → ℕ → Result ⊥ (Option Text)
  derive_dependent_subkeys_ffi root_seed_ptr seed_len index =
      read_byte_slice root_seed_ptr seed_len >>= λ found. elim found [
        | none ↦
            ok
              (c_string (json.to_string (derivation_failed json (str "Null pointer to root seed"))))
        | some buf ↦
            if length buf == 32
            then elim (derive_dependent_subkeys primitives buf index) [
              | ok subkeys ↦ ok (
                  c_string
                    (json.to_string (derived_envelope json subkeys.did subkeys.nostr_pubkey_hex)))
              | err e ↦ ok (c_string (json.to_string (derivation_failed json (fmt e))))
              | panic ↦ panic
            ]
            else ok (
                c_string
                  (json.to_string (derivation_failed json (length_error (str "root seed") buf))))
      ]

  -- The key and the payload of a vault call: the first line of its closure, then the length check.
  unfoldable pub read_vault_input :
      Text → Option Bytes → Option Bytes → ℕ → Result Text (Bytes × Bytes)
  read_vault_input what kek_ptr input_ptr input_len = do
    kek_found ← read_byte_slice kek_ptr 32
    kek_buf ← ok_or (str "Null pointer to KEK") kek_found
    input_found ← read_byte_slice input_ptr input_len
    input ← ok_or (str "Null pointer to " ++ what) input_found
    guard (length kek_buf == 32) (length_error (str "KEK") kek_buf)
    ok (kek_buf, input)

  -- The closures of the two vault calls, up to their envelopes.
  unfoldable pub seal_input : Bytes → Option Bytes → Option Bytes → ℕ → Result Text Bytes
  seal_input nonce kek_ptr plaintext_ptr plaintext_len = do
    input ← read_vault_input (str "plaintext") kek_ptr plaintext_ptr plaintext_len
    map_err fmt (encrypt_vault_payload primitives nonce input.0 input.1)

  unfoldable pub open_input : Option Bytes → Option Bytes → ℕ → Result Text Bytes
  open_input kek_ptr ciphertext_ptr ciphertext_len = do
    input ← read_vault_input (str "ciphertext") kek_ptr ciphertext_ptr ciphertext_len
    map_err fmt (decrypt_vault_payload primitives input.0 input.1)

  unfoldable pub encrypt_vault_payload_ffi :
      Bytes → Option Bytes → Option Bytes → ℕ → Result ⊥ (Option Text)
  encrypt_vault_payload_ffi nonce kek_ptr plaintext_ptr plaintext_len =
      elim (seal_input nonce kek_ptr plaintext_ptr plaintext_len) [
        | ok sealed ↦ ok (c_string (json.to_string (sealed_envelope json (hex.encode sealed))))
        | err e ↦ ok (c_string (json.to_string (sealing_failed json e)))
        | panic ↦ panic
      ]

  unfoldable pub decrypt_vault_payload_ffi :
      Option Bytes → Option Bytes → ℕ → Result ⊥ (Option Text)
  decrypt_vault_payload_ffi kek_ptr ciphertext_ptr ciphertext_len =
      elim (open_input kek_ptr ciphertext_ptr ciphertext_len) [
        | ok plaintext ↦ ok (
            c_string
              (json.to_string (opened_envelope json (from_utf8 plaintext) (hex.encode plaintext))))
        | err e ↦ ok (c_string (json.to_string (opening_failed json e)))
        | panic ↦ panic
      ]
