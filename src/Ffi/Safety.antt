-- ===== src/Ffi/Safety.antt =====
-- No call of the C interface panics where its bytes can be read and the HTTP client can be built.
use did_rust.Prelude.{
  ℕ, [], Text, Bytes, true, Option, none, some, length, ◌≤◌, Result, ok, err, panic, ◌≡◌, ◌≢◌, refl,
  arith,
}
use did_rust.Prelude.Utf8.{is_utf8}
use did_rust.Services.{Services, IsLawful, network}
use did_rust.Resolver.Safety.{HasClient}
use did_rust.Safety.{
  generate_did-ne-panic, issue_vc-ne-panic, resolve_did-ne-panic, verify_vc-ne-panic,
  verify_vp-ne-panic, derived-ne-panic, encrypt-ne-panic, decrypt-ne-panic,
}
use did_rust.Presentation.Issuable.{issue_vp-ne-panic}
use did_rust.Ffi.{
  read_byte_slice, reply, reply_or_null, to_str_or, read_vault_input, seal_input, open_input,
  generate_did_ffi, verify_vc_ffi, verify_vp_ffi, issue_vc_ffi, issue_vp_ffi, resolve_did_ffi,
  derive_identity_from_prf_ffi, derive_dependent_subkeys_ffi, encrypt_vault_payload_ffi,
  decrypt_vault_payload_ffi,
}

reply-ne-panic : (r : Result ⊥ Text) → r ≢ panic → reply r ≢ panic
reply-ne-panic (ok s) h = cc
reply-ne-panic (err e) h = absurd e
reply-ne-panic panic h = absurd (h refl)

reply_or_null-ne-panic : (r : Result Text Text) → r ≢ panic → reply_or_null r ≢ panic
reply_or_null-ne-panic (ok s) h = cc
reply_or_null-ne-panic (err e) h = cc
reply_or_null-ne-panic panic h = absurd (h refl)

nil-is_utf8 : is_utf8 [] ≡ true
unfolding is_utf8
nil-is_utf8 = refl

-- What a text that is not valid is replaced by is valid.
to_str_or-is_utf8 : (s : Bytes) → is_utf8 (to_str_or [] s) ≡ true
to_str_or-is_utf8 s = ground (arith, nil-is_utf8)

-- `len` bytes can be read from a pointer, or it is null.
abbrev pub Readable : Option Bytes → ℕ → Type 0
Readable none len = Unit
Readable (some memory) len = len ≤ length memory

read_byte_slice-ne-panic :
    {E : Type 0} (p : Option Bytes) (len : ℕ)
    → Readable p len
    → read_byte_slice {E = E} p len ≢ panic
unfolding read_byte_slice
read_byte_slice-ne-panic none len h = cc
read_byte_slice-ne-panic (some memory) len h = ground arith

module _ (S : Services) where
  open S use {primitives, json, chrono}
  open primitives use {ed25519}

  read_vault_input-ne-panic :
      (what : Text) (kek_ptr input_ptr : Option Bytes) (len : ℕ)
      → Readable kek_ptr 32
      → Readable input_ptr len
      → read_vault_input S what kek_ptr input_ptr len ≢ panic
  unfolding read_vault_input
  read_vault_input-ne-panic what kek_ptr input_ptr len k h = ground (
    arith,
    read_byte_slice-ne-panic {E = Text} kek_ptr 32 k,
    read_byte_slice-ne-panic {E = Text} input_ptr len h,
  )

  seal_input-ne-panic :
      (nonce : Bytes) (kek_ptr input_ptr : Option Bytes) (len : ℕ)
      → Readable kek_ptr 32
      → Readable input_ptr len
      → seal_input S nonce kek_ptr input_ptr len ≢ panic
  unfolding seal_input
  seal_input-ne-panic nonce kek_ptr input_ptr len k h =
      grind (arith, read_vault_input-ne-panic, encrypt-ne-panic S)

  open_input-ne-panic :
      (kek_ptr input_ptr : Option Bytes) (len : ℕ)
      → Readable kek_ptr 32
      → Readable input_ptr len
      → open_input S kek_ptr input_ptr len ≢ panic
  unfolding open_input
  open_input-ne-panic kek_ptr input_ptr len k h =
      grind (arith, read_vault_input-ne-panic, decrypt-ne-panic S)

  module _ (L : IsLawful S) (H : HasClient (network S)) where
    pub verify_vc_ffi-ne-panic :
        (now : chrono.Time) (p : Option Bytes) → verify_vc_ffi S now p ≢ panic
    unfolding verify_vc_ffi
    verify_vc_ffi-ne-panic now p = grind (arith, verify_vc-ne-panic S L H, reply-ne-panic)

    pub verify_vp_ffi-ne-panic :
        (clock : ℕ → chrono.Time) (p : Option Bytes) → verify_vp_ffi S clock p ≢ panic
    unfolding verify_vp_ffi
    verify_vp_ffi-ne-panic clock p = grind (arith, verify_vp-ne-panic S L H, reply-ne-panic)

    pub generate_did_ffi-ne-panic :
        (sk : ed25519.SigningKey) (p : Option Bytes) → generate_did_ffi S sk p ≢ panic
    unfolding generate_did_ffi
    generate_did_ffi-ne-panic sk p =
        grind (arith, generate_did-ne-panic S sk, reply_or_null-ne-panic)

    pub issue_vc_ffi-ne-panic : (p q r : Option Bytes) → issue_vc_ffi S p q r ≢ panic
    unfolding issue_vc_ffi
    issue_vc_ffi-ne-panic p q r = grind (arith, issue_vc-ne-panic S, reply_or_null-ne-panic)

    pub issue_vp_ffi-ne-panic : (p q r s : Option Bytes) → issue_vp_ffi S p q r s ≢ panic
    unfolding issue_vp_ffi
    issue_vp_ffi-ne-panic p q r s = grind (arith, issue_vp-ne-panic S, reply_or_null-ne-panic)

    pub resolve_did_ffi-ne-panic : (p : Option Bytes) → resolve_did_ffi S p ≢ panic
    unfolding resolve_did_ffi
    resolve_did_ffi-ne-panic p =
        grind (arith, resolve_did-ne-panic S H, to_str_or-is_utf8, reply_or_null-ne-panic)

    pub derive_identity_from_prf_ffi-ne-panic :
        (p : Option Bytes) (len index : ℕ)
        → Readable p len
        → derive_identity_from_prf_ffi S p len index ≢ panic
    unfolding derive_identity_from_prf_ffi
    derive_identity_from_prf_ffi-ne-panic p len index h =
        grind (arith, read_byte_slice-ne-panic {E = ⊥} p len h, derived-ne-panic S L)

    pub derive_dependent_subkeys_ffi-ne-panic :
        (p : Option Bytes) (len index : ℕ)
        → Readable p len
        → derive_dependent_subkeys_ffi S p len index ≢ panic
    unfolding derive_dependent_subkeys_ffi
    derive_dependent_subkeys_ffi-ne-panic p len index h =
        grind (arith, read_byte_slice-ne-panic {E = ⊥} p len h, derived-ne-panic S L)

    pub encrypt_vault_payload_ffi-ne-panic :
        (nonce : Bytes) (p q : Option Bytes) (len : ℕ)
        → Readable p 32
        → Readable q len
        → encrypt_vault_payload_ffi S nonce p q len ≢ panic
    unfolding encrypt_vault_payload_ffi
    encrypt_vault_payload_ffi-ne-panic nonce p q len k h = grind (arith, seal_input-ne-panic)

    pub decrypt_vault_payload_ffi-ne-panic :
        (p q : Option Bytes) (len : ℕ)
        → Readable p 32
        → Readable q len
        → decrypt_vault_payload_ffi S p q len ≢ panic
    unfolding decrypt_vault_payload_ffi
    decrypt_vault_payload_ffi-ne-panic p q len k h = grind (arith, open_input-ne-panic)
