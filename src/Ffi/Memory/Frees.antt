-- ===== src/Ffi/Memory/Frees.antt =====
-- Every call returns, and what it returns can be freed, once.
use did_rust.Services.{Services}
use did_rust.Ffi.Safety.{Readable}
use did_rust.Ffi.Memory.{
  Memory, Call, derive_identity_from_prf, derive_dependent_subkeys, encrypt_vault_payload,
  decrypt_vault_payload,
}

module _ (S : Services) where
  -- The bytes that a call is told to read can be read.
  abbrev pub CanRead : Call S → Type 0
  CanRead (derive_identity_from_prf p len index) = Readable p len
  CanRead (derive_dependent_subkeys p len index) = Readable p len
  CanRead (encrypt_vault_payload nonce p q len) = Readable p 32 × Readable q len
  CanRead (decrypt_vault_payload p q len) = Readable p 32 × Readable q len
  CanRead _ = Unit
