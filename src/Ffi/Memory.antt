-- ===== src/Ffi/Memory.antt =====
-- src/lib.rs: `c_string` and `free_string`, on the C strings that the caller holds. A pointer is an
-- address, 0 if it is null. A call of the C interface hands a string out, and `free_string` takes
-- one back.
pub mod Sound
pub mod Frees
use did_rust.Prelude.{
  ℕ, Text, Bytes, List, [], ◌∷◌, Option, none, some, Result, ok, ◌≡◌, ◌≢◌, ◌==◌, if◌then◌else◌,
}
use did_rust.Services.{Services}
use did_rust.Ffi.{
  generate_did_ffi, verify_vc_ffi, verify_vp_ffi, issue_vc_ffi, issue_vp_ffi, resolve_did_ffi,
  derive_identity_from_prf_ffi, derive_dependent_subkeys_ffi, encrypt_vault_payload_ffi,
  decrypt_vault_payload_ffi,
}

-- The strings that are live, each with its address.
abbrev pub Memory : Type 0
Memory = List (ℕ × Text)

abbrev pub lookup : Memory → ℕ → Option Text
lookup [] p = none
lookup ((q, s) ∷ m) p = if p == q then some s else lookup m p

abbrev pub erase : Memory → ℕ → Memory
erase [] p = []
erase ((q, s) ∷ m) p = let rest = erase m p in if p == q then m else (q, s) ∷ rest

-- The allocator of the C string: an address that is not null and not that of a live string.
pub record Allocator : Type 0 where
  pub fresh : Memory → ℕ

pub record IsAllocator (A : Allocator) : Type 0 where
  pub fresh-ne-null : (m : Memory) → A.fresh m ≢ 0
  pub lookup-fresh : (m : Memory) → lookup m (A.fresh m) ≡ none

-- The pointer to what `c_string` made: `CString::into_raw`, or null.
unfoldable pub into_raw : Allocator → Memory → Option Text → ℕ × Memory
into_raw A m none = (0, m)
into_raw A m (some s) = (A.fresh m, (A.fresh m, s) ∷ m)

-- `CString::from_raw` of a pointer that is not to a live string is undefined: `none`.
unfoldable pub free_string : Memory → ℕ → Option Memory
free_string m ptr =
    if ptr == 0 then some m else elim (lookup m ptr) [ none ↦ none | some _ ↦ some (erase m ptr) ]

module _ (S : Services) where
  open S use {primitives, chrono}
  open primitives use {ed25519}

  -- The calls that return a string, with what their pointers point to.
  pub data Call : Type 0 where
    generate_did : ed25519.SigningKey → Option Bytes → Call
    verify_vc : chrono.Time → Option Bytes → Call
    verify_vp : (ℕ → chrono.Time) → Option Bytes → Call
    issue_vc : Option Bytes → Option Bytes → Option Bytes → Call
    issue_vp : Option Bytes → Option Bytes → Option Bytes → Option Bytes → Call
    resolve_did : Option Bytes → Call
    derive_identity_from_prf : Option Bytes → ℕ → ℕ → Call
    derive_dependent_subkeys : Option Bytes → ℕ → ℕ → Call
    encrypt_vault_payload : Bytes → Option Bytes → Option Bytes → ℕ → Call
    decrypt_vault_payload : Option Bytes → Option Bytes → ℕ → Call

  unfoldable pub run : Call → Result ⊥ (Option Text)
  run (generate_did sk p) = generate_did_ffi S sk p
  run (verify_vc now p) = verify_vc_ffi S now p
  run (verify_vp clock p) = verify_vp_ffi S clock p
  run (issue_vc p q r) = issue_vc_ffi S p q r
  run (issue_vp p q r s) = issue_vp_ffi S p q r s
  run (resolve_did p) = resolve_did_ffi S p
  run (derive_identity_from_prf p len index) = derive_identity_from_prf_ffi S p len index
  run (derive_dependent_subkeys p len index) = derive_dependent_subkeys_ffi S p len index
  run (encrypt_vault_payload nonce p q len) = encrypt_vault_payload_ffi S nonce p q len
  run (decrypt_vault_payload p q len) = decrypt_vault_payload_ffi S p q len

  module _ (A : Allocator) where
    -- What a caller does: it calls, or it frees a pointer that is null or live.
    pub data Step (m m' : Memory) : Type 0 where
      calls : (c : Call) (r : Option Text) → run c ≡ ok r → m' ≡ (into_raw A m r).1 → Step m m'
      frees : (p : ℕ) → free_string m p ≡ some m' → Step m m'

    pub data Reach (m : Memory) : Memory → Type 0 where
      here : Reach m m
      next : {n k : Memory} → Reach m n → Step n k → Reach m k
