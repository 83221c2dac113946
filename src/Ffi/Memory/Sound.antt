-- ===== src/Ffi/Memory/Sound.antt =====
-- The invariant of the memory of C strings.
use did_rust.Prelude.{
  ℕ, Text, has_nul, false, [], ◌∷◌, Option, none, some, Option-cases, Bool-cases, inl, inr, ok, ◌≡◌,
  ◌≢◌, refl, sym, ap, subst, ◌∙◌, ◌==◌, arith,
}
use did_rust.Services.{Services}
use did_rust.Ffi.{
  c_string, generate_did_ffi, verify_vc_ffi, verify_vp_ffi, issue_vc_ffi, issue_vp_ffi,
  resolve_did_ffi, derive_identity_from_prf_ffi, derive_dependent_subkeys_ffi,
  encrypt_vault_payload_ffi, decrypt_vault_payload_ffi,
}
use did_rust.Ffi.Memory.{
  Memory, lookup, erase, Allocator, IsAllocator, into_raw, free_string, Call, generate_did,
  verify_vc, verify_vp, issue_vc, issue_vp, resolve_did, derive_identity_from_prf,
  derive_dependent_subkeys, encrypt_vault_payload, decrypt_vault_payload, run, Step, calls, frees,
  Reach, here, next,
}

-- No address is null or held twice, and no string has a NUL.
abbrev pub IsSound : Memory → Type 0
IsSound [] = Unit
IsSound ((p, s) ∷ m) = (p ≢ 0) × (lookup m p ≡ none) × (has_nul s ≡ false) × IsSound m

c_string-eq-some : (s t : Text) → c_string s ≡ some t → has_nul t ≡ false
unfolding c_string
c_string-eq-some s t h = ground arith

module _ (S : Services) where
  -- No call returns a string with a NUL.
  pub run-eq-some : (c : Call S) (t : Text) → run S c ≡ ok (some t) → has_nul t ≡ false
  unfolding run generate_did_ffi verify_vc_ffi verify_vp_ffi issue_vc_ffi issue_vp_ffi
      resolve_did_ffi derive_identity_from_prf_ffi derive_dependent_subkeys_ffi
      encrypt_vault_payload_ffi decrypt_vault_payload_ffi
  run-eq-some (generate_did sk p) t h = grind (arith, c_string-eq-some)
  run-eq-some (verify_vc now p) t h = grind (arith, c_string-eq-some)
  run-eq-some (verify_vp clock p) t h = grind (arith, c_string-eq-some)
  run-eq-some (issue_vc p q r) t h = grind (arith, c_string-eq-some)
  run-eq-some (issue_vp p q r s) t h = grind (arith, c_string-eq-some)
  run-eq-some (resolve_did p) t h = grind (arith, c_string-eq-some)
  run-eq-some (derive_identity_from_prf p len index) t h = grind (arith, c_string-eq-some)
  run-eq-some (derive_dependent_subkeys p len index) t h = grind (arith, c_string-eq-some)
  run-eq-some (encrypt_vault_payload nonce p q len) t h = grind (arith, c_string-eq-some)
  run-eq-some (decrypt_vault_payload p q len) t h = grind (arith, c_string-eq-some)

lookup-erase_ne : (m : Memory) (p q : ℕ) → lookup m q ≡ none → lookup (erase m p) q ≡ none
lookup-erase_ne [] p q h = refl
lookup-erase_ne ((r, s) ∷ m) p q h = ground (arith, lookup-erase_ne m p q)

erase-IsSound : (m : Memory) (p : ℕ) → IsSound m → IsSound (erase m p)
erase-IsSound [] p h = tt
erase-IsSound ((q, s) ∷ m) p h = elim (Bool-cases (p == q)) [
  | inl same ↦ rw same h.3
  | inr other ↦ rw other (h.0, lookup-erase_ne m p q h.1, h.2, erase-IsSound m p h.3)
]

module _ (S : Services) (A : Allocator) (L : IsAllocator A) where
  into_raw-IsSound :
      (m : Memory) (r : Option Text)
      → ((t : Text) → r ≡ some t → has_nul t ≡ false)
      → IsSound m
      → IsSound (into_raw A m r).1
  unfolding into_raw
  into_raw-IsSound m none clean h = h
  into_raw-IsSound m (some s) clean h = (L.fresh-ne-null m, L.lookup-fresh m, clean s refl, h)

  free_string-IsSound : (m m' : Memory) (p : ℕ) → free_string m p ≡ some m' → IsSound m → IsSound m'
  unfolding free_string
  free_string-IsSound m m' p e h = elim (Bool-cases (p == 0)) [
    | inl null ↦ subst IsSound (ground arith) h
    | inr other ↦ elim (Option-cases (lookup m p)) [
      | inl gone ↦ absurd (ground arith)
      | inr (s, live) ↦ subst IsSound (ground arith) (erase-IsSound m p h)
    ]
  ]

  Step-IsSound : {m m' : Memory} → Step S A m m' → IsSound m → IsSound m'
  Step-IsSound {m} {m'} (calls c r e same) h =
      subst IsSound (sym same) (into_raw-IsSound m r (λ t f. run-eq-some S c t (e ∙ ap ok f)) h)
  Step-IsSound {m} {m'} (frees p e) h = free_string-IsSound m m' p e h

  -- If the allocator is lawful, then calls of the C interface and frees of null or live pointers
  -- keep the memory of C strings sound: no address is null or held twice, and no string has a
  -- NUL.
  pub Reach-IsSound : {m m' : Memory} → IsSound m → Reach S A m m' → IsSound m'
  Reach-IsSound h here = h
  Reach-IsSound h (next r step) = Step-IsSound step (Reach-IsSound h r)
