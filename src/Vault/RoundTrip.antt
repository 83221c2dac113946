-- ===== src/Vault/RoundTrip.antt =====
-- Sealing and opening a vault payload, both ways round, and the failures.
use native.Mathlib.Decide.{dec_lt}
use did_rust.Prelude.{
  ℕ, Option-cases, IsBytes, IsBytes-append, subst, ◌∙◌, ◌+◌, ◌<◌, ◌≤◌, Bytes, length, take, drop,
  ◌++◌, none, some, ok, err, ◌≡◌, ◌⊎◌, inl, inr, ap, length-append, take-append_of_length,
  drop-append_of_length, take-append-drop, length-take, length-drop, ltb-eq-false, ltb-eq-true,
  arith, str,
}
use did_rust.Crates.Primitives.{Primitives, IsLawful}
use did_rust.Crypto.{cipher_operation}
use did_rust.Vault.{
  header_len, nonce_len, split_at, nonce_from_slice, too_short, encrypt_vault_payload,
  decrypt_vault_payload, from_aead,
}

split_at_lem : (n : ℕ) (b : Bytes) → n ≤ length b → split_at n b ≡ some (take n b, drop n b)
split_at_lem n b h = ground arith

nonce_from_slice_lem : (b : Bytes) → length b ≡ 12 → nonce_from_slice b ≡ some b
nonce_from_slice_lem b h = ground arith

module _ (P : Primitives) where
  open P use {aead}

  decrypt_short :
      (kek c : Bytes)
      → length c < header_len
      → decrypt_vault_payload P kek c ≡ err (too_short (length c))
  unfolding decrypt_vault_payload
  decrypt_short kek c h = rw (ltb-eq-true _ _ h)

  -- Behind the length check the two slices are in place, and the cipher decides.
  decrypt_long :
      (kek c : Bytes)
      → header_len ≤ length c
      → decrypt_vault_payload P kek c ≡ from_aead (aead.decrypt kek (take 12 c) (drop 12 c))
  unfolding decrypt_vault_payload
  decrypt_long kek c h = rw (
    ltb-eq-false (length c) header_len h,
    split_at_lem 12 c (omega arith),
    nonce_from_slice_lem (take 12 c) (length-take 12 c (omega arith)),
  )

  -- Every input of `decrypt_vault_payload` has one of three outcomes, and none is a panic: it is
  -- shorter than 28 bytes and the error says so; or the cipher refuses it and the error is that
  -- of the cipher; or the cipher opens it under its first 12 bytes and the result is the
  -- payload.
  pub decrypt_vault_payload-cases :
      (kek c : Bytes)
      → ((length c < header_len) × (decrypt_vault_payload P kek c ≡ err (too_short (length c))))
        ⊎ ((header_len ≤ length c)
            × (aead.decrypt kek (take nonce_len c) (drop nonce_len c) ≡ none)
            × (decrypt_vault_payload P kek c
                ≡ err (cipher_operation (str "AEAD authentication failed"))))
        ⊎ ((m : Bytes) × (header_len ≤ length c)
            × (aead.decrypt kek (take nonce_len c) (drop nonce_len c) ≡ some m)
            × (decrypt_vault_payload P kek c ≡ ok m))
  decrypt_vault_payload-cases kek c = elim (dec_lt (length c) header_len) [
    | yes short ↦ inl (short, decrypt_short kek c short)
    | no long ↦
        let fits : header_len ≤ length c = omega arith in
        elim (Option-cases (aead.decrypt kek (take nonce_len c) (drop nonce_len c))) [
          | inl e ↦ inr (inl (fits, e, decrypt_long kek c fits ∙ ap from_aead e))
          | inr (m, e) ↦ inr (inr (m, fits, e, decrypt_long kek c fits ∙ ap from_aead e))
        ]
  ]

  module _ (L : IsLawful P) where
    -- What is sealed are bytes.
    pub encrypt_vault_payload-IsBytes :
        (nonce kek m c : Bytes)
        → IsBytes nonce
        → IsBytes m
        → encrypt_vault_payload P nonce kek m ≡ ok c
        → IsBytes c
    unfolding encrypt_vault_payload
    encrypt_vault_payload-IsBytes nonce kek m c n b h =
        elim (Option-cases (aead.encrypt kek nonce m)) [
          | inl e ↦ absurd (ground arith)
          | inr (sealed, e) ↦
              let same : nonce ++ sealed ≡ c = ground arith in
              subst IsBytes same
                (IsBytes-append nonce sealed n (L.aead.encrypt-IsBytes kek nonce m b e))
        ]

    decrypt-append :
        (nonce kek m c sealed : Bytes)
        → length nonce ≡ nonce_len
        → c ≡ nonce ++ sealed
        → aead.encrypt kek nonce m ≡ some sealed
        → aead.decrypt kek (take nonce_len c) (drop nonce_len c) ≡ some m
    decrypt-append nonce kek m c sealed n same e =
        rw
          (
            same,
            take-append_of_length nonce_len nonce sealed n,
            drop-append_of_length nonce_len nonce sealed n,
          )
          (L.aead.decrypt-encrypt kek nonce m sealed e)

    -- With lawful packages, what `encrypt_vault_payload` sealed under a nonce of 12 bytes opens
    -- to the same payload under the same key, and is 28 bytes longer than the payload.
    pub decrypt-encrypt :
        (nonce kek m c : Bytes)
        → length nonce ≡ nonce_len
        → encrypt_vault_payload P nonce kek m ≡ ok c
        → (decrypt_vault_payload P kek c ≡ ok m) × (length c ≡ length m + header_len)
    unfolding encrypt_vault_payload
    decrypt-encrypt nonce kek m c n h = elim (Option-cases (aead.encrypt kek nonce m)) [
      | inl e ↦ absurd (ground arith)
      | inr (sealed, e) ↦
          let same : c ≡ nonce ++ sealed = ground arith in
          let size = L.aead.length-encrypt kek nonce m sealed e in
          let total : length c ≡ length m + header_len =
            omega (arith, length-append nonce sealed, ap (λ (b : Bytes). length b) same) in
          (
            decrypt_long kek c (omega arith)
                ∙ ap from_aead (decrypt-append nonce kek m c sealed n same e),
            total,
          )
    ]

    -- With lawful packages, what `decrypt_vault_payload` opens is what `encrypt_vault_payload`
    -- seals from the payload under the first 12 bytes as the nonce, so it is 28 bytes longer
    -- than the payload.
    pub encrypt-decrypt :
        (kek m c : Bytes)
        → decrypt_vault_payload P kek c ≡ ok m
        → (encrypt_vault_payload P (take nonce_len c) kek m ≡ ok c)
          × (length c ≡ length m + header_len)
    unfolding encrypt_vault_payload
    encrypt-decrypt kek m c h = elim (decrypt_vault_payload-cases kek c) [
      | inl (short, failed) ↦ cc
      | inr (inl (fits, refused, failed)) ↦ cc
      | inr (inr (m', fits, opened, e)) ↦
          let same : m' ≡ m = cc in
          let sealed =
            L.aead.encrypt-decrypt kek (take nonce_len c) m (drop nonce_len c)
              (opened ∙ ap (λ (b : Bytes). some b) same) in
          let size = L.aead.length-encrypt kek (take nonce_len c) m (drop nonce_len c) sealed in
          (rw (sealed, take-append-drop nonce_len c), omega (arith, length-drop nonce_len c))
    ]
