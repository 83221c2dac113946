-- ===== src/Crypto/Attempts.antt =====
-- The loop that looks for a scalar, and what each round hashes.
use mathlib.Core.List.{foldl}
use native.Mathlib.Decide.{dec_lt}
use mathlib.Core.Path.{fun_ext}
use did_rust.Prelude.{
  ℕ, zero, suc, ◌+◌, ◌<◌, ◌≤◌, Bytes, List, [], ◌∷◌, ◌++◌, flatten, ◌≡◌, refl, ◌⊎◌, inl, inr, ◌∙◌,
  ap, subst, Result, sym, ltb-eq-true, append_assoc, append-nil, Bool-cases, true, false, ok, err,
  arith,
}
use did_rust.Prelude.Words.{to_le_bytes}
use did_rust.Crates.Primitives.{Primitives, IsLawful}
use did_rust.Crypto.{
  CryptoError, scalar_derivation_failed, is_valid, attempts, nostr_domain, dependent_nostr_domain,
  scalar_candidate, dependent_candidate, sha256_concat, derive_secp256k1_scalar,
  derive_dependent_secp256k1_scalar,
}

-- The byte of the attempt, which the first round leaves out.
abbrev pub attempt_suffix : ℕ → Bytes
attempt_suffix zero = []
attempt_suffix (suc k) = suc k ∷ []

-- The bytes that a round hashes.
abbrev pub nostr_preimage : Bytes → ℕ → ℕ → Bytes
nostr_preimage root_seed index attempt =
    nostr_domain ++ (root_seed ++ (to_le_bytes index ++ attempt_suffix attempt))

abbrev pub dependent_nostr_preimage : Bytes → ℕ → ℕ → Bytes
dependent_nostr_preimage root_seed index attempt =
    dependent_nostr_domain ++ (root_seed ++ (to_le_bytes index ++ attempt_suffix attempt))

module _ (P : Primitives) where
  open P use {sha256}

  -- The digest of some bytes.
  abbrev pub digest : Bytes → Bytes
  digest b = sha256.finalize (sha256.update sha256.new b)

  -- What a search among the candidates of the rounds from `lo` below `hi` returns: the first one
  -- that is a valid scalar, or the error where none is.
  pub data Searched (candidate : ℕ → Bytes) (lo hi : ℕ) : Result CryptoError Bytes → Type 0 where
    found :
        (k : ℕ)
        → lo ≤ k
        → k < hi
        → is_valid P (candidate k) ≡ true
        → ((j : ℕ) → lo ≤ j → j < k → is_valid P (candidate j) ≡ false)
        → Searched candidate lo hi (ok (candidate k))
    exhausted :
        ((j : ℕ) → lo ≤ j → j < hi → is_valid P (candidate j) ≡ false)
        → Searched candidate lo hi (err scalar_derivation_failed)

  pub Searched-cases :
      (candidate : ℕ → Bytes) (lo hi : ℕ) {r : Result CryptoError Bytes}
      → Searched candidate lo hi r
      → ((k : ℕ) × (lo ≤ k) × (k < hi) × (is_valid P (candidate k) ≡ true) × (r ≡ ok (candidate k)))
        ⊎ (((j : ℕ) → lo ≤ j → j < hi → is_valid P (candidate j) ≡ false)
            × (r ≡ err scalar_derivation_failed))
  Searched-cases candidate lo hi (found k l h valid before) = inl (k, l, h, valid, refl)
  Searched-cases candidate lo hi (exhausted all) = inr (all, refl)

  invalid_from :
      (candidate : ℕ → Bytes) (lo hi : ℕ)
      → is_valid P (candidate lo) ≡ false
      → ((j : ℕ) → suc lo ≤ j → j < hi → is_valid P (candidate j) ≡ false)
      → (j : ℕ) → lo ≤ j
      → j < hi
      → is_valid P (candidate j) ≡ false
  invalid_from candidate lo hi first later j h k = elim (dec_lt lo j) [
    | yes after ↦ later j after k
    | no not_after ↦ subst (λ i. is_valid P (candidate i) ≡ false) (omega arith) first
  ]

  Searched-earlier :
      (candidate : ℕ → Bytes) (lo hi : ℕ) {r : Result CryptoError Bytes}
      → is_valid P (candidate lo) ≡ false
      → Searched candidate (suc lo) hi r
      → Searched candidate lo hi r
  Searched-earlier candidate lo hi first (found k l h valid before) =
      found k (omega arith) h valid (invalid_from candidate lo k first before)
  Searched-earlier candidate lo hi first (exhausted all) =
      exhausted (invalid_from candidate lo hi first all)

  attempts-Searched :
      (candidate : ℕ → Bytes) (left attempt hi : ℕ)
      → attempt + left ≡ hi
      → Searched candidate attempt hi (attempts P candidate left attempt)
  unfolding attempts
  attempts-Searched candidate zero attempt hi e = exhausted (λ j h k. absurd (omega arith))
  attempts-Searched candidate (suc left) attempt hi e =
      elim (Bool-cases (is_valid P (candidate attempt))) [
        | inl valid ↦
            rw valid
              (found attempt (omega arith) (omega arith) valid (λ j h k. absurd (omega arith)))
        | inr invalid ↦ rw invalid (
            Searched-earlier candidate attempt hi invalid
              (attempts-Searched candidate left (suc attempt) hi (omega arith)))
      ]

  module _ (L : IsLawful P) where
    update_parts :
        (s : sha256.Hasher) (a : Bytes) (parts : List Bytes)
        → foldl sha256.update (sha256.update s a) parts ≡ sha256.update s (a ++ flatten parts)
    update_parts s a [] = rw append-nil
    update_parts s a (b ∷ parts) =
        ap (λ (t : sha256.Hasher). foldl sha256.update t parts) (L.sha256.update-update s a b)
        ∙ update_parts s (a ++ b) parts
        ∙ ap (sha256.update s) (append_assoc a b (flatten parts))

    pub sha256_concat-digest :
        (a : Bytes) (parts : List Bytes) → sha256_concat P (a ∷ parts) ≡ digest (a ++ flatten parts)
    unfolding sha256_concat
    sha256_concat-digest a parts = ap sha256.finalize (update_parts sha256.new a parts)

    pub scalar_candidate-digest :
        (root_seed : Bytes) (index attempt : ℕ)
        → scalar_candidate P root_seed index attempt
          ≡ digest (nostr_preimage root_seed index attempt)
    unfolding scalar_candidate
    scalar_candidate-digest root_seed index zero =
        sha256_concat-digest nostr_domain (root_seed ∷ to_le_bytes index ∷ [])
    scalar_candidate-digest root_seed index (suc attempt) =
        rw (ltb-eq-true 0 (suc attempt) (omega arith)) (
          sha256_concat-digest nostr_domain
            (root_seed ∷ to_le_bytes index ∷ (suc attempt ∷ []) ∷ []))

    pub update_three :
        (a b c : Bytes)
        → sha256.update (sha256.update (sha256.update sha256.new a) b) c
          ≡ sha256.update sha256.new (a ++ (b ++ c))
    update_three a b c =
        L.sha256.update-update (sha256.update sha256.new a) b c
        ∙ L.sha256.update-update sha256.new a (b ++ c)

    pub dependent_candidate-digest :
        (root_seed : Bytes) (index attempt : ℕ)
        → dependent_candidate P root_seed index attempt
          ≡ digest (dependent_nostr_preimage root_seed index attempt)
    unfolding dependent_candidate
    dependent_candidate-digest root_seed index zero = ap sha256.finalize (
        update_three dependent_nostr_domain root_seed (to_le_bytes index)
        ∙ ap (λ (b : Bytes). sha256.update sha256.new (dependent_nostr_domain ++ (root_seed ++ b)))
            (sym (append-nil (to_le_bytes index))))
    dependent_candidate-digest root_seed index (suc attempt) =
        rw (ltb-eq-true 0 (suc attempt) (omega arith), dependent_candidate)
          (ap sha256.finalize (
            L.sha256.update-update
              (sha256.update (sha256.update sha256.new dependent_nostr_domain) root_seed)
              (to_le_bytes index) (suc attempt ∷ [])
            ∙ update_three dependent_nostr_domain root_seed
                (to_le_bytes index ++ suc attempt ∷ [])))

    pub derive_secp256k1_scalar-Searched :
        (root_seed : Bytes) (index : ℕ)
        → Searched
            (λ k. digest (nostr_preimage root_seed index k))
            0
            256
            (derive_secp256k1_scalar P root_seed index)
    unfolding derive_secp256k1_scalar
    derive_secp256k1_scalar-Searched root_seed index =
        subst (λ (c : ℕ → Bytes). Searched c 0 256 (derive_secp256k1_scalar P root_seed index))
          (fun_ext (scalar_candidate-digest root_seed index))
          (attempts-Searched (scalar_candidate P root_seed index) 256 0 256 refl)

    pub derive_dependent_secp256k1_scalar-Searched :
        (root_seed : Bytes) (index : ℕ)
        → Searched
            (λ k. digest (dependent_nostr_preimage root_seed index k))
            0
            256
            (derive_dependent_secp256k1_scalar P root_seed index)
    unfolding derive_dependent_secp256k1_scalar
    derive_dependent_secp256k1_scalar-Searched root_seed index =
        subst
          (λ (c : ℕ → Bytes).
            Searched c 0 256 (derive_dependent_secp256k1_scalar P root_seed index))
          (fun_ext (dependent_candidate-digest root_seed index))
          (attempts-Searched (dependent_candidate P root_seed index) 256 0 256 refl)

    -- With lawful packages the Nostr scalar of a seed and an index is the first valid one among
    -- the digests of the 256 preimages, and that of a dependent the first valid one among those
    -- with the dependents' domain; the two derivations return their error exactly where none of
    -- the 256 is valid.
    pub scalars-Searched :
        (root_seed : Bytes) (index : ℕ)
        → Searched
            (λ k. digest (nostr_preimage root_seed index k))
            0
            256
            (derive_secp256k1_scalar P root_seed index)
          × Searched
              (λ k. digest (dependent_nostr_preimage root_seed index k))
              0
              256
              (derive_dependent_secp256k1_scalar P root_seed index)
    scalars-Searched root_seed index = (
      derive_secp256k1_scalar-Searched root_seed index,
      derive_dependent_secp256k1_scalar-Searched root_seed index,
    )
