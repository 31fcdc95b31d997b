-- ===== src/Extractor/Keys.antt =====
-- src/extractor.rs: which requests share a bucket, and which get none.
use armature_ratelimit.Extractor.{
  Host, v4, v6, RequestInfo, KeyExtractor, KeyExtractorBuilder, ip_bucket, api_key_bucket,
  key_digest, extract, get_header, first_key, build, hex,
}
use armature_ratelimit.Prelude.{
  ℕ, ◌+◌, ◌*◌, ◌/◌, ◌^◌, ◌<◌, ◌≡◌, ◌↔◌, ◌⊎◌, refl, ap, Bool, true, false, none, some, List, [], ◌∷◌,
  ◌++◌, Text, codes, arith, text_eq, ◌==◌, All, Option-cases, Bool-cases, length, length-append,
  inl, inr,
}

-- What is documented of the printed addresses and of the digest: different addresses are printed
-- differently, and SHA-256 yields 32 bytes.
pub record IsHost (host : Host) : Type 0 where
  pub show_v4_inj : (a b : ℕ) → a < 2 ^ 32 → b < 2 ^ 32 → host.show_v4 a ≡ host.show_v4 b → a ≡ b
  pub show_v6_inj : (a b : ℕ) → a < 2 ^ 128 → b < 2 ^ 128 → host.show_v6 a ≡ host.show_v6 b → a ≡ b
  pub length-sha256 : (key : Text) → length (host.sha256 key) ≡ 32

append_right_cancel {ℓ} :
    {A : Type ℓ} (xs ys zs : List A) → xs ++ zs ≡ ys ++ zs → length xs ≡ length ys → xs ≡ ys
append_right_cancel [] [] zs e h = refl
append_right_cancel [] (y ∷ ys) zs e h = absurd (omega arith)
append_right_cancel (x ∷ xs) [] zs e h = absurd (omega arith)
append_right_cancel (x ∷ xs) (y ∷ ys) zs e h = ground (arith, append_right_cancel xs ys zs)

length-cancel : (s t u : Text) → s ++ u ≡ t ++ u → length s ≡ length t
length-cancel s t u e = omega (arith, ap length e, length-append s u, length-append t u)

pub length-hex : (bytes : List ℕ) → length (hex bytes) ≡ 2 * length bytes
unfolding hex
length-hex [] = refl
length-hex (b ∷ bytes) = omega (arith, length-hex bytes)

-- An IPv6 address that is not an IPv4-mapped one.
abbrev IsNative : ℕ → Type 0
IsNative a = (a / 2 ^ 32 == 0xffff) ≡ false

module _ (host : Host) (is_host : IsHost host) where
  -- Two IPv6 addresses that map no IPv4 address share a bucket exactly when their /64 prefixes
  -- agree, where different addresses are printed differently.
  ip_bucket_v6 :
      (a b : ℕ)
      → a < 2 ^ 128
      → b < 2 ^ 128
      → IsNative a
      → IsNative b
      → (ip_bucket host (v6 a) ≡ ip_bucket host (v6 b)) ↔ (a / 2 ^ 64 ≡ b / 2 ^ 64)
  unfolding ip_bucket
  ip_bucket_v6 a b ha hb na nb =
      rw (na, nb)
        (
          λ e.
              let s = host.show_v6 (a / 2 ^ 64 * 2 ^ 64) in
              let t = host.show_v6 (b / 2 ^ 64 * 2 ^ 64) in
              let same =
                is_host.show_v6_inj (a / 2 ^ 64 * 2 ^ 64) (b / 2 ^ 64 * 2 ^ 64) (omega arith)
                  (omega arith)
                  (append_right_cancel s t (codes "/64") e (length-cancel s t (codes "/64") e)) in
              omega (arith, same),
          λ e. cc,
        )

  -- An IPv4-mapped IPv6 address has the bucket of the IPv4 address that it carries.
  ip_bucket_mapped :
      (a : ℕ) → a < 2 ^ 32 → ip_bucket host (v6 (0xffff * 2 ^ 32 + a)) ≡ ip_bucket host (v4 a)
  unfolding ip_bucket
  ip_bucket_mapped a h = ground (arith)

  -- The name of an API key's bucket has 71 bytes, whatever the key: it is the digest's, and so
  -- depends on the key only through its digest.
  length-api_key_bucket : (key : Text) → length (api_key_bucket host key) ≡ 71
  unfolding api_key_bucket key_digest
  length-api_key_bucket key = omega (arith, length-hex (host.sha256 key), is_host.length-sha256 key)

module _ (host : Host) where
  -- A request is keyed on an API key exactly when it carries the header with a key that is not
  -- empty and that the validator accepts, and then the bucket is that key's.
  extract_api_key :
      (name bucket : Text) (validator : Text → Bool) (info : RequestInfo)
      → (extract host (KeyExtractor.api_key name validator) info ≡ some bucket) ↔ (
          (key : Text) × (get_header info name ≡ some key)
          × (text_eq key [] ≡ false)
          × (validator key ≡ true)
          × (bucket ≡ api_key_bucket host key))
  unfolding extract
  extract_api_key name bucket validator info = elim (Option-cases (get_header info name)) [
    | inl e ↦ (λ h. absurd (ground arith), λ (key, h, t', v', r). absurd (ground arith))
    | inr (key, e) ↦ elim (Bool-cases (text_eq key [])) [
      | inl t ↦ (λ h. absurd (ground arith), λ (k, h, t', v', r). absurd (ground arith))
      | inr t ↦ elim (Bool-cases (validator key)) [
        | inl v ↦ (λ h. (key, e, t, v, ground arith), λ (k, h, t', v', r). ground arith)
        | inr v ↦ (λ h. absurd (ground arith), λ (k, h, t', v', r). absurd (ground arith))
      ]
    ]
  ]

  first_key-none :
      (es : List KeyExtractor) (info : RequestInfo)
      → (first_key host es info ≡ none) ↔ All (λ e. extract host e info ≡ none) es
  unfolding first_key
  first_key-none [] info = (λ h. tt, λ h. refl)
  first_key-none (e ∷ es) info = elim (Option-cases (extract host e info)) [
    | inl h ↦
        let (to, from) = first_key-none es info in
        (λ k. (h, to (ground arith)), λ (h', k). ground (arith, from k))
    | inr (key, h) ↦ (λ k. absurd (ground arith), λ k. absurd (ground arith))
  ]

  -- A built extractor yields no key exactly when none of its extractors does and the fallback
  -- is off or the request has no address.
  build-first_key :
      (b : KeyExtractorBuilder) (info : RequestInfo)
      → (build host b info ≡ none) ↔ (
          All (λ e. extract host e info ≡ none) b.extractors
          × ((b.fallback_to_ip ≡ false) ⊎ (info.ip ≡ none)))
  unfolding build
  build-first_key b info =
      let (to, from) = first_key-none b.extractors info in
      elim (Option-cases (first_key host b.extractors info)) [
        | inl h ↦ (
          λ k. (
            to h,
            elim (Bool-cases b.fallback_to_ip) [ inl e ↦ inr (ground arith) | inr e ↦ inl e ],
          ),
          λ (k, f). elim f [ inl e ↦ ground arith | inr e ↦ ground arith ],
        )
        | inr (key, h) ↦ (λ k. absurd (ground arith), λ (k, f). absurd (ground (arith, from k)))
      ]
