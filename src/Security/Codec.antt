-- ===== src/Security/Codec.antt =====
-- libs/modkit-security/src/bin_codec.rs: the binary form of a security context, with its version. A
-- byte is a number below 256. bincode is a parameter.
use hyperspot.Common.{ℕ, ◌≡◌, refl, not, List, [], ◌∷◌, nat_beq, if◌then◌else◌, subst}
use hyperspot.Common.Results.{Result, ok, err, ◌>>=◌, map_err, ok-inj, bind-ok, map_err_ok}
use hyperspot.Security.{SecurityCtx}

abbrev secctx_bin_version : ℕ
secctx_bin_version = 1

module _ (EncodeError DecodeError : Type 0) where
  pub data SecCtxEncodeError : Type 0 where
    encode_bincode : EncodeError → SecCtxEncodeError

  pub data SecCtxDecodeError : Type 0 where
    empty : SecCtxDecodeError
    unsupported_version : ℕ → SecCtxDecodeError
    decode_bincode : DecodeError → SecCtxDecodeError

module _ (EncodeError DecodeError : Type 0)
    (encode_to_vec : SecurityCtx → Result EncodeError (List ℕ))
    (decode_from_slice : List ℕ → Result DecodeError (SecurityCtx × ℕ)) where
  unfoldable pub encode_bin :
      SecurityCtx → Result (SecCtxEncodeError EncodeError DecodeError) (List ℕ)
  encode_bin ctx =
      map_err encode_bincode (encode_to_vec ctx) >>= λ payload. ok (secctx_bin_version ∷ payload)

  unfoldable pub decode_bin :
      List ℕ → Result (SecCtxDecodeError EncodeError DecodeError) SecurityCtx
  decode_bin [] = err empty
  decode_bin (version ∷ payload) =
      if not (nat_beq version secctx_bin_version)
      then err (unsupported_version version)
      else map_err decode_bincode (decode_from_slice payload) >>= λ (ctx, consumed). ok ctx

  -- Where bincode reads what it wrote, whatever it says of the length: decoding what `encode_bin`
  -- gives for a context returns the context.
  decode_bin-encode_bin :
      ((ctx : SecurityCtx) (payload : List ℕ)
        → encode_to_vec ctx ≡ ok payload
        → (n : ℕ) × (decode_from_slice payload ≡ ok (ctx, n)))
      → (ctx : SecurityCtx) (bytes : List ℕ) → encode_bin ctx ≡ ok bytes
      → decode_bin bytes ≡ ok ctx
  unfolding encode_bin decode_bin
  decode_bin-encode_bin reads ctx bytes h =
      let written = bind-ok (map_err encode_bincode (encode_to_vec ctx)) _ h in
      let plain = map_err_ok _ (encode_to_vec ctx) written.1 in
      let read = reads ctx written.0 plain in
      subst (λ b. decode_bin b ≡ ok ctx) (ok-inj written.2) (rw (read.1) refl)
