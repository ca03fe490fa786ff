-- ===== src/Pprof/Blob.antt =====
-- `encodePprof`, `gzipBytes` and `decodePprofBlob` of packages/pprof-decoder/src/index.ts together.
use obs_unified.Common.{ℕ, ◌<◌, ◌≡◌, true, false, List, length, Option, some, ap}
use obs_unified.Pprof.Double.{precise}
use obs_unified.Pprof.Reader.{ok}
use obs_unified.Pprof.Decode.{Profile, decode_pprof, decode_pprof_blob, is_gzip}
use obs_unified.Pprof.Encode.{profile_bytes, encode_pprof}
use obs_unified.Pprof.RoundTrip.{ProfileFits, decode_pprof-profile_bytes}
use obs_unified.Pprof.Bytes.{encode_pprof-profile_bytes, is_gzip-profile_bytes}

module _ {Text : Type 0} (decode_text : List ℕ → Text) (encode_text : Text → List ℕ)
    (profile : Profile Text) (v : ProfileFits decode_text encode_text profile)
    (size : length (encode_pprof encode_text profile) < precise) where
  same_bytes : encode_pprof encode_text profile ≡ profile_bytes encode_text profile
  same_bytes = encode_pprof-profile_bytes encode_text profile v.text_bytes

  -- A profile that the format can hold, with numbers below 2^53, maps keyed by each entry's own id,
  -- each location's function ids those of its lines in their order, texts that survive the functions for
  -- UTF-8 and an encoding of fewer than 2^53 bytes, is decoded from its encoding as it was: every sample
  -- type, sample, location, function and text, in the same order.
  pub decode_pprof-encode_pprof :
      decode_pprof decode_text (encode_pprof encode_text profile) ≡ ok profile
  decode_pprof-encode_pprof =
      rw same_bytes
        (decode_pprof-profile_bytes decode_text encode_text profile v (rw same_bytes at size))

  -- Under the same conditions, that a location's function ids are those of its lines among them, the
  -- blob decoder gives a profile back from its plain encoding, whatever `gunzip` does, since no
  -- encoding looks like gzip; and from its gzipped encoding, where `gzip` writes the magic bytes and
  -- `gunzip` undoes it.
  pub decode_pprof_blob-encode_pprof :
      (gunzip : List ℕ → Option (List ℕ)) (gzip : List ℕ → List ℕ)
      → ((bytes : List ℕ) → is_gzip (gzip bytes) ≡ true)
      → ((bytes : List ℕ) → gunzip (gzip bytes) ≡ some bytes)
      → (decode_pprof_blob decode_text gunzip (encode_pprof encode_text profile)
          ≡ some (ok profile))
        × (decode_pprof_blob decode_text gunzip (gzip (encode_pprof encode_text profile))
            ≡ some (ok profile))
  unfolding decode_pprof_blob
  decode_pprof_blob-encode_pprof gunzip gzip magic undo =
      let bytes = encode_pprof encode_text profile in
      let plain : is_gzip bytes ≡ false =
        rw same_bytes (is_gzip-profile_bytes encode_text profile) in
      (
        rw (plain, decode_pprof-encode_pprof),
        rw (magic bytes, undo bytes) (ap some decode_pprof-encode_pprof),
      )
