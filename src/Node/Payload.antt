-- ===== src/Node/Payload.antt =====
-- BuildPayload of node/service/service.go, and the reading of a payload by its receivers.
use sum.Prelude.{ℕ, ◌≤◌, ◌≡◌, inl, inr, String, true, false, arith}
use sum.Prelude.Tests.{Result, ok, err, ltb, if◌then◌else◌, Result-cases}
use sum.Proto.{Data}

-- compress/gzip and the length of a buffer. `gzip` gives the number of bytes that Write took and
-- the closed buffer, or the error of NewWriterLevel or of Write.
pub record Gzip (B : Type 0) : Type 0 where
  pub size : B → ℕ
  pub gzip : B → Result String (ℕ × B)
  pub gunzip : B → Result String B

-- A written and closed buffer reads back.
pub record GzipLaws {B : Type 0} (z : Gzip B) : Type 0 where
  pub gunzip-gzip : (b out : B) (n : ℕ) → z.gzip b ≡ ok (n, out) → z.gunzip out ≡ ok b

abbrev pub gzip_response_size : ℕ
gzip_response_size = 2048

module _ {B : Type 0} (z : Gzip B) where
  unfoldable pub build_payload : B → Data B
  build_payload raw =
      if ltb gzip_response_size (z.size raw)
      then elim (z.gzip raw) [
        | err _ ↦ record { compressed = false; payload = raw }
        | ok (wrote, buf) ↦
            if ltb 0 wrote
            then record { compressed = true; payload = buf }
            else record { compressed = false; payload = raw }
      ]
      else record { compressed = false; payload = raw }

  -- the client's `if cresp.Data.Compressed`
  unfoldable pub read_payload : Data B → Result String B
  read_payload body = if body.compressed then z.gunzip body.payload else ok body.payload

  -- Over a compression that reads back what it wrote, a receiver reads from a payload the bytes
  -- that it was built from; a payload of at most 2048 bytes is not compressed.
  pub read-build_payload :
      (laws : GzipLaws z) (raw : B)
      → (read_payload (build_payload raw) ≡ ok raw)
        × (z.size raw ≤ gzip_response_size → (build_payload raw).compressed ≡ false)
  unfolding read_payload build_payload
  read-build_payload laws raw = elim (Result-cases (z.gzip raw)) [
    | inl ((n, out), e) ↦ (ground (arith, laws.gunzip-gzip raw out n), λ h. ground arith)
    | inr (x, e) ↦ (ground arith, λ h. ground arith)
  ]
