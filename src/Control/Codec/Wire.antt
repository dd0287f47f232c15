-- ===== src/Control/Codec/Wire.antt =====
-- Requests and responses from one end of a connection to the other.
use mathlib.Core.Option
use kitmux_linux.Base.{
  ◌≡◌, ◌≤◌, refl, inl, inr, ◌↔◌, true, false, Option, none, some, List, [], ◌∷◌, ◌==◌, leb, length,
  All, arith, Option-cases,
}
use kitmux_linux.Base.Result.{Result, ok, err, ◌>>=◌, ◌>>◌, guard}
use kitmux_linux.Control.{
  ControlRequest, ControlResponse, ControlCodecError, control_max_request_bytes,
  control_max_response_bytes,
}
use kitmux_linux.Control.Frames.{Bytes, push, newline, last, is_byte}
use kitmux_linux.Control.Frames.Lines.{outcome}
use kitmux_linux.Control.Frames.Chunks.{IsPayload, encode, empty_decoder, push-encode}
use kitmux_linux.Control.Codec.{
  Json, ReadBack, encode_control_request, decode_control_request, encode_control_response,
  decode_control_response,
}
use kitmux_linux.Control.Codec.Bounds.{
  IsRequest, IsResponse, decode_control_request_iff, decode_control_response_iff,
}

-- An encoder that decodes its own output for the check.
encoded :
    {R : Type 0} (r : R) (b bytes : Bytes) (d : Result R ControlCodecError) (P : Type 0)
    → ((d ≡ ok r) ↔ P)
    → ((r' : R) → d ≡ ok r' → r' ≡ r)
    → ((d >> ok b) ≡ ok bytes) ↔ ((b ≡ bytes) × P)
encoded r b bytes (ok r') P e same = ground (arith, same r' refl, e)
encoded r b bytes (err x) P e same = ground (arith, e)

-- One result for a slice that is parsed once.
parsed_once : {R : Type 0} (o : Option R) (r r' : R) → o ≡ some r → o ≡ some r' → r' ≡ r
parsed_once o r r' h k = cc

module _ {Value : Type 0} (json : Json Value) where
  -- The requests that are sent: those that the library can write, in bounds.
  pub encode_control_request_iff :
      (r : ControlRequest Value) (bytes : Bytes)
      → ReadBack json.exact r.context
      → (encode_control_request json r ≡ ok bytes)
        ↔ ((json.request_to_vec r ≡ some bytes) × (length bytes ≤ 65536) × IsRequest r)
  unfolding encode_control_request
  encode_control_request_iff r bytes back = elim (Option-cases (json.request_to_vec r)) [
    | inl e ↦ ground (arith, e)
    | inr (b, e) ↦
        let parsed = json.request_back r b back e in
        let decoded = decode_control_request_iff json b in
        let run : encode_control_request json r ≡ (decode_control_request json b >> ok b) =
          rw e refl in
        let k =
          encoded r b bytes (decode_control_request json b) _ (decoded r)
            λ r' h. parsed_once _ r r' parsed ((decoded r').0 h).1 in
        ground (arith, e, parsed, run, k)
  ]

  pub decode-encode_request :
      (r : ControlRequest Value) (bytes : Bytes)
      → ReadBack json.exact r.context
      → encode_control_request json r ≡ ok bytes
      → decode_control_request json bytes ≡ ok r
  decode-encode_request r bytes back h =
      let (written, size, valid) = (encode_control_request_iff r bytes back).0 h in
      (decode_control_request_iff json bytes r).1
        (size, json.request_back r bytes back written, valid)

  -- The responses that are sent: those that the library can write, in bounds.
  pub encode_control_response_iff :
      (r : ControlResponse Value) (bytes : Bytes)
      → ReadBack json.exact r.result
      → (encode_control_response json r ≡ ok bytes)
        ↔ ((json.response_to_vec r ≡ some bytes) × (length bytes ≤ 524288) × IsResponse r)
  unfolding encode_control_response
  encode_control_response_iff r bytes back = elim (Option-cases (json.response_to_vec r)) [
    | inl e ↦ ground (arith, e)
    | inr (b, e) ↦
        let parsed = json.response_back r b back e in
        let decoded = decode_control_response_iff json b in
        let run : encode_control_response json r ≡ (
            guard (leb (length b) control_max_response_bytes) ControlCodecError.response_too_large
            >> (decode_control_response json b >> ok b)) =
          rw e refl in
        let k =
          encoded r b bytes (decode_control_response json b) _ (decoded r)
            λ r' h. parsed_once _ r r' parsed ((decoded r').0 h).1 in
        ground (arith, e, parsed, run, k)
  ]

  pub decode-encode_response :
      (r : ControlResponse Value) (bytes : Bytes)
      → ReadBack json.exact r.result
      → encode_control_response json r ≡ ok bytes
      → decode_control_response json bytes ≡ ok r
  decode-encode_response r bytes back h =
      let (written, size, valid) = (encode_control_response_iff r bytes back).0 h in
      (decode_control_response_iff json bytes r).1
        (size, json.response_back r bytes back written, valid)

  -- Requests that are encoded, each with its bytes.
  abbrev pub AllEncoded : List (ControlRequest Value) → List Bytes → Type 0
  AllEncoded [] [] = Unit
  AllEncoded (r ∷ rs) (f ∷ fs) =
      (ReadBack json.exact r.context × (encode_control_request json r ≡ ok f)) × AllEncoded rs fs
  AllEncoded _ _ = ⊥

  -- The server's reading of frames.
  abbrev pub decode_all : List Bytes → Result (List (ControlRequest Value)) ControlCodecError
  decode_all [] = ok []
  decode_all (f ∷ fs) = do r ← decode_control_request json f; rs ← decode_all fs; ok (r ∷ rs)

  -- What the encoder writes is a payload of a frame.
  compact-newline : (b : Bytes) → All (λ x. leb 32 x ≡ true) b → newline b ≡ none
  unfolding newline
  compact-newline [] a = refl
  compact-newline (x ∷ b) (le, a) =
      let n = compact-newline b a in
      let e : (x == 10) ≡ false = ground (arith, le) in rw (e, n) refl

  compact-last : (b : Bytes) → All (λ x. leb 32 x ≡ true) b → is_byte 13 (last b) ≡ false
  unfolding last
  compact-last [] a = refl
  compact-last (x ∷ []) (le, a) = ground (arith, le)
  compact-last (x ∷ y ∷ b) (le, a) = compact-last (y ∷ b) a

  encoded_payloads :
      (rs : List (ControlRequest Value)) (fs : List Bytes)
      → AllEncoded rs fs
      → All (IsPayload control_max_request_bytes) fs
  encoded_payloads [] [] a = tt
  encoded_payloads [] (f ∷ fs) a = absurd a
  encoded_payloads (r ∷ rs) [] a = absurd a
  encoded_payloads (r ∷ rs) (f ∷ fs) ((back, e), a) =
      let (written, size, _) = (encode_control_request_iff r f back).0 e in
      let compact = json.request_compact r f written in
      ((compact-newline f compact, compact-last f compact, size), encoded_payloads rs fs a)

  decoded_all :
      (rs : List (ControlRequest Value)) (fs : List Bytes)
      → AllEncoded rs fs
      → decode_all fs ≡ ok rs
  decoded_all [] [] a = refl
  decoded_all [] (f ∷ fs) a = absurd a
  decoded_all (r ∷ rs) [] a = absurd a
  decoded_all (r ∷ rs) (f ∷ fs) ((back, e), a) =
      rw (decode-encode_request r f back e, decoded_all rs fs a) refl

  -- Requests that encode_control_request encodes, written one after the other with a newline
  -- behind each, come out of a fresh decoder of requests as the same frames, and
  -- decode_control_request makes of these the same requests in order. The context of each is one
  -- that the library serde_json reads back.
  pub requests_over_wire :
      (rs : List (ControlRequest Value)) (fs : List Bytes)
      → AllEncoded rs fs
      → (Option.map outcome (push (empty_decoder control_max_request_bytes) (encode fs))
          ≡ some (ok (fs, empty_decoder control_max_request_bytes)))
        × (decode_all fs ≡ ok rs)
  requests_over_wire rs fs a =
      (push-encode control_max_request_bytes fs (encoded_payloads rs fs a), decoded_all rs fs a)
