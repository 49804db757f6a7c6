-- ===== src/Ws/Frame/Laws.antt =====
-- What a session of src/ws/session.rs does with a binary frame.
use cyclone_dds_ws_bridge.Base.{
  Bool-cases, Bytes, List, Option, Result, Result-cases, [], arith, drop, err, false, inl, inr,
  length, ltb, ok, refl, some, take, take-length, ℕ, ◌+◌, ◌∙◌, ◌∷◌, ◌≡◌, ◌≢◌, ◌≤◌, ◌⊎◌,
}
use cyclone_dds_ws_bridge.Base.Buf.{Buf}
use cyclone_dds_ws_bridge.Base.Text.{codes}
use cyclone_dds_ws_bridge.Base.Words.{IsU32}
use cyclone_dds_ws_bridge.Bridge.{BridgeInner}
use cyclone_dds_ws_bridge.Bridge.Handler.Replies.{make_error_response}
use cyclone_dds_ws_bridge.Bridge.Handler.Requests.{handle_message}
use cyclone_dds_ws_bridge.Dds.Api.{Dds}
use cyclone_dds_ws_bridge.Protocol.Codes.{ErrorCode, MsgType}
use cyclone_dds_ws_bridge.Protocol.Errors.{ProtocolError, protocol_error_text}
use cyclone_dds_ws_bridge.Protocol.Header.{
  Header, build_message, header_size, parse_header, protocol_version, validate_client_header,
}
use cyclone_dds_ws_bridge.Protocol.Header.Laws.{
  length-build_message, parse_header-build_message, validate_client_header_iff,
}
use cyclone_dds_ws_bridge.Ws.Frame.{
  incomplete_text, make_parse_error, process_binary_frame, process_header, process_payload,
  process_validated,
}

module _ ⦃b : Buf⦄ {d : Dds} (session_id max_payload_size : ℕ) where
  process_header-ok :
      (frame : Bytes) (h : Header) (s : BridgeInner d)
      → validate_client_header h protocol_version max_payload_size ≡ ok tt
      → header_size + h.payload_length ≤ length frame
      → process_header session_id frame max_payload_size (ok h) s
        ≡ handle_message session_id h.msg_type h.request_id
            (take h.payload_length (drop header_size frame))
            s
  unfolding process_header process_validated process_payload
  process_header-ok frame h s valid whole =
      let long : ltb (length frame) (header_size + h.payload_length) ≡ false = ground arith in
      rw (valid, process_validated, long) refl

  -- On a frame that `build_message` makes of a request with an id of 32 bits that is not 0 and a
  -- payload within the limit and within 32 bits of length, `process_binary_frame` does what
  -- `handle_message` does with that request.
  pub process_binary_frame-build_message :
      (t : MsgType) (request_id : ℕ) (payload : Bytes) (s : BridgeInner d)
      → request_id ≢ 0
      → IsU32 request_id
      → IsU32 (length payload)
      → length payload ≤ max_payload_size
      → process_binary_frame session_id (build_message t request_id payload) max_payload_size s
        ≡ handle_message session_id t request_id payload s
  unfolding process_binary_frame
  process_binary_frame-build_message t request_id payload s n id_fits fits allowed =
      let frame = build_message t request_id payload in
      let size = length-build_message t request_id payload in
      let (header_is, payload_is) = parse_header-build_message t request_id payload id_fits fits in
      let long : ltb (length frame) header_size ≡ false = ground (arith, size) in
      let h : Header = record {
        version = protocol_version;
        msg_type = t;
        request_id = request_id;
        payload_length = length payload;
      } in
      rw (long, header_is)
        (process_header-ok frame h s
            ((validate_client_header_iff h protocol_version max_payload_size).1
              (omega arith, allowed, n))
            (omega (arith, size))
          ∙ rw (payload_is, take-length payload) refl)

  -- The frame is a request that the bridge handles, and what the bridge does is the result.
  abbrev pub IsHandled : Bytes → BridgeInner d → Option (List Bytes) × BridgeInner d → Type 0
  IsHandled frame s result =
      (h : Header) × (parse_header frame ≡ ok h)
      × (h.version ≤ protocol_version)
      × (h.payload_length ≤ max_payload_size)
      × (h.request_id ≢ 0)
      × (header_size + h.payload_length ≤ length frame)
      × (result
          ≡ handle_message session_id h.msg_type h.request_id
              (take h.payload_length (drop header_size frame)) s)

  -- The frame is refused with one message, and the bridge is as before.
  abbrev pub IsRefused : BridgeInner d → Option (List Bytes) × BridgeInner d → Type 0
  IsRefused s result =
      (request_id : ℕ) × (text : Bytes) × (result
        ≡ (some (make_error_response request_id ErrorCode.invalid_message text ∷ []), s))

  process_header_lem :
      (frame : Bytes) (s : BridgeInner d) (r : Result ProtocolError Header)
      → parse_header frame ≡ r
      → (let result = process_header session_id frame max_payload_size r s in
          IsHandled frame s result ⊎ IsRefused s result)
  unfolding process_header process_validated process_payload make_parse_error make_error_response
  process_header_lem frame s (err e) is = inr (0, protocol_error_text e, refl)
  process_header_lem frame s (ok h) is =
      elim (Result-cases (validate_client_header h protocol_version max_payload_size)) [
        | inl (u, valid) ↦
            let (version, size, id) =
              (validate_client_header_iff h protocol_version max_payload_size).0 valid in
            elim (Bool-cases (ltb (length frame) (header_size + h.payload_length))) [
              | inl short ↦ inr (
                h.request_id,
                incomplete_text h (length frame),
                rw (valid, process_validated, short) refl,
              )
              | inr long ↦
                  let whole : header_size + h.payload_length ≤ length frame = ground arith in
                  inl (h, is, version, size, id, whole, process_header-ok frame h s valid whole)
            ]
        | inr (e, refused) ↦
            inr (h.request_id, protocol_error_text e, rw (refused, process_validated) refl)
      ]

  -- Every frame is either handled, and then its header is readable, of a supported version, with
  -- an id that is not 0 and a payload that is within the limit and wholly there, and the request
  -- in it is what the bridge handles, or is refused with one INVALID_MESSAGE error, and then the
  -- bridge is as before.
  pub process_binary_frame_lem :
      (frame : Bytes) (s : BridgeInner d)
      → (let result = process_binary_frame session_id frame max_payload_size s in
          IsHandled frame s result ⊎ IsRefused s result)
  unfolding process_binary_frame make_parse_error make_error_response
  process_binary_frame_lem frame s = elim (Bool-cases (ltb (length frame) header_size)) [
    | inl short ↦ rw short (inr (0, codes "message too short", refl))
    | inr long ↦ rw long (process_header_lem frame s _ refl)
  ]
