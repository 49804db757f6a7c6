-- ===== src/Protocol/RoundTrip/Replies.antt =====
-- Round trips of the messages that the bridge sends.
use cyclone_dds_ws_bridge.Base.{Bytes, [], append_assoc, arith, ok, refl, ℕ, ◌++◌, ◌<◌, ◌^◌, ◌≡◌}
use cyclone_dds_ws_bridge.Base.Buf.{Buf}
use cyclone_dds_ws_bridge.Base.Words.{IsU64, to_le_bytes}
use cyclone_dds_ws_bridge.Protocol.Codes.{ErrorCode, error_code_u16}
use cyclone_dds_ws_bridge.Protocol.Messages.{
  DataDisposedPayload, DataNoWritersPayload, DataPayload, ErrorPayload,
}
use cyclone_dds_ws_bridge.Protocol.Parse.{
  data_disposed_reader, data_no_writers_reader, data_reader, error_code_from_u16, error_reader,
  parse_data, parse_data_disposed, parse_data_no_writers, parse_error,
}
use cyclone_dds_ws_bridge.Protocol.Reader.{lift}
use cyclone_dds_ws_bridge.Protocol.Reader.Laws.{
  IsText, Reads, lengths, read_string-Reads, string_bytes, u16_le-Reads, u64_le-Reads,
  write_string-append,
}
use cyclone_dds_ws_bridge.Protocol.RoundTrip.Parses.{
  Parses-bind, Parses-end, Parses-ensure, Parses-last, Parses-rest, run_lem,
}
use cyclone_dds_ws_bridge.Protocol.Serialize.{
  serialize_data, serialize_data_disposed, serialize_data_no_writers, serialize_error,
}

module _ ⦃b : Buf⦄ where
  error_code_from_u16-error_code_u16 :
      (c : ErrorCode) → error_code_from_u16 (error_code_u16 c) ≡ ok c
  unfolding error_code_from_u16 error_code_u16
  error_code_from_u16-error_code_u16 ErrorCode.dds_error = refl
  error_code_from_u16-error_code_u16 _ = refl

  error_code_u16-lt : (c : ErrorCode) → error_code_u16 c < 2 ^ 16
  unfolding error_code_u16
  error_code_u16-lt ErrorCode.dds_error = omega arith
  error_code_u16-lt _ = omega arith

  error_code-Reads : (c : ErrorCode) → Reads (lift (error_code_from_u16 (error_code_u16 c))) [] c
  unfolding lift
  error_code-Reads c = record { at = λ rest. rw (error_code_from_u16-error_code_u16 c, lift) }

  serialize_error-append :
      (p : ErrorPayload)
      → serialize_error p
        ≡ to_le_bytes 2 (error_code_u16 p.error_code) ++ string_bytes p.error_message
  unfolding serialize_error
  serialize_error-append p = simp (write_string-append, b.put_u16_le_lem)

  -- An ERROR payload whose text is UTF-8 of a length that the protocol allows is read back as it
  -- was written.
  parse_error-serialize_error :
      (p : ErrorPayload) → IsText p.error_message → parse_error (serialize_error p) ≡ ok p
  unfolding parse_error error_reader
  parse_error-serialize_error p v = rw serialize_error-append (
      run_lem (
        Parses-ensure 2 (omega lengths) (
          Parses-bind _
            (u16_le-Reads (error_code_u16 p.error_code) (error_code_u16-lt p.error_code))
            (Parses-bind _ (error_code-Reads p.error_code)
              (Parses-last _ (read_string-Reads p.error_message v) (Parses-end p))))))

  stamped : (topic : Bytes) (time : ℕ) (content : Bytes) → Bytes
  stamped topic time content = string_bytes topic ++ (to_le_bytes 8 time ++ content)

  serialize_data-append :
      (p : DataPayload) → serialize_data p ≡ stamped p.topic_name p.source_timestamp p.content
  unfolding serialize_data stamped
  serialize_data-append p =
      simp (write_string-append, b.put_u64_le_lem, b.put_slice_lem, append_assoc)

  -- A DATA payload with a valid topic name and a time stamp of 64 bits is read back.
  parse_data-serialize_data :
      (p : DataPayload)
      → IsText p.topic_name
      → IsU64 p.source_timestamp
      → parse_data (serialize_data p) ≡ ok p
  unfolding parse_data data_reader stamped
  parse_data-serialize_data p v t = rw serialize_data-append (
      run_lem (
        Parses-bind _ (read_string-Reads p.topic_name v) (
          Parses-ensure 8 (omega lengths)
            (Parses-bind _ (u64_le-Reads p.source_timestamp t) (Parses-rest _ p.content)))))

  serialize_data_disposed-append :
      (p : DataDisposedPayload)
      → serialize_data_disposed p ≡ stamped p.topic_name p.source_timestamp p.key_data
  unfolding serialize_data_disposed stamped
  serialize_data_disposed-append p =
      simp (write_string-append, b.put_u64_le_lem, b.put_slice_lem, append_assoc)

  -- A DATA_DISPOSED payload with a valid topic name and a time stamp of 64 bits is read back.
  parse_data_disposed-serialize_data_disposed :
      (p : DataDisposedPayload)
      → IsText p.topic_name
      → IsU64 p.source_timestamp
      → parse_data_disposed (serialize_data_disposed p) ≡ ok p
  unfolding parse_data_disposed data_disposed_reader stamped
  parse_data_disposed-serialize_data_disposed p v t = rw serialize_data_disposed-append (
      run_lem (
        Parses-bind _ (read_string-Reads p.topic_name v) (
          Parses-ensure 8 (omega lengths)
            (Parses-bind _ (u64_le-Reads p.source_timestamp t) (Parses-rest _ p.key_data)))))

  serialize_data_no_writers-append :
      (p : DataNoWritersPayload)
      → serialize_data_no_writers p ≡ string_bytes p.topic_name ++ p.key_data
  unfolding serialize_data_no_writers
  serialize_data_no_writers-append p = simp (write_string-append, b.put_slice_lem, append_assoc)

  -- A DATA_NO_WRITERS payload with a valid topic name is read back.
  parse_data_no_writers-serialize_data_no_writers :
      (p : DataNoWritersPayload)
      → IsText p.topic_name
      → parse_data_no_writers (serialize_data_no_writers p) ≡ ok p
  unfolding parse_data_no_writers data_no_writers_reader
  parse_data_no_writers-serialize_data_no_writers p v =
      rw serialize_data_no_writers-append
        (run_lem (Parses-bind _ (read_string-Reads p.topic_name v) (Parses-rest _ p.key_data)))
