-- ===== src/Protocol/Codes.antt =====
-- The message types and the error codes of src/protocol.rs, with their numbers on the wire.
use cyclone_dds_ws_bridge.Base.{ℕ}

pub data MsgType : Type 0 where
  subscribe unsubscribe write dispose write_dispose create_writer delete_writer ping : MsgType
  ok data_sample data_disposed data_no_writers error pong : MsgType

-- `as u8`
unfoldable pub msg_type_u8 : MsgType → ℕ
msg_type_u8 MsgType.subscribe = 0x01
msg_type_u8 MsgType.unsubscribe = 0x02
msg_type_u8 MsgType.write = 0x03
msg_type_u8 MsgType.dispose = 0x04
msg_type_u8 MsgType.write_dispose = 0x05
msg_type_u8 MsgType.create_writer = 0x10
msg_type_u8 MsgType.delete_writer = 0x11
msg_type_u8 MsgType.ping = 0x0f
msg_type_u8 MsgType.ok = 0x80
msg_type_u8 MsgType.data_sample = 0xc0
msg_type_u8 MsgType.data_disposed = 0xc1
msg_type_u8 MsgType.data_no_writers = 0xc2
msg_type_u8 MsgType.error = 0xfe
msg_type_u8 MsgType.pong = 0x8f

pub data ErrorCode : Type 0 where
  invalid_message topic_not_found dds_error writer_not_found reader_not_found : ErrorCode
  invalid_qos already_exists internal_error buffer_overflow : ErrorCode

-- `as u16`
unfoldable pub error_code_u16 : ErrorCode → ℕ
error_code_u16 ErrorCode.invalid_message = 0x0001
error_code_u16 ErrorCode.topic_not_found = 0x0002
error_code_u16 ErrorCode.dds_error = 0x0003
error_code_u16 ErrorCode.writer_not_found = 0x0004
error_code_u16 ErrorCode.reader_not_found = 0x0005
error_code_u16 ErrorCode.invalid_qos = 0x0006
error_code_u16 ErrorCode.already_exists = 0x0007
error_code_u16 ErrorCode.internal_error = 0x0008
error_code_u16 ErrorCode.buffer_overflow = 0x0009
