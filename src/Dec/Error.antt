-- ===== src/Dec/Error.antt =====
-- The error messages of tools/src/pira_dec/model.rs and util.rs, one constructor to a message.
pub data Error : Type 0 where
  -- util.rs
  timestamp_range : Error
  -- validation
  invalid_id id_timestamp_mismatch : Error
  context_empty context_too_long choice_count choice_empty choice_too_long choice_duplicate : Error
  decision_index too_many_related superseded_and_related related_duplicate : Error
  context_not_normalized choice_not_normalized : Error
  -- encoding
  field_too_large body_too_large record_too_large : Error
  -- decoding
  size_limit invalid_header length_mismatch checksum_mismatch : Error
  truncated_tlv invalid_tlv_length out_of_order malformed_singleton unknown_tag : Error
  unknown_maker string_too_long not_utf8 : Error
  missing_maker missing_id missing_timestamp missing_context missing_decision : Error
  -- No message of the program: the model's bound on rounds. `Codec.Total` shows it unreached.
  out_of_fuel : Error
