-- ===== src/Recorder/Av1/Error.antt =====
-- The errors that av1.rs makes by `anyhow!`, one constructor for each message.
use live.Prelude.{ℕ, Outcome}

pub data Error : Type 0 where
  invalid_payload_size invalid_obu_size invalid_w_field : Error
  missing_fragments : Error
  unit_too_large : ℕ → Error
  too_many_obus : ℕ → Error
  invalid_leb128 : Error
  forbidden_bit size_field_missing not_enough_bytes : Error
  not_enough_bits empty_obu not_a_sequence_header : Error
  decoder_model_unsupported display_delay_unsupported : Error

abbrev pub Result {ℓ} : Type ℓ → Type ℓ
Result A = Outcome Error A
