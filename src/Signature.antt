-- ===== src/Signature.antt =====
-- The check, which both programs make in the same words, that the instruction before the current
-- one is a signature verification of the report by the validator: `verify_attestation_signature` of
-- programs/taskforest/src/instructions/tee.rs, and of the payments program's payment.rs. The error
-- of a failed check is a parameter, and so is what the instructions sysvar answers.
pub mod Sound
use taskforest_protocol.Prelude.{
  ℕ, ◌+◌, ◌-◌, Bool, ◌&&◌, ◌||◌, Option, List, take, drop, length, ltb, leb, ◌==◌,
}
use taskforest_protocol.Errors.{Error, Result, ok, ◌>>=◌, ◌>>◌, require, ok_or}
use taskforest_protocol.Words.{from_le_bytes, u16_max}
use taskforest_protocol.Bytes.{bytes_eq, read_number, first}
use taskforest_protocol.State.{devnet_tee_validator, mainnet_tee_validator, localnet_tee_validator}

-- Another instruction of the transaction, as the sysvar gives it.
pub record SignedInstruction : Type 0 where
  pub program_id : ℕ
  pub bytes : List ℕ

-- `load_current_index_checked` and `load_instruction_at_checked`
pub record Sysvar : Type 0 where
  pub current_index : Option ℕ
  pub instruction_at : ℕ → Option SignedInstruction

abbrev pub ed25519_program_id : ℕ
ed25519_program_id = 0x804470cafc648af42749747005ff408d838f42f912befb937cd6467d03

abbrev pub ed25519_header_len : ℕ
ed25519_header_len = 16

abbrev pub ed25519_signature_len : ℕ
ed25519_signature_len = 64

abbrev pub ed25519_pubkey_len : ℕ
ed25519_pubkey_len = 32

-- The eight header fields that the check reads.
pub record Header : Type 0 where
  pub signatures : ℕ
  pub signature_offset : ℕ
  pub signature_instruction_index : ℕ
  pub public_key_offset : ℕ
  pub public_key_instruction_index : ℕ
  pub message_data_offset : ℕ
  pub message_data_size : ℕ
  pub message_instruction_index : ℕ

-- The length of the instruction, its first byte and its header.
unfoldable pub read_header : Error → List ℕ → Result Header
read_header e bytes = do
  require (leb (ed25519_header_len + ed25519_pubkey_len + ed25519_signature_len) (length bytes)) e
  require (first bytes == 1) e
  signature_offset ← read_number e 2 bytes 2
  signature_instruction_index ← read_number e 2 bytes 4
  public_key_offset ← read_number e 2 bytes 6
  public_key_instruction_index ← read_number e 2 bytes 8
  message_data_offset ← read_number e 2 bytes 10
  message_data_size ← read_number e 2 bytes 12
  message_instruction_index ← read_number e 2 bytes 14
  ok (record {
    signatures = first bytes;
    signature_offset = signature_offset;
    signature_instruction_index = signature_instruction_index;
    public_key_offset = public_key_offset;
    public_key_instruction_index = public_key_instruction_index;
    message_data_offset = message_data_offset;
    message_data_size = message_data_size;
    message_instruction_index = message_instruction_index;
  })

-- All three parts stand in this very instruction and within it, the key is the validator's and the
-- message is the report.
unfoldable pub check_header : Error → ℕ → List ℕ → List ℕ → Header → Result (Unit {0})
check_header e validator report bytes h = do
  require
      (h.signature_instruction_index == u16_max
        && h.public_key_instruction_index == u16_max
        && h.message_instruction_index == u16_max)
      e
  require (leb (h.public_key_offset + ed25519_pubkey_len) (length bytes)) e
  require (leb (h.signature_offset + ed25519_signature_len) (length bytes)) e
  require (leb (h.message_data_offset + h.message_data_size) (length bytes)) e
  require (from_le_bytes (take ed25519_pubkey_len (drop h.public_key_offset bytes)) == validator) e
  require (bytes_eq (take h.message_data_size (drop h.message_data_offset bytes)) report) e

unfoldable pub verify_attestation_signature : Error → Sysvar → ℕ → List ℕ → Result (Unit {0})
unfolding read_header check_header
verify_attestation_signature e sysvar validator report = do
  current_index ← ok_or sysvar.current_index e
  require (ltb 0 current_index) e
  ix ← ok_or (sysvar.instruction_at (current_index - 1)) e
  require (ix.program_id == ed25519_program_id) e
  h ← read_header e ix.bytes
  check_header e validator report ix.bytes h

unfoldable pub is_allowed_validator : ℕ → Bool
is_allowed_validator key =
    key == devnet_tee_validator || key == mainnet_tee_validator || key == localnet_tee_validator
