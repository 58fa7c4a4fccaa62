-- ===== src/Signature/Sound.antt =====
-- What the check of the attestation's signature, `verify_attestation_signature` of both programs,
-- establishes when it passes.
use taskforest_protocol.Prelude.{
  ℕ, suc, ◌-◌, ◌≡◌, refl, true, ltb, Option, some, none, List, [], ◌∷◌, arith, take, drop, ◌==◌,
}
use taskforest_protocol.Errors.{
  Error, ok, ok_or, Ensures, Ensures-bind, Ensures-require, Ensures-map,
}
use taskforest_protocol.Words.{from_le_bytes}
use taskforest_protocol.Bytes.{bytes_eq}
use taskforest_protocol.Signature.{
  SignedInstruction, Sysvar, Header, ed25519_program_id, ed25519_pubkey_len, check_header,
  read_header, verify_attestation_signature,
}

-- The instruction before the current one is a call of the signature program, and within its bytes
-- stand the validator's key and the report.
abbrev pub SignedBy : Sysvar → ℕ → List ℕ → Type 0
SignedBy sysvar validator report =
    (i : ℕ) × (ix : SignedInstruction) × (key_offset : ℕ) × (message_offset : ℕ) × (size : ℕ)
    × (sysvar.current_index ≡ some (suc i))
    × (sysvar.instruction_at i ≡ some ix)
    × (ix.program_id ≡ ed25519_program_id)
    × (from_le_bytes (take ed25519_pubkey_len (drop key_offset ix.bytes)) ≡ validator)
    × (take size (drop message_offset ix.bytes) ≡ report)

bytes_eq_sound : (xs ys : List ℕ) → bytes_eq xs ys ≡ true → xs ≡ ys
unfolding bytes_eq
bytes_eq_sound [] [] h = refl
bytes_eq_sound [] (y ∷ ys) h = ground (arith, h)
bytes_eq_sound (x ∷ xs) [] h = ground (arith, h)
bytes_eq_sound (x ∷ xs) (y ∷ ys) h =
    let tails : bytes_eq xs ys ≡ true = ground (arith, h) in
    ground (arith, h, bytes_eq_sound xs ys tails)

pub ok_or-ok : {A : Type 0} (o : Option A) (e : Error) (a : A) → ok_or o e ≡ ok a → o ≡ some a
ok_or-ok none e a h = ground (arith, h)
ok_or-ok (some b) e a h = ground (arith, h)

check_header_sound :
    (e : Error) (validator : ℕ) (report bytes : List ℕ) (h : Header)
    → Ensures
        (λ _.
          (from_le_bytes (take ed25519_pubkey_len (drop h.public_key_offset bytes)) ≡ validator)
          × (bytes_eq (take h.message_data_size (drop h.message_data_offset bytes)) report ≡ true))
        (check_header e validator report bytes h)
unfolding check_header
check_header_sound e validator report bytes h = ground arith

-- A check that passes means that the validator's key and the report stand in a call of the
-- signature program just before this instruction.
pub verify_attestation_signature-SignedBy :
    (e : Error) (sysvar : Sysvar) (validator : ℕ) (report : List ℕ)
    → Ensures
        (λ _. SignedBy sysvar validator report)
        (verify_attestation_signature e sysvar validator report)
unfolding verify_attestation_signature
verify_attestation_signature-SignedBy e sysvar validator report =
    Ensures-bind _ (ok_or sysvar.current_index e) _ λ c current.
      Ensures-require _ (ltb 0 c) e _ λ later.
        Ensures-bind _ (ok_or (sysvar.instruction_at (c - 1)) e) _ λ ix found.
          Ensures-require _ (ix.program_id == ed25519_program_id) e _ λ program.
            Ensures-bind _ (read_header e ix.bytes) _ λ h header.
              Ensures-map _ _ (check_header e validator report ix.bytes h)
                (λ u (key, message). (
                  c - 1,
                  ix,
                  h.public_key_offset,
                  h.message_data_offset,
                  h.message_data_size,
                  ground (arith, ok_or-ok _ e c current),
                  ok_or-ok _ e ix found,
                  ground arith,
                  key,
                  bytes_eq_sound _ _ message,
                ))
                (check_header_sound e validator report ix.bytes h)
