-- ===== src/Payments/Preimage.antt =====
-- The bytes that `handler_record_settlement` of
-- programs/taskforest-payments/src/instructions/payment.rs hashes name one settlement alone.
use taskforest_protocol.Prelude.{ℕ, ◌^◌, ◌<◌, ◌≡◌, refl, true, List, [], ◌∷◌, ℤ, sym, ap, ◌∙◌}
use taskforest_protocol.Words.{fits_i64, to_le_bytes}
use taskforest_protocol.Bytes.{of_i64, to_i64}
use taskforest_protocol.Bytes.RoundTrip.{
  print_fields, field-same, append-nil, to_i64-of_i64, of_i64-small,
}
use taskforest_protocol.State.{EscrowWrapper}
use taskforest_protocol.Payments.{settlement_preimage}

-- Values of the widths that the source gives them.
pub record FitsPreimage (e : EscrowWrapper) (paid : ℕ) (t : ℤ) : Type 0 where
  pub escrow_id : e.escrow_id < 256 ^ 8
  pub job_pubkey : e.job_pubkey < 256 ^ 32
  pub poster : e.poster < 256 ^ 32
  pub agent : e.agent < 256 ^ 32
  pub validator : e.validator < 256 ^ 32
  pub deposited : e.deposited < 256 ^ 8
  pub total_paid : paid < 256 ^ 8
  pub mpp_session_id : e.mpp_session_id < 256 ^ 32
  pub settled_at : fits_i64 t ≡ true

-- The same settlement, apart from what the bytes do not name.
pub record SameSettlement (e e' : EscrowWrapper) (paid paid' : ℕ) (t t' : ℤ) : Type 0 where
  pub escrow_id : e.escrow_id ≡ e'.escrow_id
  pub job_pubkey : e.job_pubkey ≡ e'.job_pubkey
  pub poster : e.poster ≡ e'.poster
  pub agent : e.agent ≡ e'.agent
  pub validator : e.validator ≡ e'.validator
  pub deposited : e.deposited ≡ e'.deposited
  pub total_paid : paid ≡ paid'
  pub mpp_session_id : e.mpp_session_id ≡ e'.mpp_session_id
  pub settled_at : t ≡ t'

abbrev fields : EscrowWrapper → ℕ → ℤ → List (ℕ × ℕ)
fields e paid t =
    (8, e.escrow_id)
    ∷ (32, e.job_pubkey)
    ∷ (32, e.poster)
    ∷ (32, e.agent)
    ∷ (32, e.validator)
    ∷ (8, e.deposited)
    ∷ (8, paid)
    ∷ (32, e.mpp_session_id)
    ∷ (8, of_i64 t)
    ∷ []

settlement_preimage-fields :
    (e : EscrowWrapper) (paid : ℕ) (t : ℤ)
    → settlement_preimage e paid t ≡ print_fields (fields e paid t)
unfolding settlement_preimage
settlement_preimage-fields e paid t = rw (append-nil (to_le_bytes 8 (of_i64 t))) refl

-- Two settlements that are hashed from the same bytes have the same escrow, job, poster, agent,
-- validator, deposit, sum paid, session and time, all of values that fit their widths: no two
-- different settlements share a preimage.
pub settlement_preimage-injective :
    (e e' : EscrowWrapper) (paid paid' : ℕ) (t t' : ℤ)
    → FitsPreimage e paid t
    → FitsPreimage e' paid' t'
    → settlement_preimage e paid t ≡ settlement_preimage e' paid' t'
    → SameSettlement e e' paid paid' t t'
settlement_preimage-injective e e' paid paid' t t' f f' h =
    let same : print_fields (fields e paid t) ≡ print_fields (fields e' paid' t') =
      sym (settlement_preimage-fields e paid t) ∙ h ∙ settlement_preimage-fields e' paid' t' in
    let fs = fields e paid t in
    let gs = fields e' paid' t' in
    let time : of_i64 t ≡ of_i64 t' =
      field-same fs gs 8 8 (of_i64 t) (of_i64 t') same refl refl refl (of_i64-small t f.settled_at)
        (of_i64-small t' f'.settled_at) in
    record {
      escrow_id =
          field-same fs gs 0 8 e.escrow_id e'.escrow_id same refl refl refl f.escrow_id
            f'.escrow_id;
      job_pubkey =
          field-same fs gs 1 32 e.job_pubkey e'.job_pubkey same refl refl refl f.job_pubkey
            f'.job_pubkey;
      poster = field-same fs gs 2 32 e.poster e'.poster same refl refl refl f.poster f'.poster;
      agent = field-same fs gs 3 32 e.agent e'.agent same refl refl refl f.agent f'.agent;
      validator =
          field-same fs gs 4 32 e.validator e'.validator same refl refl refl f.validator
            f'.validator;
      deposited =
          field-same fs gs 5 8 e.deposited e'.deposited same refl refl refl f.deposited
            f'.deposited;
      total_paid = field-same fs gs 6 8 paid paid' same refl refl refl f.total_paid f'.total_paid;
      mpp_session_id =
          field-same fs gs 7 32 e.mpp_session_id e'.mpp_session_id same refl refl refl
            f.mpp_session_id f'.mpp_session_id;
      settled_at =
          sym (to_i64-of_i64 t f.settled_at) ∙ ap to_i64 time ∙ to_i64-of_i64 t' f'.settled_at;
    }
