-- ===== src/Transfer/Signing.antt =====
-- The signature of a transaction (`sign_transaction` of tps-bench/src/transfer.rs), as a verifier
-- of the lock script reads it: the message is described here by itself.
use ckb_bench_archived.Base.{
  ℕ, ◌+◌, ◌*◌, ◌%◌, ◌<◌, ◌≡◌, refl, [], ◌∷◌, ◌++◌, some, none, ok, panic, ◌⊎◌, inl, inr,
  Option-cases, All, replicate, length, u64_mod, arith,
}
use ckb_bench_archived.Chain.{Byte32, Bytes, WitnessArgs, TransactionView}
use ckb_bench_archived.Crypto.{Crypto, RecoversSigner}
use ckb_bench_archived.Account.{Account}
use ckb_bench_archived.Transfer.{to_le_bytes, sighash_message, sign_transaction}

-- The witness that holds a signature in its field `lock`.
abbrev pub with_lock : Bytes → WitnessArgs
with_lock signature = record { lock = some signature; input_type = none; output_type = none }

-- The number that some bytes stand for, the lowest byte first.
pub from_le_bytes : Bytes → ℕ
from_le_bytes [] = 0
from_le_bytes (b ∷ bs) = b + 256 * from_le_bytes bs

-- The message that the lock script checks for a transaction with one witness: the digest of its
-- hash, of the length of the witness as a number of eight bytes, the lowest first, and of the
-- witness, with 65 zero bytes in place of the signature.
pub record IsSighash (c : Crypto) (tx_hash : Byte32) (message : Bytes) : Type 0 where
  pub zeroed : Bytes
  pub is_zeroed : zeroed ≡ c.witness_bytes (with_lock (replicate 65 0))
  pub count : Bytes
  pub eight : length count ≡ 8
  pub are_bytes : All (λ b. b < 256) count
  pub counts : from_le_bytes count ≡ length zeroed % u64_mod
  pub digest : message ≡ c.blake2b_256 (c.raw_data tx_hash ++ count ++ zeroed)

-- A transaction carries the signature of a key: its one witness holds a signature from which the
-- key is recovered with the message that belongs to the transaction itself.
pub record IsSigned (c : Crypto) (public : Bytes) (tx : TransactionView) : Type 0 where
  pub signature : Bytes
  pub witnesses : tx.witnesses ≡ c.witness_bytes (with_lock signature) ∷ []
  pub message : Bytes
  pub is_message : IsSighash c tx.hash message
  pub recovered : c.recover signature message ≡ some public

length-to_le_bytes : (n : ℕ) → length (to_le_bytes n) ≡ 8
unfolding to_le_bytes
length-to_le_bytes n = refl

to_le_bytes-bytes : (n : ℕ) → All (λ b. b < 256) (to_le_bytes n)
unfolding to_le_bytes
to_le_bytes-bytes n = (
  omega arith,
  (
    omega arith,
    (omega arith, (omega arith, (omega arith, (omega arith, (omega arith, (omega arith, tt)))))),
  ),
)

from-to_le_bytes : (n : ℕ) → from_le_bytes (to_le_bytes n) ≡ n % u64_mod
unfolding to_le_bytes from_le_bytes
from-to_le_bytes n = omega arith

sighash_message-IsSighash :
    (c : Crypto) (tx : TransactionView) → IsSighash c tx.hash (sighash_message c tx)
unfolding sighash_message
sighash_message-IsSighash c tx = record {
  zeroed = c.witness_bytes (with_lock (replicate 65 0));
  is_zeroed = refl;
  count = to_le_bytes (length (c.witness_bytes (with_lock (replicate 65 0))));
  eight = length-to_le_bytes (length (c.witness_bytes (with_lock (replicate 65 0))));
  are_bytes = to_le_bytes-bytes (length (c.witness_bytes (with_lock (replicate 65 0))));
  counts = from-to_le_bytes (length (c.witness_bytes (with_lock (replicate 65 0))));
  digest = refl;
}

-- With a key that has a public key: either the transaction that `sign_transaction` returns has the
-- hash and the content of the given one, and its one witness holds a signature from which the key is
-- recovered with the message that the lock script checks for this transaction; or the key does not
-- sign this message, and `sign_transaction` panics.
pub sign-IsSigned :
    (c : Crypto) (signer : Account) (tx : TransactionView) {public : Bytes}
    → RecoversSigner c
    → c.pubkey signer.privkey ≡ some public
    → ((signed : TransactionView) × (sign_transaction c signer tx ≡ ok signed)
        × (signed.hash ≡ tx.hash)
        × (signed.raw ≡ tx.raw)
        × IsSigned c public signed)
      ⊎ ((message : Bytes) × IsSighash c tx.hash message
          × (c.sign_recoverable signer.privkey message ≡ none)
          × (sign_transaction c signer tx ≡ panic "sign"))
unfolding sign_transaction
sign-IsSigned c signer tx {public} law known =
    let message = sighash_message c tx in
    let is_message = sighash_message-IsSighash c tx in
    elim (Option-cases (c.sign_recoverable signer.privkey message)) [
      | inl unsigned ↦ inr (message, is_message, unsigned, rw unsigned refl)
      | inr (signature, signs) ↦ inl (
        record tx { witnesses = c.witness_bytes (with_lock signature) ∷ [] },
        rw signs refl,
        refl,
        refl,
        record {
          signature = signature;
          witnesses = refl;
          message = message;
          is_message = is_message;
          recovered = law signer.privkey message public signature known signs;
        },
      )
    ]
