-- ===== src/Crypto.antt =====
-- What the sources call of ckb_crypto, ckb_hash and the serialisation of ckb_types: the operations
-- are fields, and their documented laws are hypotheses of the theorems that rest on them.
use Prim.Native.String.{String}
use ckb_bench_archived.Base.{Option, some, ◌≡◌}
use ckb_bench_archived.Chain.{Byte32, Bytes, Script, RawTransaction, WitnessArgs}

-- `Privkey` and the serialised `Pubkey` of ckb_crypto::secp.
abbrev pub Privkey : Type 0
Privkey = Bytes

pub record Crypto : Type 0 where
  -- `Privkey::from_str`, `privkey.pubkey()`, `privkey.sign_recoverable(message)`
  pub parse_privkey : String → Option Privkey
  pub pubkey : Privkey → Option Bytes
  pub sign_recoverable : Privkey → Bytes → Option Bytes
  -- `signature.recover(message)`, which a verifier runs
  pub recover : Bytes → Bytes → Option Bytes
  -- `ckb_hash::blake2b_256`: the 32 bytes of the digest
  pub blake2b_256 : Bytes → Bytes
  -- `script.calc_script_hash()`, and the hash that `TransactionBuilder::build` computes
  pub script_hash : Script → Byte32
  pub transaction_hash : RawTransaction → Byte32
  -- `hash.raw_data()`, `witness_args.as_bytes()`
  pub raw_data : Byte32 → Bytes
  pub witness_bytes : WitnessArgs → Bytes

-- secp256k1 with recovery: the key that is recovered from a signature is the signer's.
abbrev pub RecoversSigner : Crypto → Type 0
RecoversSigner c =
    (key : Privkey) (message public signature : Bytes)
    → c.pubkey key ≡ some public
    → c.sign_recoverable key message ≡ some signature
    → c.recover signature message ≡ some public
