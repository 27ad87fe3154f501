-- ===== src/Account.antt =====
-- tps-bench/src/account.rs: an account is a private key; the lock script that its address stands
-- for. The children model what an account does with the chain.
pub mod Owned
pub mod Maturity
pub mod Pull
pub mod PullFrom
pub mod Forever
pub mod Transferring
mod Tests
use Prim.Native.String.{String}
use ckb_bench_archived.Base.{some, none, take, Outcome, ok, exit, unwrap}
use ckb_bench_archived.Base.Outcomes.{◌>>=◌}
use ckb_bench_archived.Chain.{Byte32, Script, by_type}
use ckb_bench_archived.Crypto.{Crypto, Privkey}
use ckb_bench_archived.Global.{sighash_all_type_hash}

pub record Account : Type 0 where
  pub privkey : Privkey

-- `Account::new`: `prompt_and_exit!` ends the process with code 1.
unfoldable pub new : Crypto → String → Outcome Account
new c private_key = elim (c.parse_privkey private_key) [
  | some privkey ↦ ok (record { privkey = privkey })
  | none ↦ exit 1
]

-- `Account::lock_script`: the first 20 bytes of the digest of the public key are the address.
unfoldable pub lock_script : Crypto → Account → Outcome Script
lock_script c account = do
  pubkey ← unwrap (c.pubkey account.privkey) "pubkey"
  ok (record {
    args = take 20 (c.blake2b_256 pubkey);
    code_hash = sighash_all_type_hash;
    hash_type = by_type;
  })

-- `Account::lock_hash`
pub lock_hash : Crypto → Account → Outcome Byte32
lock_hash c account = do script ← lock_script c account; ok (c.script_hash script)
