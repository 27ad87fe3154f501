-- ===== src/Account/Forever/Tests.antt =====
-- Tests and witnesses of the loops that go on for ever.
use text.Mathlib.Text.{◌==◌ as str_eq}
use ckb_bench_archived.Base.{
  ℕ, suc, ltb, lt→ltb, ◌+◌, ◌-◌, ◌≡◌, refl, List, [], ◌∷◌, ◌++◌, some, none, true, ok, arith, leb,
  if◌then◌else◌,
}
use ckb_bench_archived.Utxo.{Utxo}
use ckb_bench_archived.Host.{Host}
use ckb_bench_archived.Rpc.{Inner, failed, answer}
use ckb_bench_archived.Account.Maturity.{is_matured}
use ckb_bench_archived.Account.Owned.{Found}
use ckb_bench_archived.Account.Forever.{
  Following, follow_block, send_one, send_all, send_matured, retry_send,
}
use ckb_bench_archived.Account.Forever.Sent.{Receives, IsFollowed, follow_block-IsFollowed}
use mathlib.Core.List.{Permᴰ}
use ckb_bench_archived.Account.Forever.{pull_forever}
use ckb_bench_archived.Account.Forever.Sent.{cells_of}
use ckb_bench_archived.Account.Forever.Step.{Shares}
use ckb_bench_archived.Account.Forever.Reorg.{pull_forever-resends}
use ckb_bench_archived.Account.Forever.Retried.{retry_send-takes}
use ckb_bench_archived.Rpc.Draining.{Drains}
use ckb_bench_archived.Chain.{TransactionView}
use ckb_bench_archived.Account.Forever.Growth.{owned_behind}
use ckb_bench_archived.Samples.{
  chain_node, toy_crypto, alice, alice_lock, alice_lock_lem, alice_utxo, block_at, header_at,
  payment_at, dead_node, local_rpc,
}

-- The world is what the channel has taken.
abbrev channel : Host (List Utxo)
channel = record {
  sleep = λ time w. w;
  now = λ w. (0, w);
  send_utxo = λ utxo w. (true, w ++ utxo ∷ []);
  recv_utxo = λ w. (none, w);
  send_tx = λ i tx w. (true, w);
  try_send_tx = λ i tx w. (true, w);
}

channel-Receives : Receives channel (λ w. w)
channel-Receives = record { takes = λ utxo w. (w ++ utxo ∷ [], refl, refl) }

abbrev waiting : List (ℕ × Utxo)
waiting = (1, alice_utxo 10 1 0) ∷ (2, alice_utxo 20 2 0) ∷ (9000, alice_utxo 30 3 0) ∷ []

abbrev found : Found
found = record { matured = alice_utxo 5 4 0 ∷ []; unmatured = alice_utxo 6 5 0 ∷ [] }

-- With a maturity of 4 epochs, block 9001 promotes the cells of blocks 1 and 2.
follow_block-promotes : follow_block channel 4 (header_at 9001) (block_at 9001) found waiting [] ≡ (
  ok (
      some (record {
        current_header = header_at 9001;
        unmatureds = (9000, alice_utxo 30 3 0) ∷ (9001, alice_utxo 6 5 0) ∷ [];
      })),
  alice_utxo 5 4 0 ∷ alice_utxo 10 1 0 ∷ alice_utxo 20 2 0 ∷ [],
)
unfolding follow_block send_all send_matured send_one is_matured
follow_block-promotes = refl

follow_block-IsFollowed_example :
    (next : Following) × (w' : List Utxo) × (follow_block channel 4
        (header_at 9001)
        (block_at 9001)
        found
        waiting
        []
      ≡ (ok (some next), w'))
    × IsFollowed 4 (header_at 9001) (block_at 9001) found waiting [] w' next
follow_block-IsFollowed_example =
    follow_block-IsFollowed channel (λ w. w) channel-Receives 4 (header_at 9001) (block_at 9001)
      found waiting [] ((omega arith, (omega arith, tt)), ((omega arith, tt), (tt, tt)))
      (omega arith, (omega arith, (omega arith, tt)))
      (omega arith, (omega arith, (omega arith, tt)))

-- The world counts down how often the pool is still full.
abbrev full_pool : Inner ℕ
full_pool = record dead_node {
  send_transaction = λ uri tx w. (if leb 1 w then failed "PoolIsFull" else answer 7, w);
}

abbrev sleeping : Host ℕ
sleeping = record {
  sleep = λ time w. w - 1;
  now = λ w. (0, w);
  send_utxo = λ utxo w. (true, w);
  recv_utxo = λ w. (none, w);
  send_tx = λ i tx w. (true, w);
  try_send_tx = λ i tx w. (true, w);
}

retry_send-third : retry_send full_pool sleeping str_eq local_rpc (payment_at 3) 3 2 ≡ (ok none, 0)
unfolding retry_send
retry_send-third = refl

-- A chain of ten blocks, of which the first three have been followed.
abbrev ten_blocks : {W : Type 0} → Inner W
ten_blocks = chain_node 9

abbrev two_followed : Following
two_followed = record { current_header = header_at 2; unmatureds = (1, alice_utxo 10 1 0) ∷ [] }

ten_blocks-Shares : Shares ten_blocks local_rpc (local_rpc ∷ []) block_at 9 (λ w. w)
ten_blocks-Shares = record {
  headers = λ n le rpc w here. (w, ground arith, refl);
  blocks = λ n w le. (w, ground arith, refl);
  numbered = λ n le. refl;
  linked = λ n le. omega arith;
}

-- A block 2 that is no longer on the chain.
abbrev orphan_followed : Following
orphan_followed = record two_followed { current_header = record (header_at 2) { hash = 77 } }

pull_forever-resends_example :
    (next : Following) × (w' : List Utxo) × (pull_forever ten_blocks toy_crypto channel 4 alice
        (record { endpoints = local_rpc ∷ local_rpc ∷ [] })
        (suc (7 + 5))
        orphan_followed
        (alice_utxo 40 8 0 ∷ [])
      ≡ pull_forever ten_blocks toy_crypto channel 4 alice
          (record { endpoints = local_rpc ∷ local_rpc ∷ [] })
          5
          next
          w')
    × (next.current_header ≡ (block_at (7 + (2 - 1000))).header)
    × Permᴰ (w' ++ cells_of next.unmatureds) (
        (alice_utxo 40 8 0 ∷ [] ++ cells_of orphan_followed.unmatureds)
        ++ owned_behind alice_lock block_at (2 - 1000) 7)
pull_forever-resends_example =
    pull_forever-resends ten_blocks toy_crypto channel 4 alice local_rpc (local_rpc ∷ []) block_at 9
      (λ w. w) alice_lock_lem channel-Receives ten_blocks-Shares (omega arith) 7 5 2 orphan_followed
      (alice_utxo 40 8 0 ∷ []) refl (omega arith) (λ e. omega (arith, e)) (omega arith)

-- A node whose pool is full for some seconds, and what it has taken.
abbrev pub draining : Inner (ℕ × List TransactionView)
draining = record dead_node {
  send_transaction =
      λ uri tx w. if ltb 0 w.0 then (failed "PoolIsFull", w) else (answer 7, (w.0, w.1 ++ tx ∷ []));
}

abbrev pub a_second : Host (ℕ × List TransactionView)
a_second = record {
  sleep = λ time w. (w.0 - 1, w.1);
  now = λ w. (0, w);
  send_utxo = λ utxo w. (true, w);
  recv_utxo = λ w. (none, w);
  send_tx = λ i tx w. (true, w);
  try_send_tx = λ i tx w. (true, w);
}

pub draining-Drains : Drains draining a_second str_eq local_rpc (λ w. w.0) (λ w. w.1)
draining-Drains = record {
  refuses = λ tx w more. ("PoolIsFull", w, rw (lt→ltb 0 w.0 more) refl, refl, refl, refl);
  takes = λ tx w empty. (7, (w.0, w.1 ++ tx ∷ []), rw empty refl, refl);
  drains = λ w more. (omega arith, refl);
}

retry_send-takes_example :
    (w' : ℕ × List TransactionView) × (retry_send draining a_second str_eq local_rpc
        (payment_at 3)
        5
        (3, [])
      ≡ (ok none, w'))
    × (w'.1 ≡ [] ++ payment_at 3 ∷ [])
retry_send-takes_example =
    retry_send-takes draining a_second str_eq local_rpc (λ w. w.0) (λ w. w.1) draining-Drains
      (payment_at 3) 5 (3, []) (omega arith)
