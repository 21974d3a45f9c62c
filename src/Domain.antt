-- ===== src/Domain.antt =====
-- The data of the indexer: src/domain/block.rs, transaction.rs, log.rs, token_transfer.rs and
-- mod.rs. A `Bytes`, a `B256` and an `Address` are the lists of their bytes; a `U256` is a number.
use chain_lens.Base.{ℕ, Option, List, [], ◌∷◌}

abbrev pub Bytes : Type 0
Bytes = List ℕ

abbrev pub B256 : Type 0
B256 = Bytes

abbrev pub Address : Type 0
Address = Bytes

abbrev pub U256 : Type 0
U256 = ℕ

pub record Block : Type 0 where
  pub number : ℕ
  pub hash : B256
  pub parent_hash : B256
  pub timestamp : ℕ
  pub miner : Address
  pub gas_used : ℕ
  pub gas_limit : ℕ
  pub base_fee_per_gas : Option ℕ
  pub tx_count : ℕ

pub record Transaction : Type 0 where
  pub hash : B256
  pub block_number : ℕ
  pub tx_index : ℕ
  pub from : Address
  pub to : Option Address
  pub value : U256
  pub nonce : ℕ
  pub tx_type : ℕ
  pub gas_limit : ℕ
  pub gas_price : Option U256
  pub max_fee_per_gas : Option U256
  pub max_priority_fee_per_gas : Option U256
  pub input : Bytes
  pub status : Option ℕ
  pub gas_used : ℕ
  pub effective_gas_price : Option U256
  pub contract_address : Option Address

-- `log_data` is the field `data`.
pub record Log : Type 0 where
  pub block_number : ℕ
  pub log_index : ℕ
  pub tx_hash : B256
  pub address : Address
  pub topic0 : Option B256
  pub topic1 : Option B256
  pub topic2 : Option B256
  pub topic3 : Option B256
  pub log_data : Bytes

pub data TokenStandard : Type 0 where
  erc20 erc721 erc1155 : TokenStandard

pub record TokenTransfer : Type 0 where
  pub block_number : ℕ
  pub log_index : ℕ
  pub token_address : Address
  pub from : Address
  pub to : Address
  pub value : U256
  pub token_id : U256
  pub standard : TokenStandard

pub record IndexedBlock : Type 0 where
  pub block : Block
  pub transactions : List Transaction
  pub logs : List Log
  pub token_transfers : List TokenTransfer

abbrev pub transfer_topic : B256
transfer_topic =
    0xdd ∷ 0xf2 ∷ 0x52 ∷ 0xad ∷ 0x1b ∷ 0xe2 ∷ 0xc8 ∷ 0x9b ∷ 0x69 ∷ 0xc2 ∷ 0xb0 ∷ 0x68 ∷ 0xfc ∷ 0x37
    ∷ 0x8d ∷ 0xaa ∷ 0x95 ∷ 0x2b ∷ 0xa7 ∷ 0xf1 ∷ 0x63 ∷ 0xc4 ∷ 0xa1 ∷ 0x16 ∷ 0x28 ∷ 0xf5 ∷ 0x5a
    ∷ 0x4d ∷ 0xf5 ∷ 0x23 ∷ 0xb3 ∷ 0xef ∷ []

abbrev pub erc1155_transfer_single_topic : B256
erc1155_transfer_single_topic =
    0xc3 ∷ 0xd5 ∷ 0x81 ∷ 0x68 ∷ 0xc5 ∷ 0xae ∷ 0x73 ∷ 0x97 ∷ 0x73 ∷ 0x1d ∷ 0x06 ∷ 0x3d ∷ 0x5b ∷ 0xbf
    ∷ 0x3d ∷ 0x65 ∷ 0x78 ∷ 0x54 ∷ 0x42 ∷ 0x73 ∷ 0x43 ∷ 0xf4 ∷ 0xc0 ∷ 0x83 ∷ 0x24 ∷ 0x0f ∷ 0x7a
    ∷ 0xac ∷ 0xaa ∷ 0x2d ∷ 0x0f ∷ 0x62 ∷ []

abbrev pub erc1155_transfer_batch_topic : B256
erc1155_transfer_batch_topic =
    0x4a ∷ 0x39 ∷ 0xdc ∷ 0x06 ∷ 0xd4 ∷ 0xc0 ∷ 0xdb ∷ 0xc6 ∷ 0x4b ∷ 0x70 ∷ 0xaf ∷ 0x90 ∷ 0xfd ∷ 0x69
    ∷ 0x8a ∷ 0x23 ∷ 0x3a ∷ 0x51 ∷ 0x8a ∷ 0xa5 ∷ 0xd0 ∷ 0x7e ∷ 0x59 ∷ 0x5d ∷ 0x98 ∷ 0x3b ∷ 0x8c
    ∷ 0x05 ∷ 0x26 ∷ 0xc8 ∷ 0xf7 ∷ 0xfb ∷ []
