-- ===== src/Intelligence/Labels.antt =====
-- Labels of addresses: src/intelligence/labels.rs, with its counts over the tables of the store.
-- Floating-point numbers and the hexadecimal notation are parameters.
use chain_lens.Base.{
  ℕ, ◌++◌, ◌≡◌, refl, Option, none, some, List, [], ◌∷◌, Bool, true, false, ◌||◌, ◌&&◌,
  if◌then◌else◌, bytes_eq, ltb, any, keep, length, text, trim_0x, arith, Bool-cases, inl, inr,
  Outcome, ok, ok_or, ◌>>=◌,
}
use chain_lens.Domain.{
  Bytes, Address, Transaction, TokenTransfer, TokenStandard, erc20, erc721, erc1155,
}
use chain_lens.Store.Db.{Db}
use chain_lens.Intelligence.Actions.{Formats}
use chain_lens.Intelligence.Anomalies.{Floats}
use chain_lens.Intelligence.Mev.{tenths}
use chain_lens.Sql.{SqlError, protocol}

pub record AddressLabel (F : Type 0) : Type 0 where
  pub address : Bytes
  pub label : Bytes
  pub category : Bytes
  pub confidence : F
  pub source : Bytes

-- `column = $1`, which is not true of NULL.
unfoldable pub is_address : Address → Option Address → Bool
is_address a none = false
is_address a (some b) = bytes_eq b a

unfoldable pub sends_or_receives : Address → Transaction → Bool
unfolding is_address
sends_or_receives a t = bytes_eq t.from a || is_address a t.to

unfoldable pub deploys : Address → Transaction → Bool
deploys a t = bytes_eq t.from a && (elim t.contract_address [ none ↦ false | some _ ↦ true ])

unfoldable pub transfers : Address → TokenTransfer → Bool
transfers a t = bytes_eq t.from a || bytes_eq t.to a

-- `standard = 1`
unfoldable pub is_erc721 : TokenStandard → Bool
is_erc721 erc20 = false
is_erc721 erc721 = true
is_erc721 erc1155 = false

unfoldable pub transfers_nft : Address → TokenTransfer → Bool
unfolding transfers is_erc721
transfers_nft a t = transfers a t && is_erc721 t.standard

-- `COUNT(DISTINCT to_addr)` of the rows that a sender has, without NULL.
unfoldable pub receivers : Address → List Transaction → List Address
receivers a [] = []
receivers a (t ∷ ts) =
    let rest = receivers a ts in
    if bytes_eq t.from a
    then elim t.to [ none ↦ rest | some to ↦ if any (bytes_eq to) rest then rest else to ∷ rest ]
    else rest

module _ {F : Type 0} (f : Floats F) where
  -- The label, when the count of it is above its threshold.
  unfoldable pub labelled :
      (address : Bytes)
      → (count threshold : ℕ) → (label category : Bytes) → (confidence : ℕ) → List (AddressLabel F)
  labelled address count threshold label category confidence =
      if ltb threshold count
      then record {
        address = address;
        label = label;
        category = category;
        confidence = tenths f confidence;
        source = text "on-chain";
      }
        ∷ []
      else []

  unfoldable pub labels_of : (address : Bytes) → Address → Db → List (AddressLabel F)
  unfolding labelled sends_or_receives deploys transfers_nft transfers receivers
  labels_of address a db =
      labelled address (length (keep (sends_or_receives a) db.transactions)) 1000
        (text "High Activity") (text "activity") 9
      ++ labelled address (length (keep (deploys a) db.transactions)) 0 (text "Contract Deployer")
          (text "deployer") 10
      ++ labelled address (length (keep (transfers_nft a) db.token_transfers)) 10
          (text "NFT Collector") (text "nft") 8
      ++ labelled address (length (keep (transfers a) db.token_transfers)) 100 (text "Token Trader")
          (text "trader") 8
      ++ labelled address (length (receivers a db.transactions)) 20 (text "DeFi User") (text "defi")
          7

  unfoldable pub get_address_labels :
      Formats → Db → (address : Bytes) → Outcome SqlError (List (AddressLabel F))
  unfolding labels_of
  get_address_labels fmt db address = do
    addr_bytes ← ok_or (fmt.hex_decode (trim_0x address)) (protocol (text "invalid address"))
    ok (labels_of address addr_bytes db)

  abbrev known : (address label category : Bytes) → AddressLabel F
  known address label category = record {
    address = address;
    label = label;
    category = category;
    confidence = tenths f 10;
    source = text "public";
  }

  unfoldable pub get_known_labels : List (AddressLabel F)
  get_known_labels =
      known (text "0xd8dA6BF26964aF9D7eEd9e03E53415D37aA96045") (text "Vitalik Buterin")
        (text "known_person")
      ∷ known (text "0x1f9840a85d5aF5bf1D1762F925BDADdC4201F984") (text "UNI Token") (text "token")
      ∷ known (text "0xA0b86991c6218b36c1d19D4a2e9Eb0cE3606eB48") (text "USDC") (text "token")
      ∷ known (text "0xdAC17F958D2ee523a2206206994597C13D831ec7") (text "USDT") (text "token")
      ∷ known (text "0x7a250d5630B4cF539739dF2C5dAcb4c659F2488D") (text "Uniswap V2 Router")
          (text "protocol")
      ∷ known (text "0xE592427A0AEce92De3Edee1F18E0157C05861564") (text "Uniswap V3 Router")
          (text "protocol")
      ∷ known (text "0xC02aaA39b223FE8D0A0e5C4F27eAD9083C756Cc2") (text "WETH") (text "token")
      ∷ known (text "0x7Fc66500c84A76Ad7e9c93437bFc5Ac33E2DDaE9") (text "AAVE Token") (text "token")
      ∷ []

-- The rows that none names are counted as none, whatever else is asked of them.
keep-unnamed {ℓ} :
    {A : Type ℓ} (named p : A → Bool) (rows : List A)
    → ((row : A) → named row ≡ false → p row ≡ false)
    → any named rows ≡ false
    → keep p rows ≡ []
keep-unnamed named p [] less h = refl
keep-unnamed named p (row ∷ rows) less h = elim (Bool-cases (named row)) [
  | inl is ↦ absurd (ground (arith, is, h))
  | inr other ↦
      let without = less row other in
      rw (keep, without) (keep-unnamed named p rows less (ground (arith, other, h)))
]

receivers-unnamed :
    (a : Address) (ts : List Transaction)
    → any (sends_or_receives a) ts ≡ false
    → receivers a ts ≡ []
unfolding receivers sends_or_receives
receivers-unnamed a [] h = refl
receivers-unnamed a (t ∷ ts) h = elim (Bool-cases (bytes_eq t.from a)) [
  | inl is ↦ absurd (ground (arith, is, h))
  | inr other ↦ rw (receivers, other) (receivers-unnamed a ts (ground (arith, other, h)))
]

-- An address that no transaction and no transfer names has no labels.
pub get_address_labels_unnamed :
    {F : Type 0} (f : Floats F) (fmt : Formats) (db : Db) (address : Bytes) (a : Address)
    → fmt.hex_decode (trim_0x address) ≡ some a
    → any (sends_or_receives a) db.transactions ≡ false
    → any (transfers a) db.token_transfers ≡ false
    → get_address_labels f fmt db address ≡ ok []
unfolding get_address_labels labels_of labelled sends_or_receives deploys transfers_nft transfers
get_address_labels_unnamed f fmt db address a decoded unsent untransferred =
    let active =
      keep-unnamed (sends_or_receives a) (sends_or_receives a) db.transactions (λ t e. e) unsent in
    let deployed =
      keep-unnamed (sends_or_receives a) (deploys a) db.transactions (λ t e. ground (arith, e))
        unsent in
    let nfts =
      keep-unnamed (transfers a) (transfers_nft a) db.token_transfers (λ t e. ground (arith, e))
        untransferred in
    let traded =
      keep-unnamed (transfers a) (transfers a) db.token_transfers (λ t e. e) untransferred in
    let called = receivers-unnamed a db.transactions unsent in
    rw (get_address_labels, decoded) (rw (labels_of, active, deployed, nfts, traded, called) refl)
