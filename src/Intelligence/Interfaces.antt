-- ===== src/Intelligence/Interfaces.antt =====
-- The methods of known interfaces: src/intelligence/interfaces.rs.
pub mod Laws
use chain_lens.Base.{
  Option, none, some, List, [], ◌∷◌, ◌++◌, Bool, if◌then◌else◌, ltb, length, take, any, bytes_eq,
  text,
}
use chain_lens.Domain.{Bytes}
use chain_lens.Intelligence.Tables.{get, inserted}

pub record InterfaceInfo : Type 0 where
  pub name : Bytes
  pub description : Bytes

-- The entries of `KNOWN_INTERFACES` in the order in which they are inserted.
abbrev pub token_interfaces : List (Bytes × InterfaceInfo)
token_interfaces =
    (
      169 ∷ 5 ∷ 156 ∷ 187 ∷ [],
      record { name = text "ERC-20"; description = text "transfer(address,uint256)" },
    )
    ∷ (
      9 ∷ 94 ∷ 167 ∷ 179 ∷ [],
      record { name = text "ERC-20"; description = text "approve(address,uint256)" },
    )
    ∷ (
      35 ∷ 184 ∷ 114 ∷ 221 ∷ [],
      record {
        name = text "ERC-20/721";
        description = text "transferFrom(address,address,uint256)";
      },
    )
    ∷ (
      221 ∷ 98 ∷ 237 ∷ 62 ∷ [],
      record { name = text "ERC-20"; description = text "allowance(address,address)" },
    )
    ∷ (
      112 ∷ 160 ∷ 130 ∷ 49 ∷ [],
      record { name = text "ERC-20"; description = text "balanceOf(address)" },
    )
    ∷ (24 ∷ 22 ∷ 13 ∷ 221 ∷ [], record { name = text "ERC-20"; description = text "totalSupply()" })
    ∷ (
      66 ∷ 132 ∷ 46 ∷ 14 ∷ [],
      record {
        name = text "ERC-721";
        description = text "safeTransferFrom(address,address,uint256)";
      },
    )
    ∷ (
      184 ∷ 141 ∷ 79 ∷ 222 ∷ [],
      record {
        name = text "ERC-721";
        description = text "safeTransferFrom(address,address,uint256,bytes)";
      },
    )
    ∷ (
      8 ∷ 24 ∷ 18 ∷ 252 ∷ [],
      record { name = text "ERC-721"; description = text "getApproved(uint256)" },
    )
    ∷ (
      162 ∷ 44 ∷ 180 ∷ 101 ∷ [],
      record { name = text "ERC-721"; description = text "setApprovalForAll(address,bool)" },
    )
    ∷ (
      233 ∷ 133 ∷ 233 ∷ 197 ∷ [],
      record { name = text "ERC-721"; description = text "isApprovedForAll(address,address)" },
    )
    ∷ (
      99 ∷ 82 ∷ 33 ∷ 30 ∷ [],
      record { name = text "ERC-721"; description = text "ownerOf(uint256)" },
    )
    ∷ (
      242 ∷ 66 ∷ 67 ∷ 42 ∷ [],
      record {
        name = text "ERC-1155";
        description = text "safeTransferFrom(address,address,uint256,uint256,bytes)";
      },
    )
    ∷ (
      46 ∷ 178 ∷ 194 ∷ 214 ∷ [],
      record {
        name = text "ERC-1155";
        description = text "safeBatchTransferFrom(address,address,uint256[],uint256[],bytes)";
      },
    )
    ∷ (
      0 ∷ 253 ∷ 213 ∷ 142 ∷ [],
      record { name = text "ERC-1155"; description = text "balanceOf(address,uint256)" },
    )
    ∷ (
      78 ∷ 18 ∷ 99 ∷ 185 ∷ [],
      record { name = text "ERC-1155"; description = text "balanceOfBatch(address[],uint256[])" },
    )
    ∷ (
      162 ∷ 44 ∷ 180 ∷ 101 ∷ [],
      record { name = text "ERC-1155"; description = text "setApprovalForAll(address,bool)" },
    )
    ∷ []

abbrev pub uniswap_interfaces : List (Bytes × InterfaceInfo)
uniswap_interfaces =
    (
      56 ∷ 237 ∷ 23 ∷ 57 ∷ [],
      record { name = text "Uniswap V2"; description = text "swapExactTokensForTokens" },
    )
    ∷ (
      136 ∷ 3 ∷ 219 ∷ 238 ∷ [],
      record { name = text "Uniswap V2"; description = text "swapTokensForExactTokens" },
    )
    ∷ (
      127 ∷ 243 ∷ 106 ∷ 181 ∷ [],
      record { name = text "Uniswap V2"; description = text "swapExactETHForTokens" },
    )
    ∷ (
      74 ∷ 37 ∷ 217 ∷ 74 ∷ [],
      record { name = text "Uniswap V2"; description = text "swapTokensForExactETH" },
    )
    ∷ (
      24 ∷ 203 ∷ 175 ∷ 229 ∷ [],
      record { name = text "Uniswap V2"; description = text "swapExactTokensForETH" },
    )
    ∷ (
      232 ∷ 227 ∷ 55 ∷ 0 ∷ [],
      record { name = text "Uniswap V2"; description = text "addLiquidity" },
    )
    ∷ (
      186 ∷ 162 ∷ 171 ∷ 222 ∷ [],
      record { name = text "Uniswap V2"; description = text "removeLiquidity" },
    )
    ∷ (
      65 ∷ 75 ∷ 243 ∷ 137 ∷ [],
      record { name = text "Uniswap V3"; description = text "exactInputSingle" },
    )
    ∷ (
      192 ∷ 75 ∷ 141 ∷ 89 ∷ [],
      record { name = text "Uniswap V3"; description = text "exactInput" },
    )
    ∷ (
      219 ∷ 62 ∷ 33 ∷ 152 ∷ [],
      record { name = text "Uniswap V3"; description = text "exactOutputSingle" },
    )
    ∷ (
      242 ∷ 140 ∷ 4 ∷ 2 ∷ [],
      record { name = text "Uniswap V3"; description = text "exactOutput" },
    )
    ∷ []

abbrev pub protocol_interfaces : List (Bytes × InterfaceInfo)
protocol_interfaces =
    (208 ∷ 227 ∷ 13 ∷ 176 ∷ [], record { name = text "WETH"; description = text "deposit()" })
    ∷ (
      46 ∷ 26 ∷ 125 ∷ 77 ∷ [],
      record { name = text "WETH"; description = text "withdraw(uint256)" },
    )
    ∷ (232 ∷ 237 ∷ 166 ∷ 223 ∷ [], record { name = text "Aave"; description = text "deposit" })
    ∷ (105 ∷ 50 ∷ 141 ∷ 236 ∷ [], record { name = text "Aave"; description = text "withdraw" })
    ∷ (198 ∷ 125 ∷ 58 ∷ 45 ∷ [], record { name = text "Aave"; description = text "borrow" })
    ∷ (87 ∷ 58 ∷ 221 ∷ 128 ∷ [], record { name = text "Aave"; description = text "repay" })
    ∷ (
      160 ∷ 113 ∷ 45 ∷ 104 ∷ [],
      record { name = text "Compound"; description = text "mint(uint256)" },
    )
    ∷ (
      219 ∷ 0 ∷ 106 ∷ 117 ∷ [],
      record { name = text "Compound"; description = text "redeem(uint256)" },
    )
    ∷ (
      133 ∷ 43 ∷ 74 ∷ 92 ∷ [],
      record { name = text "Compound"; description = text "redeemUnderlying(uint256)" },
    )
    ∷ (141 ∷ 165 ∷ 203 ∷ 91 ∷ [], record { name = text "Ownable"; description = text "owner()" })
    ∷ (
      242 ∷ 253 ∷ 227 ∷ 139 ∷ [],
      record { name = text "Ownable"; description = text "transferOwnership(address)" },
    )
    ∷ (
      54 ∷ 89 ∷ 203 ∷ 254 ∷ [],
      record { name = text "Proxy"; description = text "implementation()" },
    )
    ∷ (
      92 ∷ 96 ∷ 218 ∷ 27 ∷ [],
      record { name = text "Proxy"; description = text "upgradeTo(address)" },
    )
    ∷ []

unfoldable pub known_interfaces : List (Bytes × InterfaceInfo)
unfolding inserted text
known_interfaces = inserted (token_interfaces ++ (uniswap_interfaces ++ protocol_interfaces)) []

unfoldable pub detect_interface : Bytes → Option InterfaceInfo
unfolding known_interfaces get
detect_interface selector =
    if ltb (length selector) 4 then none else get (take 4 selector) known_interfaces

-- The loop of `detect_interfaces`, with what it has seen and the results so far.
unfoldable pub detect_from : List Bytes → List InterfaceInfo → List Bytes → List InterfaceInfo
unfolding detect_interface
detect_from seen result [] = result
detect_from seen result (sel ∷ selectors) = elim (detect_interface sel) [
  | none ↦ detect_from seen result selectors
  | some info ↦
      if any (bytes_eq info.name) seen
      then detect_from seen result selectors
      else detect_from (info.name ∷ seen) (result ++ info ∷ []) selectors
]

unfoldable pub detect_interfaces : List Bytes → List InterfaceInfo
unfolding detect_from
detect_interfaces selectors = detect_from [] [] selectors
