-- ===== src/Intelligence/Trends/Unread.antt =====
-- What the answers of src/intelligence/trends.rs can be.
use chain_lens.Base.{
  ℤ, ◌≡◌, refl, false, List, [], ◌∷◌, map, bytes_eq, text, trim_0x, Outcome, ok, ok_or, ◌>>=◌,
  >>=-eq-ok, ok-injective, sym,
}
use chain_lens.Domain.{Bytes}
use chain_lens.Intelligence.Actions.{Formats}
use chain_lens.Intelligence.Mev.{
  MevType, possible_sandwich, possible_arbitrage, possible_liquidation, priority_fee_anomaly,
  repeated_protocol_interaction,
}
use chain_lens.Intelligence.Persist.{mev_name}
use chain_lens.Intelligence.Trends.{
  AddressTrend, ContractTrend, AnomalyTrend, MevTrend, count_of, each_row, address_trend,
  contract_trend, anomaly_trend, mev_trend, get_address_trends, get_contract_trends,
  get_anomaly_trends, get_mev_trends,
}
use chain_lens.Sql.{SqlError, date, as_string, Server, get_column}
use chain_lens.Sql.Laws.{get_column-eq-ok}

-- A reader that reads nothing leaves no rows but none.
each_row_unread :
    {A B : Type 0} (read : A → Outcome SqlError B) (rows : List A) {bs : List B}
    → ((row : A) (b : B) → read row ≡ ok b → ⊥)
    → each_row read rows ≡ ok bs
    → bs ≡ []
unfolding each_row
each_row_unread read [] never h = sym (ok-injective h)
each_row_unread read (row ∷ rows) never h =
    let (b, e, _) = >>=-eq-ok (read row) _ h in absurd (never row b e)

module _ {F : Type 0} (server : Server F) (narrow : server.reads as_string date ≡ false) where
  unread :
      {B : Type 0} (day : Bytes) (next : Bytes → Outcome SqlError B) (b : B)
      → (get_column server as_string date day >>= next) ≡ ok b
      → ⊥
  unread day next b h =
      let (_, e, _) = >>=-eq-ok (get_column server as_string date day) next h in
      let read = get_column-eq-ok server as_string date day e in cc

  -- If a column of type DATE cannot be read as a text, then the trends of addresses, contracts,
  -- anomalies and events are never answered with anything but no days, whatever is stored.
  pub trends_are_empty :
      (fmt : Formats)
      → ((query : _) (address : Bytes) (days : ℤ) (r : List AddressTrend)
          → get_address_trends server fmt query address days ≡ ok r
          → r ≡ [])
        × ((query : _) (address : Bytes) (days : ℤ) (r : List ContractTrend)
            → get_contract_trends server fmt query address days ≡ ok r
            → r ≡ [])
        × ((query : _) (days : ℤ) (r : List AnomalyTrend)
            → get_anomaly_trends server query days ≡ ok r
            → r ≡ [])
        × ((query : _) (days : ℤ) (r : List MevTrend)
            → get_mev_trends server query days ≡ ok r
            → r ≡ [])
  unfolding get_address_trends get_contract_trends get_anomaly_trends get_mev_trends address_trend
      contract_trend anomaly_trend mev_trend
  trends_are_empty fmt = (
    λ query address days r h.
        let (b, _, h') = >>=-eq-ok (ok_or (fmt.hex_decode (trim_0x address)) _) _ h in
        let (rows, _, h'') = >>=-eq-ok (query b days) _ h' in
        each_row_unread _ rows (λ row b e. unread row.day _ b e) h'',
    λ query address days r h.
        let (b, _, h') = >>=-eq-ok (ok_or (fmt.hex_decode (trim_0x address)) _) _ h in
        let (rows, _, h'') = >>=-eq-ok (query b days) _ h' in
        each_row_unread _ rows (λ row b e. unread row.day _ b e) h'',
    λ query days r h.
        let (rows, _, h') = >>=-eq-ok (query days) _ h in
        each_row_unread _ rows (λ row b e. unread row.0 _ b e) h',
    λ query days r h.
        let (rows, _, h') = >>=-eq-ok (query days) _ h in
        each_row_unread _ rows (λ row b e. unread row.0 _ b e) h',
  )

-- Of the events that are persisted, whatever their types are, none is counted as a sandwich or as an
-- arbitrage by the query of the trends.
pub count_of-mev_name :
    (types : List MevType)
    → (count_of (text "possible_sandwich") (map mev_name types) ≡ 0)
      × (count_of (text "possible_arbitrage") (map mev_name types) ≡ 0)
unfolding count_of mev_name text bytes_eq
count_of-mev_name [] = (refl, refl)
count_of-mev_name (possible_sandwich ∷ types) = count_of-mev_name types
count_of-mev_name (possible_arbitrage ∷ types) = count_of-mev_name types
count_of-mev_name (possible_liquidation ∷ types) = count_of-mev_name types
count_of-mev_name (priority_fee_anomaly ∷ types) = count_of-mev_name types
count_of-mev_name (repeated_protocol_interaction ∷ types) = count_of-mev_name types
