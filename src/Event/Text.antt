-- ===== src/Event/Text.antt =====
-- include/msim/event.hpp: `to_string`.
use pmr_market_simulator.Prelude.{ℕ, List, ◌∷◌, ◌++◌, take, ◌==◌, if◌then◌else◌}
use pmr_market_simulator.Prelude.Int.{ℤ}
use pmr_market_simulator.Prelude.Texts.{text, until_nul}
use pmr_market_simulator.Event.{Event, order_add, order_cancel, type_code}

-- The conversions `%.2f` of the double with a bit pattern, `%d` and `%llu` of the C library, which
-- are parameters of the model.
pub record Printf : Type 0 where
  pub fixed_2 : ℕ → List ℕ
  pub decimal_int : ℤ → List ℕ
  pub decimal_size : ℕ → List ℕ

abbrev pub type_name : ℕ → List ℕ
type_name type =
    if type == type_code order_add
    then text "ADD"
    else if type == type_code order_cancel
    then text "CXL"
    else text "TRD"

-- `snprintf` keeps 127 bytes; the side is printed by `%c`.
unfoldable pub to_string : Printf → Event → List ℕ
to_string io e = until_nul (
    take 127 (
      text "["
      ++ (type_name e.type
          ++ (text "] "
              ++ (until_nul e.symbol
                  ++ (text " "
                      ++ (io.fixed_2 e.price
                          ++ (text " x "
                              ++ (io.decimal_int e.qty
                                  ++ (text " ("
                                      ++ (e.side
                                          ∷ (text ") t=" ++ io.decimal_size e.ts_ns))))))))))))
