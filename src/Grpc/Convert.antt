-- ===== src/Grpc/Convert.antt =====
-- include/msim/event_convert.hpp: there and back.
use pmr_market_simulator.Prelude.{ℕ, ◌%◌, ◌<◌, ◌≡◌, refl, ap, ◌∙◌, List, [], ◌∷◌, arith, map, All}
use pmr_market_simulator.Event.{Event}
use pmr_market_simulator.Grpc.{to_proto, from_proto}

-- The enumerations of the event are bytes, as in memory.
pub record HasBytes (e : Event) : Type 0 where
  pub type : e.type < 256
  pub side : e.side < 256

pub from_proto-to_proto : (e : Event) → HasBytes e → from_proto (to_proto e) ≡ e
unfolding from_proto to_proto
from_proto-to_proto e h =
    let type : e.type % 256 ≡ e.type = omega (arith, h.type) in
    let side : e.side % 256 ≡ e.side = omega (arith, h.side) in
    ap
      (λ (t : ℕ). record {
        ts_ns = e.ts_ns;
        type = t;
        symbol = e.symbol;
        price = e.price;
        qty = e.qty;
        side = e.side % 256;
      })
      type
    ∙ ap (λ (s : ℕ). record e { side = s }) side

pub map-from_proto : (es : List Event) → All HasBytes es → map from_proto (map to_proto es) ≡ es
map-from_proto [] h = refl
map-from_proto (e ∷ es) (h, hs) =
    ap (λ x. x ∷ map from_proto (map to_proto es)) (from_proto-to_proto e h)
    ∙ ap (λ l. e ∷ l) (map-from_proto es hs)
