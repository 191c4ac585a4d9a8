-- ===== src/Options/Costs.antt =====
-- The cost schedule and the fill price of src/kiwit/options_risk.py.
--
-- A rupee has `rupee` grains; prices, notionals and budgets are numbers of grains. Rates are numbers
-- of parts of the whole, which has 10 ^ 11 parts, so amounts with costs are numbers of parts of a grain.
use kiwi_t.Prelude.{ℕ, ◌+◌, ◌*◌, ◌≡◌, Bool, true, false, arith, if◌then◌else◌}
use kiwi_t.Simulator.Price.{floor_div, ceil_div}

abbrev pub parts : ℕ
parts = 100_000_000_000

-- `BROKERAGE_PER_ORDER`, in rupees
abbrev pub brokerage_per_order : ℕ
brokerage_per_order = 20

abbrev pub exchange_rate : ℕ
exchange_rate = 35_030_000

abbrev pub ipft_rate : ℕ
ipft_rate = 500_000

abbrev pub sebi_rate : ℕ
sebi_rate = 100_000

abbrev pub stamp_buy_rate : ℕ
stamp_buy_rate = 3_000_000

abbrev pub stt_sell_rate : ℕ
stt_sell_rate = 150_000_000

-- `GST_RATE`, in hundredths
abbrev pub gst_rate : ℕ
gst_rate = 18

-- `GST_RATE * (EXCHANGE_RATE + IPFT_RATE + SEBI_RATE)`: the sum is a multiple of a hundred parts
abbrev pub gst_variable_rate : ℕ
gst_variable_rate = 18 * 356_300

abbrev pub buy_variable_rate : ℕ
buy_variable_rate = exchange_rate + ipft_rate + sebi_rate + stamp_buy_rate + gst_variable_rate

abbrev pub sell_variable_rate : ℕ
sell_variable_rate = exchange_rate + ipft_rate + sebi_rate + stt_sell_rate + gst_variable_rate

-- `FIXED_ORDER_COST`, 23.6 rupees in parts of a grain
abbrev pub fixed_order_cost : ℕ → ℕ
fixed_order_cost rupee = rupee * 2_360_000_000_000

-- a text other than "buy" and "sell" counts as "sell"
pub data Side : Type 0 where
  buy sell : Side

abbrev pub is_buy : Side → Bool
is_buy Side.buy = true
is_buy Side.sell = false

-- The amounts of `cost_breakdown`, in parts of a grain.
pub record CostBreakdown : Type 0 where
  pub brokerage : ℕ
  pub exchange : ℕ
  pub ipft : ℕ
  pub sebi : ℕ
  pub gst : ℕ
  pub stamp : ℕ
  pub stt : ℕ
  pub total : ℕ

-- `(BROKERAGE_PER_ORDER + exchange + ipft + sebi) * GST_RATE`, whose terms are multiples of a hundred
-- parts: they are given in hundreds
unfoldable pub gst_on : ℕ → ℕ → ℕ
gst_on rupee value =
    (rupee * brokerage_per_order * 1_000_000_000 + value * 350_300 + value * 5_000 + value * 1_000)
    * gst_rate

unfoldable pub cost_breakdown : ℕ → ℕ → Side → CostBreakdown
unfolding gst_on
cost_breakdown rupee value side =
    let brokerage = rupee * brokerage_per_order * parts in
    let exchange = value * exchange_rate in
    let ipft = value * ipft_rate in
    let sebi = value * sebi_rate in
    let gst = gst_on rupee value in
    let stamp = if is_buy side then value * stamp_buy_rate else 0 in
    let stt = if is_buy side then 0 else value * stt_sell_rate in
    record {
      brokerage = brokerage;
      exchange = exchange;
      ipft = ipft;
      sebi = sebi;
      gst = gst;
      stamp = stamp;
      stt = stt;
      total = brokerage + exchange + ipft + sebi + gst + stamp + stt;
    }

unfoldable pub fees : ℕ → ℕ → Side → ℕ
fees rupee value side = (cost_breakdown rupee value side).total

abbrev pub variable_rate : Side → ℕ
variable_rate Side.buy = buy_variable_rate
variable_rate Side.sell = sell_variable_rate

-- The itemised schedule adds up to the constants that sizing and exits use: the fixed cost of an
-- order and the variable rate of its side.
pub fees-linear :
    (rupee value : ℕ) (side : Side)
    → fees rupee value side ≡ fixed_order_cost rupee + value * variable_rate side
unfolding fees cost_breakdown gst_on
fees-linear rupee value Side.buy = omega arith
fees-linear rupee value Side.sell = omega arith

-- `fill_price` from the ask of a buyer and the bid of a seller
unfoldable pub fill_price : ℕ → ℕ → Bool → ℕ
unfolding floor_div ceil_div
fill_price tick quoted true = ceil_div (quoted * 1001) (tick * 1000) * tick
fill_price tick quoted false = floor_div (quoted * 999) (tick * 1000) * tick
