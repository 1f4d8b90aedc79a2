-- ===== src/Normalize.antt =====
-- internal/normalize: the sequencer, the normalizer and the Binance trade decoder.
pub mod Sequence
use real_time_market_data_pi.Base.{
  ℕ, suc, ◌+◌, ◌-◌, ◌*◌, ◌%◌, Bool, true, false, Option, none, some, List, [], ◌∷◌, if◌then◌else◌,
  same, list_eq, nat_eq, pair_eq,
}
use real_time_market_data_pi.Base.Bytes.{Str, str}
use real_time_market_data_pi.Base.Text.{Unicode}
use real_time_market_data_pi.Base.Assoc.{Assoc, lookup, insert}
use real_time_market_data_pi.Base.Int.{ℤ, pos, negsuc, eqb_ℤ}
use real_time_market_data_pi.Base.Int64.{two64}
use real_time_market_data_pi.Decimal.Text.{DecimalError, Parsed, ok, err, parse}
use real_time_market_data_pi.Tick.{Tick, Side, buy_side, sell_side, Time, venue_binance}
use real_time_market_data_pi.Registry.{Registry, canonical}

abbrev pub SeqKey : Type 0
SeqKey = Str × Str

-- `Sequencer`: a key that is missing counts as 0.
abbrev pub Sequencer : Type 0
Sequencer = Assoc SeqKey ℕ

abbrev pub key_of : Tick → SeqKey
key_of t = (t.venue, t.instrument)

unfoldable pub last_seq : SeqKey → Sequencer → ℕ
last_seq k s = elim (lookup k s) [ none ↦ 0 | some n ↦ n ]

-- `Assign`, with `uint64` increments.
unfoldable pub assign : List Tick → Sequencer → List Tick × Sequencer
unfolding last_seq
assign [] s = ([], s)
assign (t ∷ ts) s =
    let n = (last_seq (key_of t) s + 1) % two64 in
    let (rest, s') = assign ts (insert (key_of t) n s) in (record t { seq = n } ∷ rest, s')

pub record RawMessage : Type 0 where
  pub venue : Str
  pub payload : Str
  pub recv_time : Time

pub data NormalizeError : Type 0 where
  ignored no_decoder bad_envelope bad_data no_symbol unmapped_symbol : NormalizeError
  bad_price bad_quantity : DecimalError → NormalizeError

pub data Decoded : Type 0 where
  ticks : List Tick → Decoded
  failed : NormalizeError → Decoded

-- The decoders by venue.
abbrev pub Decoders : Type 0
Decoders = Assoc Str (RawMessage → Decoded)

-- `New`: a later decoder of the same venue replaces an earlier one.
unfoldable pub new_decoders : List (Str × (RawMessage → Decoded)) → Decoders → Decoders
new_decoders [] m = m
new_decoders ((v, d) ∷ ds) m = new_decoders ds (insert v d m)

-- The end of `Normalize`, once the frame is decoded.
unfoldable pub sequence : Decoded → Sequencer → Decoded × Sequencer
sequence (failed e) s = (failed e, s)
sequence (ticks []) s = (failed ignored, s)
sequence (ticks (t ∷ ts)) s = let (out, s') = assign (t ∷ ts) s in (ticks out, s')

-- `Normalize`
unfoldable pub normalize : Decoders → RawMessage → Sequencer → Decoded × Sequencer
unfolding sequence
normalize ds msg s = elim (lookup msg.venue ds) [
  | none ↦ (failed no_decoder, s)
  | some d ↦ sequence (d msg) s
]

-- `binanceTrade`, as far as it is read; times in milliseconds, int64 numbers.
pub record BinanceTrade : Type 0 where
  pub event_type : Str
  pub event_time : ℤ
  pub symbol : Str
  pub trade_id : Str
  pub price : Str
  pub quantity : Str
  pub trade_time : ℤ
  pub buyer_is_maker : Bool

abbrev pub is_blank : Str → Bool
is_blank [] = true
is_blank (_ ∷ _) = false

-- Nanoseconds from the zero time to the epoch, and `time.UnixMilli`.
abbrev pub epoch : Time
epoch = 62_135_596_800_000_000_000

-- A time is a natural number: one before the zero time would be the zero time.
unfoldable pub unix_milli : ℤ → Time
unix_milli (pos ms) = epoch + ms * 1_000_000
unix_milli (negsuc n) = epoch - suc n * 1_000_000

-- The part of `Decode` behind the two `json.Unmarshal` calls.
unfoldable pub decode_trade : Unicode → Registry → RawMessage → BinanceTrade → Decoded
unfolding unix_milli
decode_trade u reg msg t =
    if same t.event_type (str "trade")
    then (if is_blank t.symbol
        then failed no_symbol
        else elim (canonical u venue_binance t.symbol reg) [
          | none ↦ failed unmapped_symbol
          | some id ↦ elim (parse t.price) [
            | err e ↦ failed (bad_price e)
            | ok price ↦ elim (parse t.quantity) [
              | err e ↦ failed (bad_quantity e)
              | ok qty ↦ ticks (
                  record {
                    venue = venue_binance;
                    instrument = id;
                    seq = 0;
                    event_time =
                        unix_milli
                          (if eqb_ℤ t.trade_time (pos 0) then t.event_time else t.trade_time);
                    recv_time = msg.recv_time;
                    price = price;
                    quantity = qty;
                    side = if t.buyer_is_maker then sell_side else buy_side;
                    venue_trade_id = t.trade_id;
                  }
                  ∷ [])
            ]
          ]
        ])
    else ticks []

-- The JSON decoder is not under src/: `none` is a decoding error, the envelope's data a text.
module _ (unmarshal_data : Str → Option Str) (unmarshal_trade : Str → Option BinanceTrade) where
  -- `Decode`
  unfoldable pub decode : Unicode → Registry → RawMessage → Decoded
  decode u reg msg = elim (unmarshal_data msg.payload) [
    | none ↦ failed bad_envelope
    | some text ↦ if is_blank text then ticks [] else elim (unmarshal_trade text) [
      | none ↦ failed bad_data
      | some t ↦ decode_trade u reg msg t
    ]
  ]
