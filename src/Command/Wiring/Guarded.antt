-- ===== src/Command/Wiring/Guarded.antt =====
-- What an engine with real orders has behind it when cmd/mdp/main.go has started it.
use real_time_market_data_pi.Base.{◌≡◌, Bool, true, false, Option, some, List}
use real_time_market_data_pi.Base.Text.{Unicode}
use real_time_market_data_pi.Base.Bytes.{Str, str}
use real_time_market_data_pi.Alpaca
use real_time_market_data_pi.Alpaca.Interlock.{IsPermitted}
use real_time_market_data_pi.Bus.Fanout.{Bus}
use real_time_market_data_pi.Float.{Float64}
use real_time_market_data_pi.Store.{is_blank}
use real_time_market_data_pi.Command.Wiring.{Settings}

module _ (fl : Float64) (sqrt : fl.F → fl.F) (sprintf : Str → List fl.F → Str) (getenv : Str → Str)
    (unicode : Unicode) (hostname : Str → Option Str) (ping : Str → Bool) where
  -- A client's endpoint that is permitted by the settings and answered, and the keys for it.
  abbrev pub IsGuarded : Settings fl.F → Str → Type 0
  IsGuarded c base =
      ((name : Str) × (hostname base ≡ some name) × IsPermitted c.alpaca_allow_live name)
      × (is_blank (getenv (str "ALPACA_API_KEY")) ≡ false)
      × (is_blank (getenv (str "ALPACA_API_SECRET")) ≡ false)
      × (ping base ≡ true)
