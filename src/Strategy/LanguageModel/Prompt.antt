-- ===== src/Strategy/LanguageModel/Prompt.antt =====
-- internal/strategy/llm.go: the prompt, and an evaluation over the language model as a parameter.
use real_time_market_data_pi.Base.{
  ℕ, ◌<◌, ◌≡◌, refl, ap, Option, none, some, List, [], ◌∷◌, ◌++◌, if◌then◌else◌, ltb, lt→ltb,
  length, All,
}
use real_time_market_data_pi.Base.Bytes.{Str, str}
use real_time_market_data_pi.Base.Int.{ℤ, pos, leb_ℤ}
use real_time_market_data_pi.Candles.{Candle}
use real_time_market_data_pi.Decimal.Text.{to_string}
use real_time_market_data_pi.Float.{Float64}
use real_time_market_data_pi.Strategy.{Action, hold, buy, sell, Signal}
use real_time_market_data_pi.Strategy.LanguageModel.{
  Entry, signals_or_none, IsTrade, signals_or_none-IsTrade,
}
use real_time_market_data_pi.Strategy.Momentum.{Market}
use real_time_market_data_pi.Tick.{Tick, Time}

-- `LLMConfig` without the key, and `LLM` without the client, over the strategies `B` that may be the
-- baseline.
pub record LlmConfig (B : Type 0) : Type 0 where
  pub model : Str
  pub bars : ℤ
  pub baseline : Option B

pub record Llm (B : Type 0) : Type 0 where
  pub model_id : Str
  pub bars : ℤ
  pub baseline : Option B

-- `NewLLM`
unfoldable pub new_llm : {B : Type 0} → LlmConfig B → Llm B
new_llm cfg = record {
  model_id = elim cfg.model [ [] ↦ str "claude-opus-5" | c ∷ s ↦ c ∷ s ];
  bars = if leb_ℤ cfg.bars (pos 0) then pos 40 else cfg.bars;
  baseline = cfg.baseline;
}

-- `LLM.Name`
unfoldable pub llm_name : {B : Type 0} → Llm B → Str
llm_name l = str "llm(" ++ (l.model_id ++ str ")")

-- What the model answers: a request that failed, a refusal, or the texts of its blocks.
pub data Answer : Type 0 where
  request_failed refusal : Answer
  texts : List Str → Answer

-- What an evaluation uses of other code, over a state of the world: the clock, the layouts of times
-- and counts as texts, the service, and the baseline's `Evaluate`, where `none` is an error.
pub record Services (F W : Type 0) : Type 0 where
  pub now : W → Time × W
  pub rfc3339 : Time → Str
  pub clock_time : Time → Str
  pub count : ℕ → Str
  pub send : Str → Str → W → Answer × W
  pub baseline : Market → W → Option (List (Signal F)) × W

abbrev newline : Str
newline = str "\n"

abbrev pub join_with : Str → List Str → Str
join_with sep [] = []
join_with sep (s ∷ []) = s
join_with sep (s ∷ t ∷ ts) = s ++ (sep ++ join_with sep (t ∷ ts))

abbrev pub concat_texts : List Str → Str
concat_texts [] = []
concat_texts (s ∷ ss) = s ++ concat_texts ss

unfoldable pub action_text : Action → Str
action_text hold = str "hold"
action_text buy = str "buy"
action_text sell = str "sell"

module _ {F W : Type 0} (sv : Services F W) where
  unfoldable pub bar_line : Candle → Str
  bar_line c =
      join_with (str ",") (
        sv.clock_time c.open_time
        ∷ to_string c.opening
        ∷ to_string c.high
        ∷ to_string c.low
        ∷ to_string c.closing
        ∷ to_string c.volume
        ∷ sv.count c.trades
        ∷ [])
      ++ newline

  unfoldable pub bar_lines : List Candle → Str
  unfolding bar_line
  bar_lines [] = []
  bar_lines (c ∷ cs) = bar_line c ++ bar_lines cs

  -- The part of one instrument.
  unfoldable pub section_of : Str → List Candle → Option Tick → Str
  unfolding bar_lines
  section_of id bars last = concat_texts (
      (str "## " ++ (id ++ newline))
      ∷ elim last [ none ↦ [] | some t ↦ str "Last trade: " ++ (to_string t.price ++ newline) ]
      ∷ (str "open_time,open,high,low,close,volume,trades" ++ newline)
      ∷ bar_lines bars
      ∷ newline
      ∷ [])

  -- The loop of `buildPrompt`: the instruments with five bars or more.
  unfoldable pub sections : Market → (Str → Option Tick) → ℤ → List Str → List Str
  unfolding section_of
  sections mk last n [] = []
  sections mk last n (id ∷ ids) =
      let bars = mk.candles id n in
      let rest = sections mk last n ids in
      if ltb (length bars) 5 then rest else section_of id bars (last id) ∷ rest

  unfoldable pub signal_lines : List (Signal F) → Str
  unfolding action_text
  signal_lines [] = []
  signal_lines (s ∷ ss) =
      concat_texts (
        s.instrument
        ∷ str ": "
        ∷ action_text s.action
        ∷ str " ("
        ∷ s.reason
        ∷ str ")"
        ∷ newline
        ∷ [])
      ++ signal_lines ss

  -- The reference opinion; an error or no signals leave it out.
  unfoldable pub reference : Option (List (Signal F)) → Str
  unfolding signal_lines
  reference none = []
  reference (some []) = []
  reference (some (s ∷ ss)) = concat_texts (
      (str "## Reference: mechanical baseline signals" ++ newline)
      ∷ signal_lines (s ∷ ss)
      ∷ newline
      ∷ str "You may agree or disagree with the baseline; say which and why."
      ∷ newline
      ∷ newline
      ∷ [])

  -- `buildPrompt`; `none` is the empty prompt.
  unfoldable pub build_prompt :
      {B : Type 0} → Llm B → Market → (Str → Option Tick) → W → Option Str × W
  unfolding sections reference
  build_prompt l mk last w =
      let (time, w1) = sv.now w in
      let parts = sections mk last l.bars mk.instruments in
      let asked : Option (List (Signal F)) × W = sv.baseline mk w1 in
      let (opinion, w2) : Str × W = elim l.baseline [
        | none ↦ ([], w1)
        | some _ ↦ (reference asked.0, asked.1)
      ] in
      elim parts [
        | [] ↦ (none, w1)
        | p ∷ ps ↦ (
          some (
              concat_texts (
                str "Current time (UTC): "
                ∷ sv.rfc3339 time
                ∷ newline
                ∷ newline
                ∷ concat_texts (p ∷ ps)
                ∷ opinion
                ∷ str "Respond with the JSON object described in your instructions."
                ∷ [])),
          w2,
        )
      ]

module _ (fl : Float64) {W : Type 0} (sv : Services fl.F W)
    (decode : Str → Option (List (Entry fl.F))) where
  -- The end of `Evaluate`, on the answer: `none` is an error, and the time that of the signals.
  unfoldable pub on_answer : Answer → Market → Time → Option (List (Signal fl.F))
  on_answer request_failed mk now = none
  on_answer refusal mk now = some []
  on_answer (texts blocks) mk now =
      some (signals_or_none fl decode (concat_texts blocks) mk.instruments now)

  -- `Evaluate`
  unfoldable pub evaluate :
      {B : Type 0} → Llm B → Market → (Str → Option Tick) → W → Option (List (Signal fl.F)) × W
  unfolding build_prompt on_answer
  evaluate l mk last w =
      let (prompt, w1) = build_prompt sv l mk last w in
      elim prompt [
        | none ↦ (some [], w1)
        | some text ↦
            let (answer, w2) = sv.send l.model_id text w1 in
            let (now, w3) = sv.now w2 in (on_answer answer mk now, w3)
      ]

  abbrev pub Trades : List Str → Option (List (Signal fl.F)) → Type 0
  Trades known none = Unit
  Trades known (some ss) = All (IsTrade fl known) ss

  on_answer-Trades :
      (a : Answer) (mk : Market) (now : Time) → Trades mk.instruments (on_answer a mk now)
  unfolding on_answer
  on_answer-Trades request_failed mk now = tt
  on_answer-Trades refusal mk now = tt
  on_answer-Trades (texts blocks) mk now =
      signals_or_none-IsTrade fl decode (concat_texts blocks) mk.instruments now

  evaluate-known :
      {B : Type 0} (l : Llm B) (mk : Market) (last : Str → Option Tick) (w : W)
      → Trades mk.instruments (evaluate l mk last w).0
  unfolding evaluate
  evaluate-known l mk last w =
      let (prompt, w1) = build_prompt sv l mk last w in
      elim prompt
        as (λ o.
          Trades mk.instruments
            (elim o as (λ _. Option (List (Signal fl.F)) × W) [
              | none ↦ (some [], w1)
              | some text ↦
                  let (answer, w2) = sv.send l.model_id text w1 in
                  let (now, w3) = sv.now w2 in (on_answer answer mk now, w3)
            ]).0) [
              | none ↦ tt
              | some text ↦
                  let (answer, w2) = sv.send l.model_id text w1 in
                  on_answer-Trades answer mk (sv.now w2).0
            ]

  sections_none :
      (mk : Market) (last : Str → Option Tick) (n : ℤ) (ids : List Str)
      → All (λ id. length (mk.candles id n) < 5) ids
      → sections sv mk last n ids ≡ []
  unfolding sections
  sections_none mk last n [] h = refl
  sections_none mk last n (id ∷ ids) h =
      rw (lt→ltb (length (mk.candles id n)) 5 (h.0)) (sections_none mk last n ids h.1)

  build_prompt_nothing :
      {B : Type 0} (l : Llm B) (mk : Market) (last : Str → Option Tick) (w : W)
      → All (λ id. length (mk.candles id l.bars) < 5) mk.instruments
      → build_prompt sv l mk last w ≡ (none, (sv.now w).1)
  unfolding build_prompt
  build_prompt_nothing l mk last w h =
      rw (sections_none mk last l.bars mk.instruments h, build_prompt) refl

  evaluate_nothing :
      {B : Type 0} (l : Llm B) (mk : Market) (last : Str → Option Tick) (w : W)
      → All (λ id. length (mk.candles id l.bars) < 5) mk.instruments
      → evaluate l mk last w ≡ (some [], (sv.now w).1)
  unfolding evaluate
  evaluate_nothing l mk last w h =
      ap
        (λ (r : Option Str × W). elim r.0 as (λ _. Option (List (Signal fl.F)) × W) [
          | none ↦ (some [], r.1)
          | some text ↦
              let (answer, w2) = sv.send l.model_id text r.1 in
              let (now, w3) = sv.now w2 in (on_answer answer mk now, w3)
        ])
        (build_prompt_nothing l mk last w h)

  -- Whatever the market, the model and the baseline say, each signal of an evaluation is a buy or
  -- a sell of an instrument that is followed, with a strength that was above zero and at most one,
  -- or is one; and where no instrument has five bars, there is no signal and nothing is sent.
  pub evaluate-Trades :
      {B : Type 0} (l : Llm B) (mk : Market) (last : Str → Option Tick) (w : W)
      → Trades mk.instruments (evaluate l mk last w).0
        × (All (λ id. length (mk.candles id l.bars) < 5) mk.instruments
            → evaluate l mk last w ≡ (some [], (sv.now w).1))
  evaluate-Trades l mk last w = (evaluate-known l mk last w, evaluate_nothing l mk last w)
