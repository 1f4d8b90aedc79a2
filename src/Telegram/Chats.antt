-- ===== src/Telegram/Chats.antt =====
-- The chats of internal/telegram/bot.go.
use real_time_market_data_pi.Base.{
  ◌≡◌, refl, sym, ap, ◌∙◌, inl, inr, if◌then◌else◌, Option, Bool, true, false, Bool-cases, none,
  some, List, [], ◌∷◌,
}
use real_time_market_data_pi.Base.Int.{ℤ, pos, ◌+ℤ◌, eqb_ℤ}
use real_time_market_data_pi.Base.Text.{trim_space}
use real_time_market_data_pi.Equity.{Trader}
use real_time_market_data_pi.Float.{Float64}
use real_time_market_data_pi.Store.{is_blank}
use real_time_market_data_pi.Store.Order.{keep}
use real_time_market_data_pi.Telegram.Parser.{Matchers}
use real_time_market_data_pi.Telegram.Bot.{BotConfig, Message, Update, Client, handle, handle_all}

-- Whether an update is a message from the allowed chat.
abbrev pub is_own : {F : Type 0} → BotConfig F → Update → Bool
is_own cfg u = elim u.message [ none ↦ false | some msg ↦ eqb_ℤ msg.chat_id cfg.allowed_chat_id ]

module _ (fl : Float64) {W : Type 0} (tr : Trader fl.F W) (re : Matchers fl.F) (tg : Client fl.F W)
    (cfg : BotConfig fl.F) where
  -- Another chat's message is left alone.
  handle_other :
      (msg : Message) (w : W)
      → eqb_ℤ msg.chat_id cfg.allowed_chat_id ≡ false
      → handle fl tr re tg cfg msg w ≡ w
  unfolding handle
  handle_other msg w other = rw (handle, other) refl

  -- What an update does.
  abbrev effect : Update → W → W
  effect u w = elim u.message [
    | none ↦ w
    | some msg ↦ if is_blank (trim_space msg.text) then w else handle fl tr re tg cfg msg w
  ]

  handle_all-step :
      (u : Update) (us : List Update) (n : ℤ) (w : W)
      → handle_all fl tr re tg cfg (u ∷ us) n w
        ≡ handle_all fl tr re tg cfg us (u.update_id +ℤ pos 1) (effect u w)
  unfolding handle_all
  handle_all-step u us n w = go u.message
    where
      go :
          (o : Option Message)
          → elim o [
            | none ↦ handle_all fl tr re tg cfg us (u.update_id +ℤ pos 1) w
            | some msg ↦
                handle_all fl tr re tg cfg us
                  (u.update_id +ℤ pos 1)
                  (if is_blank (trim_space msg.text) then w else handle fl tr re tg cfg msg w)
          ]
            ≡ handle_all fl tr re tg cfg us (u.update_id +ℤ pos 1) (elim o [
              | none ↦ w
              | some msg ↦
                  if is_blank (trim_space msg.text) then w else handle fl tr re tg cfg msg w
            ])
      go none = refl
      go (some msg) = refl

  effect-other : (u : Update) (w : W) → is_own cfg u ≡ false → effect u w ≡ w
  effect-other u w h = go u.message h
    where
      go :
          (o : Option Message)
          → elim o as (λ p. Bool) [
            | none ↦ false
            | some msg ↦ eqb_ℤ msg.chat_id cfg.allowed_chat_id
          ]
            ≡ false
          → elim o as (λ p. W) [
            | none ↦ w
            | some msg ↦ if is_blank (trim_space msg.text) then w else handle fl tr re tg cfg msg w
          ]
            ≡ w
      go none q = refl
      go (some msg) q = elim (Bool-cases (is_blank (trim_space msg.text))) [
        | inl b ↦ rw b refl
        | inr b ↦ rw b (handle_other msg w q)
      ]

  -- Messages from other chats have no effect, not even a reply: from any two offsets, the world
  -- after some updates is the one after those from the allowed chat alone.
  pub handle_all-own :
      (us : List Update) (m n : ℤ) (w : W)
      → (handle_all fl tr re tg cfg us m w).1
        ≡ (handle_all fl tr re tg cfg (keep (is_own cfg) us) n w).1
  unfolding handle_all
  handle_all-own [] m n w = refl
  handle_all-own (u ∷ us) m n w =
      let kept = keep (is_own cfg) us in
      let next : ℤ = u.update_id +ℤ pos 1 in
      let chosen : (b : Bool)
          → is_own cfg u ≡ b
          → (handle_all fl tr re tg cfg (if b then u ∷ kept else kept) n w).1
            ≡ (handle_all fl tr re tg cfg (keep (is_own cfg) (u ∷ us)) n w).1 =
        λ b q.
          ap (λ c. (handle_all fl tr re tg cfg (if c then u ∷ kept else kept) n w).1) (sym q) in
      ap (λ (p : ℤ × W). p.1) (handle_all-step u us m w) ∙ elim (Bool-cases (is_own cfg u)) [
        | inl own ↦
            handle_all-own us next next (effect u w)
            ∙ ap (λ (p : ℤ × W). p.1) (sym (handle_all-step u kept n w))
            ∙ chosen true own
        | inr other ↦
            ap (λ v. (handle_all fl tr re tg cfg us next v).1) (effect-other u w other)
            ∙ handle_all-own us next n w
            ∙ chosen false other
      ]
