-- ===== src/Market/Once.antt =====
-- The market maker sends one order at most, whatever messages come.
use hft_learning.Prelude.{
  ℕ, ◌+◌, ◌%◌, ◌^◌, ◌<◌, ◌≡◌, ◌≢◌, ◌⊎◌, ◌++◌, take, inl, inr, refl, ap, ◌∙◌, Bool, true, false,
  Option, none, some, List, [], ◌∷◌, Bool-cases, if_true, if_false, if◌then◌else◌,
}
use hft_learning.Prelude.Loops.{◌>>=◌}
use hft_learning.Wire.{Buffer}
use hft_learning.Itch.{InternalMessage}
use hft_learning.Risk.{
  Doubles, RiskCheckStatus, approved, rejected_fat_finger, rejected_max_order_size,
  rejected_max_position, check_order,
}
use hft_learning.Ems.{EmsOrder}
use hft_learning.Ems.Lookup.{room, Models}
use hft_learning.Egress.Stream.{IsSocket}
use hft_learning.Ouch.Images.{enter_order_image}
use hft_learning.Strategy.{StrategyEngine, enter_order, send_order}
use hft_learning.Strategy.Sending.{send_order-Sent, send_order-refused}
use hft_learning.Market.{MarketMakerStrategy, is_wanted, on_market_data_update}

pub approved-cases : (status : RiskCheckStatus) → (status ≡ approved) ⊎ (status ≢ approved)
approved-cases approved = inl refl
approved-cases rejected_fat_finger = inr (λ e. cc)
approved-cases rejected_max_order_size = inr (λ e. cc)
approved-cases rejected_max_position = inr (λ e. cc)

module _ {doubles : Doubles} {S : Type 0} (send_bytes : S → List ℕ → Option ℕ × S)
    (scratch : Buffer) where
  -- The messages one after the other; `none` if a run does not return.
  unfoldable pub on_all :
      MarketMakerStrategy
      → List InternalMessage
      → StrategyEngine doubles S
      → Option (MarketMakerStrategy × StrategyEngine doubles S)
  on_all strategy [] engine = some (strategy, engine)
  on_all strategy (msg ∷ msgs) engine =
      on_market_data_update send_bytes scratch strategy msg engine >>= λ (strategy, engine).
      on_all strategy msgs engine

  module _ (strategy : MarketMakerStrategy) (msg : InternalMessage)
      (engine : StrategyEngine doubles S) where
    -- The three ways of a message.
    pub holding :
        strategy.position_taken ≡ true
        → on_market_data_update send_bytes scratch strategy msg engine ≡ some (strategy, engine)
    unfolding on_market_data_update
    holding taken = if_true strategy.position_taken _ _ taken

    pub ignoring :
        strategy.position_taken ≡ false
        → is_wanted strategy msg ≡ false
        → on_market_data_update send_bytes scratch strategy msg engine ≡ some (strategy, engine)
    unfolding on_market_data_update
    ignoring idle unwanted =
        if_false strategy.position_taken _ _ idle ∙ if_false (is_wanted strategy msg) _ _ unwanted

    pub selling :
        (success : Bool) (engine' : StrategyEngine doubles S)
        → strategy.position_taken ≡ false
        → is_wanted strategy msg ≡ true
        → let price = msg.price % 2 ^ 32 in
          send_order send_bytes engine scratch 83 strategy.order_qty price strategy.symbol price
            ≡ some (success, engine')
          → on_market_data_update send_bytes scratch strategy msg engine
            ≡ some
                ((if success then record strategy { position_taken = true } else strategy), engine')
    unfolding on_market_data_update
    selling success engine' idle wants e =
        if_false strategy.position_taken _ _ idle
        ∙ if_true (is_wanted strategy msg) _ _ wants
        ∙ ap
            (λ (run : Option (Bool × StrategyEngine doubles S)). run >>= λ reply.
              some (
                (if reply.0 then record strategy { position_taken = true } else strategy),
                reply.1,
              ))
            e

  -- With its position taken, nothing more is sent.
  pub on_all-taken :
      (strategy : MarketMakerStrategy) (msgs : List InternalMessage)
      (engine : StrategyEngine doubles S)
      → strategy.position_taken ≡ true
      → on_all strategy msgs engine ≡ some (strategy, engine)
  unfolding on_all
  on_all-taken strategy [] engine taken = refl
  on_all-taken strategy (msg ∷ msgs) engine taken =
      rw (holding strategy msg engine taken) (on_all-taken strategy msgs engine taken)

module _ {doubles : Doubles} {S : Type 0} (send_bytes : S → List ℕ → Option ℕ × S)
    (stream : S → List ℕ) (scratch : Buffer) (strategy : MarketMakerStrategy)
    (engine : StrategyEngine doubles S) where
  -- The run ends with no order sent, and nothing changed, or with one order sent, which has the next
  -- id, sells the strategy's quantity and leaves the position taken.
  pub record SellsOnce (msgs : List InternalMessage) : Type 0 where
    pub after : StrategyEngine doubles S
    pub taken : Bool
    pub returns :
        on_all send_bytes scratch strategy msgs engine
        ≡ some (record strategy { position_taken = taken }, after)
    pub none_sent : taken ≡ false → after ≡ engine
    pub one_sent :
        taken ≡ true
        → (price : ℕ) × (sent : ℕ) × (after.order_id_counter
            ≡ (engine.order_id_counter + 1) % 2 ^ 64)
          × (stream after.socket
              ≡ stream engine.socket
                ++ take sent (
                    enter_order_image (
                      enter_order engine.order_id_counter 83 strategy.order_qty price
                        strategy.symbol)))

  module _ (idle : strategy.position_taken ≡ false) where
    -- A message that sends nothing.
    passed :
        (msg : InternalMessage) (msgs : List InternalMessage)
        → on_market_data_update send_bytes scratch strategy msg engine ≡ some (strategy, engine)
        → SellsOnce msgs
        → SellsOnce (msg ∷ msgs)
    unfolding on_all
    passed msg msgs e rest = record {
      after = rest.after;
      taken = rest.taken;
      returns = rw e rest.returns;
      none_sent = rest.none_sent;
      one_sent = rest.one_sent;
    }

    module _ {orders : ℕ → Option EmsOrder} (lawful : IsSocket send_bytes stream)
        (m : Models engine.ems orders) (fresh : orders engine.order_id_counter ≡ none)
        (more : 0 < room engine.ems) where
      -- A message that the strategy wants.
      wanted :
          (msg : InternalMessage) (msgs : List InternalMessage)
          → is_wanted strategy msg ≡ true
          → SellsOnce msgs
          → SellsOnce (msg ∷ msgs)
      unfolding on_all
      wanted msg msgs yes_wanted rest =
          let price = msg.price % 2 ^ 32 in
          elim (approved-cases (check_order engine.risk_engine 83 strategy.order_qty price price)) [
            | inl ok ↦
                let s =
                  send_order-Sent send_bytes engine scratch 83 strategy.order_qty price
                    strategy.symbol price lawful m ok fresh more in
                record {
                  after = s.after;
                  taken = true;
                  returns =
                      rw
                        (selling send_bytes scratch strategy msg engine true s.after idle yes_wanted
                          s.returns)
                        (on_all-taken send_bytes scratch (record strategy { position_taken = true })
                          msgs s.after refl);
                  none_sent = λ e. cc;
                  one_sent = λ _. (price, s.sent, s.next_id, s.streamed);
                }
            | inr refused ↦
                passed msg msgs
                  (selling send_bytes scratch strategy msg engine false engine idle yes_wanted (
                    send_order-refused send_bytes engine scratch 83 strategy.order_qty price
                      strategy.symbol price refused))
                  rest
          ]

      -- Where the EMS stands for orders among which the next id is new and has a vacant slot and the
      -- socket's `::send` does what is documented, a strategy that has not taken its position gets
      -- through any messages, one after the other, with one order sent at most: with none, the engine
      -- is as before, and with one, the first bytes of an enter order under the next id that sells the
      -- strategy's quantity are on the stream, and the position is taken.
      pub on_all-SellsOnce : (msgs : List InternalMessage) → SellsOnce msgs
      unfolding on_all
      on_all-SellsOnce [] = record {
        after = engine;
        taken = false;
        returns = λ k. some (record strategy { position_taken = idle k }, engine);
        none_sent = λ _. refl;
        one_sent = λ e. cc;
      }
      on_all-SellsOnce (msg ∷ msgs) =
          let rest = on_all-SellsOnce msgs in
          elim (Bool-cases (is_wanted strategy msg)) [
            | inl yes_wanted ↦ wanted msg msgs yes_wanted rest
            | inr unwanted ↦
                passed msg msgs (ignoring send_bytes scratch strategy msg engine idle unwanted) rest
          ]
