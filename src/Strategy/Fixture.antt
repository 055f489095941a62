-- ===== src/Strategy/Fixture.antt =====
-- An engine for tests: an empty EMS, the limits of src/Main.cpp with numbers in hundredths for
-- `double`, and a socket that takes all it is given.
use mathlib.Core.Path.{subst₂}
use mathlib.Core.Option.{some-injective}
use hft_learning.Prelude.{
  ℕ, ◌*◌, ◌/◌, ◌%◌, ◌^◌, ◌<◌, ◌≤◌, ◌≡◌, refl, sym, ap, Option, none, some, List, [], ◌∷◌, ◌++◌,
  arith, ltb, take, length,
}
use hft_learning.Prelude.Int.{ℤ, pos, ◌-ℤ◌, abs}
use hft_learning.Wire.{Buffer}
use hft_learning.Ems.{ExecutionManagementSystem, zeroed, new}
use hft_learning.Ems.Lookup.{room, Models}
use hft_learning.Ems.Capacity.{new-Models}
use hft_learning.Risk.{Doubles, approved, check_order, wrap64}
use hft_learning.Risk.Check.{size}
use hft_learning.Egress.Stream.{IsSocket, take_all}
use hft_learning.Strategy.{StrategyEngine}

abbrev pub hundredths : Doubles
hundredths = record {
  Double = ℤ;
  of_uint32 = λ n. pos (n * 100);
  minus = λ a b. a -ℤ b;
  divide = λ a b. pos (size a * 100 / size b);
  absolute = λ a. pos (size a);
  greater = λ a b. ltb (size b) (size a);
}

abbrev pub wide : List ℕ → List ℕ → Option ℕ × List ℕ
wide stream bytes = (some (length bytes), stream ++ bytes)

abbrev Took : List ℕ → List ℕ → ℕ → List ℕ → Type 0
Took s bytes n s' = (n ≤ length bytes) × (0 < length bytes → 0 < n) × (s' ≡ s ++ take n bytes)

pub wide-IsSocket : IsSocket wide (λ s. s)
wide-IsSocket = record {
  took = λ s s' bytes n e.
      subst₂ (λ n s'. Took s bytes n s')
        (some-injective (length bytes) n (ap (λ (r : Option ℕ × List ℕ). r.0) e))
        (ap (λ (r : Option ℕ × List ℕ). r.1) e)
        (
          omega arith,
          λ lt. lt,
          ap (λ b. s ++ b) (sym (take_all (length bytes) bytes (omega arith))),
        );
  failed = λ s s' bytes e. cc (ap (λ (r : Option ℕ × List ℕ). r.0) e);
}

abbrev pub ems : ExecutionManagementSystem
ems = record { max_orders = 10; order_map = λ _. zeroed; map_capacity = 10 * 2 % 2 ^ 64 }

pub ems-Models : Models ems (λ _. none) × (room ems ≡ 20)
unfolding new
ems-Models = new-Models 10 (omega arith) (omega arith) refl

abbrev pub engine : StrategyEngine hundredths (List ℕ)
engine = record {
  ems = ems;
  risk_engine = record {
    config = record {
      max_order_size = 500;
      max_position = pos 10000;
      max_price_deviation_pct = pos 5;
    };
    current_position = pos 0;
  };
  tcp_egress = record { fd = pos 7 };
  socket = [];
  order_id_counter = 1000;
}

abbrev pub scratch : Buffer
scratch i = 0

-- "AAPL"
abbrev pub apple : List ℕ
apple = 65 ∷ 65 ∷ 80 ∷ 76 ∷ []

pub engine-approved : check_order engine.risk_engine 83 100 15000 15000 ≡ approved
unfolding check_order wrap64 ◌-ℤ◌ abs
engine-approved = refl
