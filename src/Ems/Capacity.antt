-- ===== src/Ems/Capacity.antt =====
-- How long the EMS's table lasts: a new one has a slot for twice the orders that it was built for,
-- no slot is ever given back, and a lookup in a full table does not end.
use hft_learning.Prelude.{
  ℕ, ◌*◌, ◌%◌, ◌^◌, ◌<◌, ◌≡◌, refl, true, inl, Option, none, some, arith, ◌∙◌,
}
use mathlib.Core.Path.{subst}
use mathlib.Core.Option.{some-injective}
use hft_learning.Probe.{probe_never}
use hft_learning.Probe.Table.{stops_find, stops_find-used, home-lt}
use hft_learning.Probe.Vacancy.{vacancies-all, vacancies_zero}
use hft_learning.Ems.Lookup.{cells, room, Models, find-probe}
use hft_learning.Ems.{EmsOrder, ExecutionManagementSystem, zeroed, new, map_find_from}

abbrev pub empty_table : ℕ → ExecutionManagementSystem
empty_table max_orders = record {
  max_orders = max_orders;
  order_map = λ _. zeroed;
  map_capacity = max_orders * 2 % 2 ^ 64;
}

pub empty_table-Models :
    (max_orders : ℕ)
    → 0 < max_orders
    → max_orders * 2 < 2 ^ 64
    → Models (empty_table max_orders) (λ _. none) × (room (empty_table max_orders) ≡ max_orders * 2)
empty_table-Models max_orders pos small = (
  record {
    valid = record {
      sized = omega arith;
      table = record { once = λ k i j hi hj. cc (hi.1); reachable = λ k i d h lt. cc (h.1) };
      entries = λ slot lt. inl refl;
    };
    absent = λ id e i lt h. cc (h);
    present = λ id order e. cc (e);
  },
  vacancies-all (cells (empty_table max_orders)) (max_orders * 2 % 2 ^ 64) (λ i lt. refl)
      ∙ omega arith,
)

-- A new EMS holds no order, and has two slots for each order that it was built for.
pub new-Models :
    (max_orders : ℕ) {ems : ExecutionManagementSystem}
    → 0 < max_orders
    → max_orders * 2 < 2 ^ 64
    → new true max_orders ≡ some ems
    → Models ems (λ _. none) × (room ems ≡ max_orders * 2)
unfolding new
new-Models max_orders {ems} pos small e =
    subst (λ ems. Models ems (λ _. none) × (room ems ≡ max_orders * 2))
      (some-injective (empty_table max_orders) ems e) (empty_table-Models max_orders pos small)

-- In a table with no vacant slot the loop of `map_find` for an id that is not held runs for ever:
-- no number of rounds ends it.
pub lookup_never :
    {ems : ExecutionManagementSystem} {orders : ℕ → Option EmsOrder} (id fuel : ℕ)
    → Models ems orders
    → orders id ≡ none
    → room ems ≡ 0
    → map_find_from ems id fuel (id % ems.map_capacity) ≡ none
lookup_never {ems} id fuel m fresh full =
    find-probe ems id fuel (id % ems.map_capacity)
    ∙ rw (
        probe_never m.valid.sized (λ j. stops_find id (cells ems j))
          (λ slot lt.
            stops_find-used id (cells ems slot)
              (vacancies_zero (cells ems) ems.map_capacity full slot lt)
              (m.absent id fresh slot lt))
          fuel (id % ems.map_capacity) (home-lt m.valid.sized (cells ems) id))
