-- ===== src/EventLoop/Fixture.antt =====
-- A small system for tests: it gives out descriptors upwards, and keeps which are open.
use hft_learning.Prelude.{
  ℕ, ◌+◌, ◌≡◌, refl, sym, ap, ◌∙◌, inl, inr, Bool, Bool-cases, if_true, if_false, true, false,
  Option, none, some, [], ◌∷◌, ltb, if◌then◌else◌,
}
use hft_learning.Prelude.Arrays.{update}
use hft_learning.Prelude.Int.{pos, negsuc}
use hft_learning.EventLoop.{in_progress, Network}
use hft_learning.EventLoop.Adds.{IsNetwork}

pub record Descriptors : Type 0 where
  pub next : ℕ
  pub opened : ℕ → Bool

abbrev next_socket : Descriptors → Option ℕ × Descriptors
next_socket s =
    if s.opened s.next
    then (none, s)
    else (some s.next, record { next = s.next + 1; opened = update s.opened s.next true })

-- Descriptors are given out upwards; there is no multicast, and the port 80 is in use.
abbrev pub small : Network Descriptors
small = record {
  epoll_create = λ s. (some 3, s);
  get_flags = λ s fd. (some 2, s);
  set_flags_non_blocking = λ s fd flags. s;
  epoll_add = λ s epoll fd. (true, s);
  socket = λ s type. next_socket s;
  reuse_address = λ s fd. (true, s);
  bind = λ s fd port. (ltb 80 port, s);
  add_membership = λ s fd ip. (false, s);
  listen = λ s fd. (true, s);
  parse_address = λ ip. some 0;
  connect = λ s fd address port. (in_progress, s);
  epoll_wait = λ s epoll most. (pos 1500 ∷ negsuc 0 ∷ pos 7 ∷ pos 9000 ∷ pos 1500 ∷ [], s);
  close = λ s fd. record s { opened = update s.opened fd false };
}

abbrev pub is_open : Descriptors → ℕ → Bool
is_open s = s.opened

some_inj : {a b : ℕ} → some a ≡ some b → a ≡ b
some_inj e = cc

some-ne-none : {a : ℕ} → none ≡ some a → ⊥
some-ne-none e = cc

opens_next :
    (s s' : Descriptors) (fd : ℕ)
    → next_socket s ≡ (some fd, s')
    → (s.opened fd ≡ false) × ((j : ℕ) → s'.opened j ≡ update s.opened fd true j)
opens_next s s' fd e = elim (Bool-cases (s.opened s.next)) [
  | inl used ↦
      let both : (none, s) ≡ (some fd, s') = sym (if_true (s.opened s.next) _ _ used) ∙ e in
      absurd (some-ne-none (ap (λ r. r.0) both))
  | inr free ↦
      let after : Descriptors = record {
        next = s.next + 1;
        opened = update s.opened s.next true;
      } in
      let both : (some s.next, after) ≡ (some fd, s') =
        sym (if_false (s.opened s.next) _ _ free) ∙ e in
      let same : s.next ≡ fd = some_inj (ap (λ r. r.0) both) in
      (
        ap s.opened (sym same) ∙ free,
        λ j. ap (λ r. r.1.opened j) (sym both) ∙ ap (λ n. update s.opened n true j) same,
      )
]

opens_nothing :
    (s s' : Descriptors) → next_socket s ≡ (none, s') → (j : ℕ) → s'.opened j ≡ s.opened j
opens_nothing s s' e j = elim (Bool-cases (s.opened s.next)) [
  | inl used ↦
      let both : (none, s) ≡ (none, s') = sym (if_true (s.opened s.next) _ _ used) ∙ e in
      ap (λ r. r.1.opened j) (sym both)
  | inr free ↦
      let after : Descriptors = record {
        next = s.next + 1;
        opened = update s.opened s.next true;
      } in
      let both : (some s.next, after) ≡ (none, s') =
        sym (if_false (s.opened s.next) _ _ free) ∙ e in
      absurd (some-ne-none (sym (ap (λ r. r.0) both)))
]

pub small-IsNetwork : IsNetwork small is_open
small-IsNetwork = record {
  opens = λ s s' type fd e. opens_next s s' fd e;
  opens_none = λ s s' type e j. opens_nothing s s' e j;
  closes = λ s fd j. refl;
  gets_flags = λ s fd j. refl;
  sets_flags = λ s fd flags j. refl;
  adds = λ s epoll fd j. refl;
  reuses = λ s fd j. refl;
  binds = λ s fd port j. refl;
  joins = λ s fd ip j. refl;
  listens = λ s fd j. refl;
  connects = λ s fd address port j. refl;
}
