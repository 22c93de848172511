-- ===== src/Connection/Events.antt =====
-- Sets of epoll events, which the source keeps as the bits of a number: one Boolean for each flag that it
-- uses. The numbers of the flags are the platform's.
use local_cache_service.Base.{◌≡◌, refl, Bool, true, false, not, ◌&&◌}

pub record EventSet : Type 0 where
  pub input : Bool
  pub output : Bool
  pub peer_closed : Bool
  pub error : Bool
  pub hang_up : Bool

abbrev pub no_events : EventSet
no_events = record {
  input = false;
  output = false;
  peer_closed = false;
  error = false;
  hang_up = false;
}

abbrev same_bit : Bool → Bool → Bool
same_bit true b = b
same_bit false b = not b

-- a == b
abbrev pub same_events : EventSet → EventSet → Bool
same_events a b =
    same_bit a.input b.input
    && same_bit a.output b.output
    && same_bit a.peer_closed b.peer_closed
    && same_bit a.error b.error
    && same_bit a.hang_up b.hang_up

same_bit-true : (a b : Bool) → same_bit a b ≡ true → b ≡ a
same_bit-true true b e = e
same_bit-true false true e = absurd cc
same_bit-true false false e = refl

both_true : (a b : Bool) → a && b ≡ true → (a ≡ true) × (b ≡ true)
both_true true b e = (refl, e)
both_true false b e = absurd cc

pub same_events-true : (a b : EventSet) → same_events a b ≡ true → b ≡ a
same_events-true a b e =
    let (r₄, e₅) = both_true _ _ e in
    let (r₃, e₄) = both_true _ _ r₄ in
    let (r₂, e₃) = both_true _ _ r₃ in
    let (e₁, e₂) = both_true _ _ r₂ in
    λ i. record {
      input = same_bit-true a.input b.input e₁ i;
      output = same_bit-true a.output b.output e₂ i;
      peer_closed = same_bit-true a.peer_closed b.peer_closed e₃ i;
      error = same_bit-true a.error b.error e₄ i;
      hang_up = same_bit-true a.hang_up b.hang_up e₅ i;
    }
