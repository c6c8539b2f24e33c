-- ===== src/Handler/Sequence.antt =====
-- A relation of what stands before and after, along two handlers in order.
use electa.Base.{arith}
use electa.Handler.{App, Handler, ◌>>◌}

module _ {F : Type 0} (R : App F → App F → Type 0)
    (trans : (a b c : App F) → R a b → R b c → R a c) where
  pub then-keeps :
      {B : Type 0} (m : Handler F (Unit {0})) (k : Handler F B) (app : App F)
      → R app (m app).1
      → ((after : App F) → R after (k after).1)
      → R app ((m >> k) app).1
  then-keeps m k app g h =
      ground (arith, g, h (m app).1, trans app (m app).1 (k (m app).1).1 g (h (m app).1))
