-- ===== src/World/Moves.antt =====
-- Facts about actions: how the world before an action relates to the world after it, whether the
-- action returns or raises. One rule for each way to build an action.
use agentic_code_intelligenc.Prelude.{Bool, true, false, Option, none, some, if◌then◌else◌}
use agentic_code_intelligenc.Common.{Error, Result, ok, err}
use agentic_code_intelligenc.World.{World, Act, pure, raise, lift, gets, continue, ◌>>=◌, maybe}

-- A relation between worlds that composes.
pub record Order (R : World → World → Type 0) : Type 0 where
  pub refl' : (w : World) → R w w
  pub trans : (u v w : World) → R u v → R v w → R u w

pub record Moves {A : Type 0} (R : World → World → Type 0) (m : Act A) : Type 0 where
  pub at : (w : World) → R w (m w).1

module _ {R : World → World → Type 0} (o : Order R) {A : Type 0} where
  pub Moves-pure : (a : A) → Moves R (pure a)
  unfolding pure
  Moves-pure a = record { at = o.refl' }

  pub Moves-raise : (e : Error) → Moves R (raise {A = A} e)
  unfolding raise
  Moves-raise e = record { at = o.refl' }

  pub Moves-lift : (r : Result A) → Moves R (lift r)
  unfolding lift
  Moves-lift r = record { at = o.refl' }

  pub Moves-gets : (f : World → A) → Moves R (gets f)
  unfolding gets
  Moves-gets f = record { at = o.refl' }

  Moves-continue :
      {B : Type 0} (r : Result B) (f : B → Act A)
      → ((b : B) → Moves R (f b))
      → (w : World) → R w (continue r f w).1
  Moves-continue (ok b) f kf w = (kf b).at w
  Moves-continue (err e) f kf w = o.refl' w

  pub Moves-bind :
      {B : Type 0} (m : Act B) (f : B → Act A)
      → Moves R m
      → ((b : B) → Moves R (f b))
      → Moves R (m >>= f)
  unfolding ◌>>=◌
  Moves-bind m f km kf = record {
    at = λ w. let (r, w') = m w in o.trans w w' _ (km.at w) (Moves-continue r f kf w');
  }

  pub Moves-if : (b : Bool) (m n : Act A) → Moves R m → Moves R n → Moves R (if b then m else n)
  Moves-if true m n km kn = km
  Moves-if false m n km kn = kn

  pub Moves-maybe :
      {B : Type 0} (x : Option B) (m : Act A) (f : B → Act A)
      → Moves R m
      → ((b : B) → Moves R (f b))
      → Moves R (maybe x m f)
  unfolding maybe
  Moves-maybe none m f km kf = km
  Moves-maybe (some b) m f km kf = kf b

pub ruleset moves_rules =
    (Moves-pure, Moves-raise, Moves-lift, Moves-gets, Moves-if, Moves-maybe, Moves-bind)

-- An action in two parts, which move the world in different ways; an exception in the first ends it.
module _ (R S T : World → World → Type 0) {A B : Type 0} where
  Moves-continue_then :
      (u v : World) (r : Result B) (f : B → Act A)
      → R u v
      → ((b : B) → Moves S (f b))
      → ((v w : World) → R u v → S v w → T u w)
      → ((v : World) → R u v → T u v)
      → T u (continue r f v).1
  Moves-continue_then u v (ok b) f ruv kf both stop = both v _ ruv ((kf b).at v)
  Moves-continue_then u v (err e) f ruv kf both stop = stop v ruv

  pub Moves-then :
      (m : Act B) (f : B → Act A)
      → Moves R m
      → ((b : B) → Moves S (f b))
      → ((u v w : World) → R u v → S v w → T u w)
      → ((u v : World) → R u v → T u v)
      → Moves T (m >>= f)
  unfolding ◌>>=◌
  Moves-then m f km kf both stop = record {
    at = λ u. let (r, v) = m u in Moves-continue_then u v r f (km.at u) kf (both u) (stop u);
  }
