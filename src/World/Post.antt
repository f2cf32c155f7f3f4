-- ===== src/World/Post.antt =====
-- Facts about what an action returns, where it returns: one rule for each way to build an action.
use agentic_code_intelligenc.Prelude.{Bool, true, false, ◌≡◌, refl, if◌then◌else◌}
use agentic_code_intelligenc.Common.{Result, ok, err}
use agentic_code_intelligenc.World.Moves.{Moves}
use agentic_code_intelligenc.World.{World, Act, gets, continue, ◌>>=◌}

-- The value and the world behind a call that returns; an exception promises nothing.
abbrev pub Post : {A : Type 0} → (A → World → Type 0) → Result A × World → Type 0
Post P (ok a, w) = P a w
Post P (err e, w) = Unit

module _ {A B : Type 0} (P : B → World → Type 0) where
  Post-continue :
      (r : Result A) (f : A → Act B) (w : World) (m : Result A × World)
      → m ≡ (r, w)
      → ((a : A) (w' : World) → m ≡ (ok a, w') → Post P (f a w'))
      → Post P (continue r f w)
  Post-continue (ok a) f w m e k = k a w e
  Post-continue (err x) f w m e k = tt

  -- The rest of a block may use what the first action returned, and where.
  pub Post-bind :
      (m : Act A) (f : A → Act B) (w : World)
      → ((a : A) (w' : World) → m w ≡ (ok a, w') → Post P (f a w'))
      → Post P ((m >>= f) w)
  unfolding ◌>>=◌
  Post-bind m f w k = let (r, w') = m w in Post-continue r f w' (m w) refl k

module _ {A : Type 0} (P : A → World → Type 0) where
  pub Post-gets-bind :
      {B : Type 0} (g : World → B) (f : B → Act A) (w : World)
      → Post P (f (g w) w)
      → Post P ((gets g >>= f) w)
  unfolding ◌>>=◌ gets
  Post-gets-bind g f w h = h

  pub Post-if :
      (b : Bool) (m n : Act A) (w : World)
      → (b ≡ true → Post P (m w))
      → (b ≡ false → Post P (n w))
      → Post P ((if b then m else n) w)
  Post-if true m n w km kn = km refl
  Post-if false m n w km kn = kn refl

  -- What a `Post` promises where the call returns.
  pub Post_at : {x : Result A × World} {a : A} {w : World} → Post P x → x ≡ (ok a, w) → P a w
  Post_at {x} {a} {w} h e = rw e at h

module _ {A B : Type 0} (R : World → World → Type 0) (P : B → World → Type 0) where
  -- The rest of a block may use how the first action moved the world.
  pub Post-Moves :
      (m : Act A) (f : A → Act B) (w : World)
      → Moves R m
      → ((a : A) (w' : World) → R w w' → Post P (f a w'))
      → Post P ((m >>= f) w)
  Post-Moves m f w km k = Post-bind P m f w (λ a w' e. k a w' (let r = km.at w in rw e at r))

module _ {A : Type 0} {R : World → World → Type 0} (P : A → World → Type 0) where
  -- What holds of a result wherever the action may have moved the world to.
  pub Post-all :
      {m : Act A}
      → Moves R m
      → (w : World) → ((a : A) (w' : World) → R w w' → P a w')
      → Post P (m w)
  Post-all {m} km w k = of_result (m w) (km.at w)
    where
      of_result : (x : Result A × World) → R w x.1 → Post P x
      of_result (ok a, w') r = k a w' r
      of_result (err e, w') r = tt
