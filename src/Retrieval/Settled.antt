-- ===== src/Retrieval/Settled.antt =====
-- Actions of retrieval/service.py that are paid in full or leave no trace, and how they compose.
use agentic_code_intelligenc.Prelude.{
  ℕ, ◌+◌, Bool, true, false, Text, if◌then◌else◌, ◌≡◌, refl, arith, ◌≤◌, ◌⊎◌, inl, inr,
}
use agentic_code_intelligenc.Common.{Error, Result, ok, err}
use agentic_code_intelligenc.Db.Ledger.{spent_tokens, reserved_tokens}
use agentic_code_intelligenc.Db.Ledger.Charge.{Fits}
use agentic_code_intelligenc.World.{World, Act, pure, raise, continue, ◌>>=◌}
use agentic_code_intelligenc.World.Moves.{Order, Moves}
use agentic_code_intelligenc.Retrieval.{token_cost}

-- The world is as it was.
abbrev pub IsUnchanged : World → World → Type 0
IsUnchanged w w' = w' ≡ w

pub reading_order : Order IsUnchanged
reading_order = record { refl' = λ w. refl; trans = λ u v w p q. cc }

pub token_cost_positive : (text : Text) → 1 ≤ token_cost text
unfolding token_cost
token_cost_positive text = omega arith

module _ (scope : Text) (budget_tokens : ℕ) where
  -- The price `n`, at least one token, fitted into what was left of the budget and was charged.
  pub record Paid (n : ℕ) (w w' : World) : Type 0 where
    pub positive : 1 ≤ n
    pub fits : Fits scope n budget_tokens w.db
    pub spent : spent_tokens scope w'.db ≡ spent_tokens scope w.db + n
    pub reserved : reserved_tokens scope w'.db ≡ reserved_tokens scope w.db
    pub files : w'.fs ≡ w.fs

  -- An action that returns only what it has charged, and that changes nothing where it raises.
  abbrev pub IsSettled : {A : Type 0} → (A → ℕ) → World → Result A × World → Type 0
  IsSettled {A = A} price w (r, w') =
      ((a : A) × (r ≡ ok a) × Paid (price a) w w') ⊎ ((e : Error) × (r ≡ err e) × (w' ≡ w))

  pub record IsMetered {A : Type 0} (price : A → ℕ) (m : Act A) : Type 0 where
    pub at : (w : World) → IsSettled price w (m w)

  module _ {A : Type 0} (price : A → ℕ) where
    pub IsMetered-raise : (e : Error) → IsMetered price (raise e)
    unfolding raise
    IsMetered-raise e = record { at = λ w. inr (e, refl, refl) }

    pub IsMetered-if :
        (b : Bool) (m n : Act A)
        → IsMetered price m
        → IsMetered price n
        → IsMetered price (if b then m else n)
    IsMetered-if true m n hm hn = hm
    IsMetered-if false m n hm hn = hn

    after_read :
        {B : Type 0} (w w' : World) (r : Result B) (f : B → Act A)
        → w' ≡ w
        → ((b : B) → IsMetered price (f b))
        → IsSettled price w (continue r f w')
    after_read w w' (ok b) f same hf = rw same ((hf b).at w)
    after_read w w' (err e) f same hf = inr (e, refl, same)

    -- a reading before it
    pub IsMetered-read :
        {B : Type 0} (m : Act B) (f : B → Act A)
        → Moves IsUnchanged m
        → ((b : B) → IsMetered price (f b))
        → IsMetered price (m >>= f)
    unfolding ◌>>=◌
    IsMetered-read m f hm hf = record {
      at = λ w. let (r, w') = m w in after_read w w' r f (hm.at w) hf;
    }

    then_pure :
        {B : Type 0} (price' : B → ℕ) (g : B → A) (w w' : World) (r : Result B)
        → ((b : B) → price (g b) ≡ price' b)
        → IsSettled price' w (r, w')
        → IsSettled price w (continue r (λ b. pure (g b)) w')
    unfolding pure
    then_pure price' g w w' r same (inl (b, e, paid)) = rw e (inl (g b, refl, rw (same b) paid))
    then_pure price' g w w' r same (inr (e, raised, before)) = rw raised (inr (e, refl, before))

    -- a return of the same price after it
    pub IsMetered-pure :
        {B : Type 0} (price' : B → ℕ) (m : Act B) (g : B → A)
        → ((b : B) → price (g b) ≡ price' b)
        → IsMetered price' m
        → IsMetered price (m >>= λ b. pure (g b))
    unfolding ◌>>=◌
    IsMetered-pure price' m g same hm = record {
      at = λ w. let (r, w') = m w in then_pure price' g w w' r same (hm.at w);
    }
