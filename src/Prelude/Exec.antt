-- ===== src/Prelude/Exec.antt =====
-- Request handlers: a state (the database) and an HTTP or order error. What was written before a raise
-- stays written.
use mathlib.Core.Path.{◌≡◌, refl}
use mathlib.Core.Bool.{Bool, true, false}
use mathlib.Core.Option.{Option, none, some}
use kdb_distributed_controlp.Prelude.Results.{Result, ok, err}
use kdb_distributed_controlp.Prelude.Tests.{if◌then◌else◌}

abbrev pub Exec : Type 0 → Type 0 → Type 0 → Type 0
Exec E S A = S → Result E A × S

module _ {E S A : Type 0} where
  abbrev pub pure : A → Exec E S A
  pure a s = (ok a, s)

  abbrev pub raise : E → Exec E S A
  raise e s = (err e, s)

  abbrev pub gets : (S → A) → Exec E S A
  gets f s = (ok (f s), s)

  -- what never raises
  abbrev pub observe : (S → A × S) → Exec E S A
  observe g s = let (a, t) = g s in (ok a, t)

  -- `if x is None: raise e`
  abbrev pub or_raise : Option A → E → Exec E S A
  or_raise none e = raise e
  or_raise (some a) e = pure a

  abbrev pub lift : Result E A → Exec E S A
  lift r s = (r, s)

module _ {E S : Type 0} where
  abbrev pub modify : (S → S) → Exec E S (Unit {0})
  modify f s = (ok tt, f s)

  -- `if not b: raise e`
  abbrev pub require : Bool → E → Exec E S (Unit {0})
  require b e s = (if b then ok tt else err e, s)

module _ {E S A B : Type 0} where
  abbrev pub then_do : Result E A → (A → Exec E S B) → Exec E S B
  then_do (ok a) f s = f a s
  then_do (err e) f s = (err e, s)

  infixl 5 ◌>>=◌ ◌>>◌
  unfoldable pub ◌>>=◌ : Exec E S A → (A → Exec E S B) → Exec E S B
  ◌>>=◌ m f s = let (r, s') = m s in then_do r f s'

  unfoldable pub ◌>>◌ : Exec E S A → Exec E S B → Exec E S B
  unfolding ◌>>=◌
  m >> k = m >>= λ _. k

-- What an outcome satisfies, by the two ways a check can go.
module _ {E S : Type 0} where
  module _ {A B : Type 0} (P : Result E B × S → Type 0) where
    pub lift_rule :
        (r : Result E A) (f : A → Exec E S B) (s : S)
        → ((e : E) → P (err e, s))
        → ((a : A) → r ≡ ok a → P (f a s))
        → P ((lift r >>= f) s)
    unfolding ◌>>=◌
    lift_rule (ok a) f s failed passed = passed a refl
    lift_rule (err e) f s failed passed = failed e

    pub or_raise_rule :
        (o : Option A) (e : E) (f : A → Exec E S B) (s : S)
        → P (err e, s)
        → ((a : A) → o ≡ some a → P (f a s))
        → P ((or_raise o e >>= f) s)
    unfolding ◌>>=◌
    or_raise_rule none e f s failed passed = failed
    or_raise_rule (some a) e f s failed passed = passed a refl

    then_do_rule :
        (Q : S → Type 0) (r : Result E A) (f : A → Exec E S B) (t : S)
        → Q t
        → ((e : E) (t : S) → Q t → P (err e, t))
        → ((a : A) (t : S) → Q t → P (f a t))
        → P (then_do r f t)
    then_do_rule Q (ok a) f t here failed passed = passed a t here
    then_do_rule Q (err e) f t here failed passed = failed e t here

    -- what the first handler leaves is known by Q
    pub bind_rule :
        (Q : S → Type 0) (m : Exec E S A) (f : A → Exec E S B) (s : S)
        → Q (m s).1
        → ((e : E) (t : S) → Q t → P (err e, t))
        → ((a : A) (t : S) → Q t → P (f a t))
        → P ((m >>= f) s)
    unfolding ◌>>=◌
    bind_rule Q m f s here failed passed = then_do_rule Q (m s).0 f (m s).1 here failed passed

    pub gets_rule : (g : S → A) (f : A → Exec E S B) (s : S) → P (f (g s) s) → P ((gets g >>= f) s)
    unfolding ◌>>=◌
    gets_rule g f s rest = rest

    pub observe_rule :
        (g : S → A × S) (f : A → Exec E S B) (s : S)
        → P (f (g s).0 (g s).1)
        → P ((observe g >>= f) s)
    unfolding ◌>>=◌
    observe_rule g f s rest = rest

    after_rule :
        (r : Result E A) (k : Exec E S B) (t : S)
        → ((e : E) → r ≡ err e → P (err e, t))
        → ((a : A) → r ≡ ok a → P (k t))
        → P (then_do r (λ _. k) t)
    after_rule (ok a) k t failed passed = passed a refl
    after_rule (err e) k t failed passed = failed e refl

    pub then_rule :
        (m : Exec E S A) (k : Exec E S B) (s : S)
        → ((e : E) → (m s).0 ≡ err e → P (err e, (m s).1))
        → ((a : A) → (m s).0 ≡ ok a → P (k (m s).1))
        → P ((m >> k) s)
    unfolding ◌>>=◌ ◌>>◌
    then_rule m k s failed passed = after_rule (m s).0 k (m s).1 failed passed

  module _ {B : Type 0} (P : Result E B × S → Type 0) where
    pub modify_rule : (g : S → S) (k : Exec E S B) (s : S) → P (k (g s)) → P ((modify g >> k) s)
    unfolding ◌>>=◌ ◌>>◌
    modify_rule g k s rest = rest

    pub require_rule :
        (b : Bool) (e : E) (k : Exec E S B) (s : S)
        → P (err e, s)
        → (b ≡ true → P (k s))
        → P ((require b e >> k) s)
    unfolding ◌>>=◌ ◌>>◌
    require_rule true e k s failed passed = passed refl
    require_rule false e k s failed passed = failed

-- A handler that only makes steps of a relation on states: reflexive and transitive, and what the
-- handler's own writes satisfy.
pub record Stays {E S A : Type 0} (R : S → S → Type 0) (m : Exec E S A) : Type 0 where
  pub at : (s : S) → R s (m s).1

module _ {E S : Type 0} (R : S → S → Type 0) where
  module _ (stay : (s : S) → R s s) {A : Type 0} where
    pub Stays-or_raise : (o : Option A) (e : E) → Stays R (or_raise {E = E} {S = S} o e)
    Stays-or_raise none e = record { at = stay }
    Stays-or_raise (some a) e = record { at = stay }

  module _ (join : (s t u : S) → R s t → R t u → R s u) {A B : Type 0} where
    then_do-step :
        (f : A → Exec E S B) (s t : S) (r : Result E A)
        → R s t
        → ((a : A) → Stays R (f a))
        → R s (then_do r f t).1
    then_do-step f s t (ok a) h hf = join s t _ h ((hf a).at t)
    then_do-step f s t (err e) h hf = h

    pub Stays-bind :
        (m : Exec E S A) (f : A → Exec E S B)
        → Stays R m
        → ((a : A) → Stays R (f a))
        → Stays R (m >>= f)
    unfolding ◌>>=◌
    Stays-bind m f hm hf = record { at = λ s. then_do-step f s (m s).1 (m s).0 (hm.at s) hf }

    pub Stays-then : (m : Exec E S A) (k : Exec E S B) → Stays R m → Stays R k → Stays R (m >> k)
    unfolding ◌>>◌
    Stays-then m k hm hk = Stays-bind m (λ _. k) hm (λ _. hk)
