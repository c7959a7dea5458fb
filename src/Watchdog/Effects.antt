-- ===== src/Watchdog/Effects.antt =====
-- What each action of watchdog.py and runbooks.py may do to the machine: how often it starts a service,
-- and that the guard set `_in_progress` is as before, whether it returns or raises.
use kdb_distributed_controlp.Prelude.{
  ℕ, ◌+◌, ◌≤◌, ◌≡◌, refl, sym, subst, ◌∙◌, String, Bool, true, false, ◌++◌, Result, ok, err,
  replicate, replicate-add, arith, if◌then◌else◌,
}
use kdb_distributed_controlp.Watchdog.Machine.{Exn, Machine, M, pure, continue, ◌>>=◌}

module _ {W : Type 0} where
  -- From `m` to `m'` the service was started at most `n` times and no other was, and the guard set is
  -- the same.
  pub record Within (service : String) (n : ℕ) (m m' : Machine W) : Type 0 where
    pub in_progress : m'.in_progress ≡ m.in_progress
    pub times : ℕ
    pub at_most : times ≤ n
    pub starts : m'.starts ≡ replicate times service ++ m.starts

  -- What `act` does where the guard set satisfies `P`.
  pub record Acts {A : Type 0} (P : (String → Bool) → Type 0) (service : String) (n : ℕ)
      (act : M W A) : Type 0 where
    pub at : (m : Machine W) → P m.in_progress → Within service n m (act m).1

  Within-trans :
      (service : String) (n k : ℕ) (a b c : Machine W)
      → Within service n a b
      → Within service k b c
      → Within service (n + k) a c
  Within-trans service n k a b c f g = record {
    in_progress = g.in_progress ∙ f.in_progress;
    times = g.times + f.times;
    at_most = omega (arith, f.at_most, g.at_most);
    starts = rw (g.starts, f.starts) (replicate-add g.times f.times service a.starts);
  }

  pub Within-refl : (service : String) (n : ℕ) (m : Machine W) → Within service n m m
  Within-refl service n m = record {
    in_progress = refl;
    times = 0;
    at_most = omega arith;
    starts = refl;
  }

module _ {W : Type 0} (P : (String → Bool) → Type 0) where
  -- An action that touches only the world, the tracker or the reports.
  pub Acts-quiet :
      {A : Type 0} (service : String) (act : M W A)
      → ((m : Machine W) → ((act m).1.in_progress ≡ m.in_progress) × ((act m).1.starts ≡ m.starts))
      → Acts P service 0 act
  Acts-quiet service act same = record {
    at = λ m _. record {
      in_progress = (same m).0;
      times = 0;
      at_most = omega arith;
      starts = (same m).1;
    };
  }

  pub Acts-weaken :
      {A : Type 0} (service : String) (n k : ℕ) (act : M W A)
      → n ≤ k
      → Acts P service n act
      → Acts P service k act
  Acts-weaken service n k act le h = record {
    at = λ m idle. record {
      in_progress = (h.at m idle).in_progress;
      times = (h.at m idle).times;
      at_most = omega (arith, (h.at m idle).at_most);
      starts = (h.at m idle).starts;
    };
  }

  pub Acts-pure : {A : Type 0} (service : String) (a : A) → Acts {W = W} P service 0 (pure a)
  Acts-pure service a = Acts-quiet service (pure a) (λ m. (refl, refl))

  pub Acts-continue :
      {A B : Type 0} (service : String) (k : ℕ) (r : Result Exn A) (f : A → M W B)
      → ((a : A) → r ≡ ok a → Acts P service k (f a))
      → (m : Machine W) → P m.in_progress
      → Within service k m (continue r f m).1
  Acts-continue service k (ok a) f h m idle = (h a refl).at m idle
  Acts-continue service k (err e) f h m idle = Within-refl service k m

  -- The rest may use what is known of the result.
  pub Acts-bind_post :
      {A B : Type 0} (Post : A → Type 0) (service : String) (n k : ℕ) (act : M W A) (f : A → M W B)
      → Acts P service n act
      → ((m : Machine W) (a : A) → (act m).0 ≡ ok a → Post a)
      → ((a : A) → Post a → Acts P service k (f a))
      → Acts P service (n + k) (act >>= f)
  unfolding ◌>>=◌
  Acts-bind_post Post service n k act f h post hf = record {
    at = λ m idle.
        let (r, m') = act m in
        let first = h.at m idle in
        Within-trans service n k m m' (continue r f m').1 first (
          Acts-continue service k r f (λ a e. hf a (post m a e)) m'
            (subst P (sym first.in_progress) idle));
  }

  pub Acts-bind :
      {A B : Type 0} (service : String) (n k : ℕ) (act : M W A) (f : A → M W B)
      → Acts P service n act
      → ((a : A) → Acts P service k (f a))
      → Acts P service (n + k) (act >>= f)
  Acts-bind {A} service n k act f h hf =
      Acts-bind_post (λ _. Unit {0}) service n k act f h (λ m a e. tt) (λ a _. hf a)

  pub Acts-if :
      {A : Type 0} (service : String) (n : ℕ) (b : Bool) (x y : M W A)
      → Acts P service n x
      → Acts P service n y
      → Acts P service n (if b then x else y)
  Acts-if service n true x y hx hy = hx
  Acts-if service n false x y hx hy = hy

  -- The first action starts nothing.
  pub Acts-then :
      {A B : Type 0} (service : String) (k : ℕ) (act : M W A) (f : A → M W B)
      → Acts P service 0 act
      → ((a : A) → Acts P service k (f a))
      → Acts P service k (act >>= f)
  Acts-then service k act f h hf =
      Acts-weaken service (0 + k) k (act >>= f) (omega arith) (Acts-bind service 0 k act f h hf)

  pub Acts-then_post :
      {A B : Type 0} (Post : A → Type 0) (service : String) (k : ℕ) (act : M W A) (f : A → M W B)
      → Acts P service 0 act
      → ((m : Machine W) (a : A) → (act m).0 ≡ ok a → Post a)
      → ((a : A) → Post a → Acts P service k (f a))
      → Acts P service k (act >>= f)
  Acts-then_post Post service k act f h post hf =
      Acts-weaken service (0 + k) k (act >>= f) (omega arith)
        (Acts-bind_post Post service 0 k act f h post hf)
