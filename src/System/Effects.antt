-- ===== src/System/Effects.antt =====
-- Effects on the store that are histories of method calls.

use rescue.Store.Action.{err, ok}
use rescue.Api.Guards.{of_result}
use rescue.Contracts.Errors.{AppError}
use rescue.Prelude.{List, [], ap, refl, sym, ◌++◌, ◌∙◌, ◌∷◌, ◌≡◌}
use rescue.Store.Action.{Action, Result, pure, raise, ◌>>=◌}
use rescue.Store.Calls.{Call, perform, run}
use rescue.Store.Types.{MemoryStore}

-- A state that a history of method calls leads to.
abbrev pub IsRun : MemoryStore → MemoryStore → Type 0
IsRun s t = (calls : List Call) × (t ≡ run calls s)

pub stays : (s : MemoryStore) → IsRun s s
unfolding run
stays s = ([], refl)

pub one_call : (c : Call) (s : MemoryStore) → IsRun s (perform c s)
unfolding run
one_call c s = (c ∷ [], refl)

run-append : (xs ys : List Call) (s : MemoryStore) → run (xs ++ ys) s ≡ run ys (run xs s)
unfolding run
run-append [] ys s = refl
run-append (c ∷ xs) ys s = run-append xs ys (perform c s)

pub and_then : (s u t : MemoryStore) → IsRun s u → IsRun u t → IsRun s t
and_then s u t (xs, e) (ys, f) = (xs ++ ys, f ∙ ap (run ys) e ∙ sym (run-append xs ys s))

-- An action whose effect is such a history, whether it returns or throws.
pub record Runs {A : Type 0} (m : Action A) : Type 0 where
  pub effect : (s : MemoryStore) → IsRun s (m s).1

IsRun-bind :
    {A B : Type 0} (r : Result A) (f : A → Action B) (s u : MemoryStore)
    → IsRun s u
    → ((a : A) → IsRun u (f a u).1)
    → IsRun s (elim r as (λ _. Result B × MemoryStore) [ ok a ↦ f a u | err e ↦ raise e u ]).1
IsRun-bind (ok a) f s u h k = and_then s u (f a u).1 h (k a)
IsRun-bind (err x) f s u h k = h

pub Runs-bind :
    {A B : Type 0} {m : Action A} {f : A → Action B}
    → Runs m
    → ((a : A) → Runs (f a))
    → Runs (m >>= f)
Runs-bind {m = m} {f = f} h k = record {
  effect = λ s. IsRun-bind (m s).0 f s (m s).1 (h.effect s) (λ a. (k a).effect (m s).1);
}

pub Runs-of_result : {A : Type 0} {r : Result A} → Runs (of_result r)
Runs-of_result = record { effect = λ s. stays s }

pub Runs-pure : {A : Type 0} {a : A} → Runs (pure a)
Runs-pure = record { effect = λ s. stays s }

pub Runs-raise : {A : Type 0} {e : AppError} → Runs (raise {A = A} e)
Runs-raise = record { effect = λ s. stays s }

-- An action that changes nothing.
pub Runs-silent : {A : Type 0} {m : Action A} → ((s : MemoryStore) → (m s).1 ≡ s) → Runs m
unfolding run
Runs-silent same = record { effect = λ s. ([], same s) }

-- An action that is one call of a method.
pub Runs-call :
    {A : Type 0} {m : Action A} (c : Call) → ((s : MemoryStore) → (m s).1 ≡ perform c s) → Runs m
unfolding run
Runs-call c same = record { effect = λ s. (c ∷ [], same s) }
