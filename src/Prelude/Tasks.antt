-- ===== src/Prelude/Tasks.antt =====
-- Asynchronous methods: a task awaits calls of other components and ends with a result. What holds
-- of a task holds whatever the calls reply.
use mathlib.Core.Path.{◌≡◌, ap}
use mathlib.Core.List.{List, ◌∷◌}
use mcp_komodo_rs.Prelude.Results.{Result, ok, err}

pub data Task (C : Type 0) (R : C → Type 0) (E : Type 0) (A : Type 0) : Type 0 where
  done : Result E A → Task C R E A
  call : (c : C) → (R c → Task C R E A) → Task C R E A

-- The calls made and their replies, the last one first.
abbrev pub History : (C : Type 0) → (C → Type 0) → Type 0
History C R = List ((c : C) × R c)

module _ {C : Type 0} {R : C → Type 0} where
  infixl 5 ◌>>=◌ ◌>>◌
  abbrev pub ◌>>=◌ : {E A B : Type 0} → Task C R E A → (A → Task C R E B) → Task C R E B
  done (ok a) >>= f = f a
  done (err e) >>= f = done (err e)
  call c k >>= f = call c λ r. k r >>= f

  abbrev pub ◌>>◌ : {E B : Type 0} → Task C R E (Unit {0}) → Task C R E B → Task C R E B
  m >> k = m >>= λ _. k

  -- A call's reply, `c.await`.
  abbrev pub await : {E : Type 0} (c : C) → Task C R E (R c)
  await c = call c λ r. done (ok r)

  -- `result.map_err(|error| …)?`, where the mapping may make calls of its own.
  abbrev pub or_else : {D E A : Type 0} → Result D A → (D → Task C R E E) → Task C R E A
  or_else (ok a) report = done (ok a)
  or_else (err d) report = report d >>= λ e. done (err e)

  -- `match task.await { … }`
  abbrev pub attempt :
      {D E A B : Type 0} → Task C R D A → (Result D A → Task C R E B) → Task C R E B
  attempt (done r) f = f r
  attempt (call c k) f = call c λ r. attempt (k r) f

  -- The predicate holds of every way in which the task can end.
  abbrev pub Always :
      {E A : Type 0} → (History C R → Result E A → Type 0) → History C R → Task C R E A → Type 0
  Always P h (done r) = P h r
  Always P h (call c k) = (r : R c) → Always P ((c, r) ∷ h) (k r)

  abbrev pub After :
      {E A B : Type 0}
      → (History C R → Result E B → Type 0)
      → (A → Task C R E B)
      → History C R
      → Result E A
      → Type 0
  After P f h (ok a) = Always P h (f a)
  After P f h (err e) = P h (err e)

  pub Always-bind :
      {E A B : Type 0} (P : History C R → Result E B → Type 0) (f : A → Task C R E B)
      (h : History C R) (m : Task C R E A)
      → Always (After P f) h m
      → Always P h (m >>= f)
  Always-bind P f h (done (ok a)) holds = holds
  Always-bind P f h (done (err e)) holds = holds
  Always-bind P f h (call c k) holds = λ r. Always-bind P f ((c, r) ∷ h) (k r) (holds r)

  -- The rule of `attempt`.
  pub Always-attempt :
      {D E A B : Type 0} (P : History C R → Result E B → Type 0) (f : Result D A → Task C R E B)
      (h : History C R) (m : Task C R D A)
      → Always (λ h r. Always P h (f r)) h m
      → Always P h (attempt m f)
  Always-attempt P f h (done r) holds = holds
  Always-attempt P f h (call c k) holds = λ r. Always-attempt P f ((c, r) ∷ h) (k r) (holds r)

  pub Always-map :
      {E A : Type 0} {P Q : History C R → Result E A → Type 0}
      → ((h : History C R) (r : Result E A) → P h r → Q h r)
      → (h : History C R) (m : Task C R E A) → Always P h m
      → Always Q h m
  Always-map f h (done r) holds = f h r holds
  Always-map f h (call c k) holds = λ r. Always-map f ((c, r) ∷ h) (k r) (holds r)

  -- The result, where each call replies as `replies` says.
  abbrev pub result : {E A : Type 0} → ((c : C) → R c) → Task C R E A → Result E A
  result replies (done r) = r
  result replies (call c k) = result replies (k (replies c))

  pub result-bind :
      {E A B : Type 0} (replies : (c : C) → R c) (f : A → Task C R E B) (a : A) (m : Task C R E A)
      → result replies m ≡ ok a
      → result replies (m >>= f) ≡ result replies (f a)
  result-bind replies f a (done (ok b)) h = ap (λ r. result replies (done r >>= f)) h
  result-bind replies f a (done (err e)) h = cc h
  result-bind replies f a (call c k) h = result-bind replies f a (k (replies c)) h
