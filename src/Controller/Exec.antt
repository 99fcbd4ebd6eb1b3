-- ===== src/Controller/Exec.antt =====
-- Methods of the controller: they act on the cluster, return an error or panic. What was written
-- before a failure stays written, so the state comes back beside it.
use resourcelimiter.Prelude.{String}

-- An error of the API, split by what `apierrors.IsNotFound` says of it.
pub data Error : Type 0 where
  not_found : Error
  failure : String → Error

pub data Fault : Type 0 where
  error : Error → Fault
  panicked : Fault

pub data Outcome (A : Type 0) : Type 0 where
  fail : Fault → Outcome A
  ok : A → Outcome A

abbrev pub Exec : Type 0 → Type 0 → Type 0
Exec S A = S → Outcome A × S

module _ {S A B : Type 0} where
  -- What follows a call: a panic goes on, the two others are taken up.
  abbrev pub resume : Outcome A × S → (A → Exec S B) → (Error → Exec S B) → Outcome B × S
  resume (ok a, s) f h = f a s
  resume (fail (error e), s) f h = h e s
  resume (fail panicked, s) f h = (fail panicked, s)

  -- `if err := m; err != nil { h(err) }`, then `f`
  unfoldable pub handle : Exec S A → (A → Exec S B) → (Error → Exec S B) → Exec S B
  handle m f h s = resume (m s) f h

module _ {S A : Type 0} where
  abbrev pub pure : A → Exec S A
  pure a s = (ok a, s)

  abbrev pub raise : Error → Exec S A
  raise e s = (fail (error e), s)

  abbrev pub panic : Exec S A
  panic s = (fail panicked, s)

  abbrev pub lift : Outcome A → Exec S A
  lift r s = (r, s)

infixl 5 ◌>>=◌ ◌>>◌
abbrev pub ◌>>=◌ : {S A B : Type 0} → Exec S A → (A → Exec S B) → Exec S B
m >>= f = handle m f raise

abbrev pub ◌>>◌ : {S A B : Type 0} → Exec S A → Exec S B → Exec S B
m >> k = m >>= λ _. k

-- What holds of a result and of the state after it.
module _ {S A : Type 0} where
  abbrev pub Post : (A → S → Type 0) → (Fault → S → Type 0) → Outcome A × S → Type 0
  Post Q E (ok a, s) = Q a s
  Post Q E (fail x, s) = E x s

  -- A weaker statement.
  pub Post-imp :
      (Q R : A → S → Type 0) (E F : Fault → S → Type 0) (x : Outcome A × S)
      → ((a : A) (t : S) → Q a t → R a t)
      → ((e : Fault) (t : S) → E e t → F e t)
      → Post Q E x
      → Post R F x
  Post-imp Q R E F (ok a, s) q e p = q a s p
  Post-imp Q R E F (fail x, s) q e p = e x s p

  -- Two statements of one run.
  pub Post-and :
      (Q R : A → S → Type 0) (E F : Fault → S → Type 0) (x : Outcome A × S)
      → Post Q E x
      → Post R F x
      → Post (λ a t. Q a t × R a t) (λ e t. E e t × F e t) x
  Post-and Q R E F (ok a, s) p q = (p, q)
  Post-and Q R E F (fail x, s) p q = (p, q)

module _ {S A B : Type 0} where
  Post-resume :
      (R : A → S → Type 0) (F : Fault → S → Type 0) (Q : B → S → Type 0) (E : Fault → S → Type 0)
      (x : Outcome A × S) (f : A → Exec S B) (h : Error → Exec S B)
      → Post R F x
      → ((a : A) (t : S) → R a t → Post Q E (f a t))
      → ((e : Error) (t : S) → F (error e) t → Post Q E (h e t))
      → ((t : S) → F panicked t → E panicked t)
      → Post Q E (resume x f h)
  Post-resume R F Q E (ok a, s) f h p onok onerr onpanic = onok a s p
  Post-resume R F Q E (fail (error e), s) f h p onok onerr onpanic = onerr e s p
  Post-resume R F Q E (fail panicked, s) f h p onok onerr onpanic = onpanic s p

  -- The rule for a call whose error is looked at.
  pub Post-handle :
      (R : A → S → Type 0) (F : Fault → S → Type 0) (Q : B → S → Type 0) (E : Fault → S → Type 0)
      (m : Exec S A) (f : A → Exec S B) (h : Error → Exec S B) (s : S)
      → Post R F (m s)
      → ((a : A) (t : S) → R a t → Post Q E (f a t))
      → ((e : Error) (t : S) → F (error e) t → Post Q E (h e t))
      → ((t : S) → F panicked t → E panicked t)
      → Post Q E (handle m f h s)
  unfolding handle
  Post-handle R F Q E m f h s = Post-resume R F Q E (m s) f h

  -- The rule for a call whose error is returned.
  pub Post-bind :
      (R : A → S → Type 0) (Q : B → S → Type 0) (E : Fault → S → Type 0) (m : Exec S A)
      (f : A → Exec S B) (s : S)
      → Post R E (m s)
      → ((a : A) (t : S) → R a t → Post Q E (f a t))
      → Post Q E ((m >>= f) s)
  Post-bind R Q E m f s p onok = Post-handle R E Q E m f raise s p onok (λ e t x. x) (λ t x. x)
