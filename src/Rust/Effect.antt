-- ===== src/Rust/Effect.antt =====
-- Results with panics, and code that changes a state: `?` is `>>=` on an `err`, and `unwrap` or
-- `expect` on a failure is a `panic`, which ends the task with the state as it is.
use play_cpp_sdk.Prelude.{◌≡◌, refl, Option, none, some, arith, ◌⊎◌, inl, inr}

pub data Result (E A : Type 0) : Type 0 where
  ok : A → Result E A
  err : E → Result E A
  panic : Result E A

abbrev pub M : Type 0 → Type 0 → Type 0 → Type 0
M S E A = S → S × Result E A

abbrev pub continue : {S E A B : Type 0} → S × Result E A → (A → M S E B) → S × Result E B
continue (s, ok a) f = f a s
continue (s, err e) f = (s, err e)
continue (s, panic) f = (s, panic)

infixl 5 ◌>>=◌ ◌>>◌
abbrev pub ◌>>=◌ : {S E A B : Type 0} → M S E A → (A → M S E B) → M S E B
◌>>=◌ m f s = continue (m s) f

abbrev pub ◌>>◌ : {S E B : Type 0} → M S E (Unit {0}) → M S E B → M S E B
m >> k = m >>= λ _. k

abbrev pub pure : {S E A : Type 0} → A → M S E A
pure a s = (s, ok a)

abbrev pub fail : {S E A : Type 0} → E → M S E A
fail e s = (s, err e)

abbrev pub panics : {S E A : Type 0} → M S E A
panics s = (s, panic)

abbrev pub get : {S E : Type 0} → M S E S
get s = (s, ok s)

abbrev pub modify : {S E : Type 0} → (S → S) → M S E (Unit {0})
modify f s = (f s, ok tt)

-- `ok_or(e)?`.
abbrev pub or_fail : {S E A : Type 0} → Option A → E → M S E A
or_fail none e = fail e
or_fail (some a) e = pure a

-- `unwrap()` or `expect(_)`.
abbrev pub or_panic : {S E A : Type 0} → Option A → M S E A
or_panic none = panics
or_panic (some a) = pure a

-- What a `pure` behind an action does to the state: nothing.
continue-pure :
    {S E A B : Type 0} (r : S × Result E A) (f : A → B) → (continue r (λ a. pure (f a))).0 ≡ r.0
continue-pure (s, ok a) f = refl
continue-pure (s, err e) f = refl
continue-pure (s, panic) f = refl

pub then-pure :
    {S E A B : Type 0} (m : M S E A) (f : A → B) (s : S) → ((m >>= λ a. pure (f a)) s).0 ≡ (m s).0
then-pure m f s = continue-pure (m s) f

-- A chain succeeds only if its first part does.
pub continue-eq-ok :
    {S E A B : Type 0} (r : S × Result E A) (f : A → M S E B) {s' : S} {b : B}
    → continue r f ≡ (s', ok b)
    → (s : S) × (a : A) × (r ≡ (s, ok a)) × (f a s ≡ (s', ok b))
continue-eq-ok (s, ok a) f h = (s, a, refl, h)
continue-eq-ok (s, err e) f h = absurd (ground arith)
continue-eq-ok (s, panic) f h = absurd (ground arith)

-- A chain fails in its first part or behind it.
pub continue-eq-err :
    {S E A B : Type 0} (r : S × Result E A) (f : A → M S E B) {s' : S} {e : E}
    → continue r f ≡ (s', err e)
    → (r ≡ (s', err e)) ⊎ ((s : S) × (a : A) × (r ≡ (s, ok a)) × (f a s ≡ (s', err e)))
continue-eq-err (s, ok a) f h = inr (s, a, refl, h)
continue-eq-err (s, err e) f h = inl (ground arith)
continue-eq-err (s, panic) f h = absurd (ground arith)
