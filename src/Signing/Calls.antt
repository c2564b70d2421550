-- ===== src/Signing/Calls.antt =====
-- Code that calls a plugin: it returns an outcome, and leaves the plugins in another state.
use notation_go.Prelude.{
  ◌≡◌, ◌≢◌, Bool, true, false, if◌then◌else◌, fail_if, refl, Outcome, ok, err, panic,
}

abbrev pub Call {ℓ} : Type 0 → Type 0 → Type ℓ → Type ℓ
Call W E A = W → Outcome E A × W

unfoldable pub follow {ℓ κ} :
    {W E : Type 0} {A : Type ℓ} {B : Type κ} → Outcome E A × W → (A → Call W E B) → Outcome E B × W
follow (ok a, w) f = f a w
follow (err e, w) f = (err e, w)
follow (panic, w) f = (panic, w)

infixl 5 ◌>>=◌ ◌>>◌
abbrev pub ◌>>=◌ {ℓ κ} :
    {W E : Type 0} {A : Type ℓ} {B : Type κ} → Call W E A → (A → Call W E B) → Call W E B
(m >>= f) w = follow (m w) f

abbrev pub ◌>>◌ {κ} : {W E : Type 0} {B : Type κ} → Call W E (Unit {0}) → Call W E B → Call W E B
m >> k = m >>= λ _. k

-- Code that calls no plugin.
abbrev pub lift {ℓ} : {W E : Type 0} {A : Type ℓ} → Outcome E A → Call W E A
lift o w = (o, w)

-- What is returned satisfies `Q`.
pub data Post {ℓ} {W E : Type 0} {A : Type ℓ} (Q : A → Type 0) : Outcome E A × W → Type ℓ where
  returned : {a : A} {w : W} → Q a → Post Q (ok a, w)
  failed : {e : E} {w : W} → Post Q (err e, w)
  panicked : {w : W} → Post Q (panic, w)

-- A call that does not panic.
pub data Safe {ℓ} {W E : Type 0} {A : Type ℓ} : Outcome E A × W → Type ℓ where
  safe_ok : {a : A} {w : W} → Safe (ok a, w)
  safe_err : {e : E} {w : W} → Safe (err e, w)

module _ {ℓ κ} {W E : Type 0} {A : Type ℓ} {B : Type κ} (f : A → Call W E B) where
  pub Post-lift :
      {Q : B → Type 0} (o : Outcome E A) {w : W}
      → ((a : A) → o ≡ ok a → Post Q (f a w))
      → Post Q (follow (o, w) f)
  unfolding follow
  Post-lift (ok a) h = h a refl
  Post-lift (err e) h = failed
  Post-lift panic h = panicked

  pub Post-follow :
      {Q : B → Type 0} (x : Outcome E A × W)
      → ((a : A) → (w : W) → Post Q (f a w))
      → Post Q (follow x f)
  unfolding follow
  Post-follow (ok a, w) h = h a w
  Post-follow (err e, w) h = failed
  Post-follow (panic, w) h = panicked

  pub Safe-lift :
      (o : Outcome E A) {w : W}
      → o ≢ panic
      → ((a : A) → o ≡ ok a → Safe (f a w))
      → Safe (follow (o, w) f)
  unfolding follow
  Safe-lift (ok a) n h = h a refl
  Safe-lift (err e) n h = safe_err
  Safe-lift panic n h = absurd (n refl)

  pub Safe-step :
      (x : Outcome E A × W)
      → x.0 ≢ panic
      → ((a : A) → (w : W) → x ≡ (ok a, w) → Safe (f a w))
      → Safe (follow x f)
  unfolding follow
  Safe-step (ok a, w) n h = h a w refl
  Safe-step (err e, w) n h = safe_err
  Safe-step (panic, w) n h = absurd (n refl)

  pub Safe-follow :
      {x : Outcome E A × W} → Safe x → ((a : A) → (w : W) → Safe (f a w)) → Safe (follow x f)
  unfolding follow
  Safe-follow (safe_ok {a} {w}) h = h a w
  Safe-follow safe_err h = safe_err

pub Post-end :
    {W E A : Type 0} {Q : A → Type 0} (o : Outcome E A) {w : W}
    → ((a : A) → o ≡ ok a → Q a)
    → Post Q (lift o w)
Post-end (ok a) h = returned (h a refl)
Post-end (err e) h = failed
Post-end panic h = panicked

pub Safe-end : {W E A : Type 0} (o : Outcome E A) {w : W} → o ≢ panic → Safe (lift o w)
Safe-end (ok a) h = safe_ok
Safe-end (err e) h = safe_err
Safe-end panic h = absurd (h refl)

value : {W E A : Type 0} {Q : A → Type 0} {a : A} {w : W} → Post {E = E} Q (ok a, w) → Q a
value (returned q) = q

pub Post-returned :
    {W E A : Type 0} {Q : A → Type 0} {x : Outcome E A × W} {a : A} {w : W}
    → Post Q x
    → x ≡ (ok a, w)
    → Q a
Post-returned p h = value (rw h at p)

pub Safe-ne-panic : {W E A : Type 0} {x : Outcome E A × W} → Safe x → x.0 ≢ panic
Safe-ne-panic safe_ok = λ z. cc z
Safe-ne-panic safe_err = λ z. cc z

pub Post-map :
    {W E A : Type 0} {Q R : A → Type 0} {x : Outcome E A × W}
    → Post Q x
    → ((a : A) → Q a → R a)
    → Post R x
Post-map (returned {a} q) h = returned (h a q)
Post-map failed h = failed
Post-map panicked h = panicked

pub Post-if :
    {W E A : Type 0} {Q : A → Type 0} (b : Bool) (m k : Call W E A) {w : W}
    → Post Q (m w)
    → Post Q (k w)
    → Post Q ((if b then m else k) w)
Post-if true m k p q = p
Post-if false m k p q = q

pub Safe-if :
    {W E A : Type 0} (b : Bool) (m k : Call W E A) {w : W}
    → Safe (m w)
    → Safe (k w)
    → Safe ((if b then m else k) w)
Safe-if true m k p q = p
Safe-if false m k p q = q

-- A step that succeeds, and what follows it.
module _ {ℓ} {W E : Type 0} {A : Type ℓ} {B : Type 0} (f : A → Call W E B) where
  pub follow-eq :
      (x : Outcome E A × W) (a : A) (w : W) {r : Outcome E B × W}
      → x ≡ (ok a, w)
      → f a w ≡ r
      → follow x f ≡ r
  unfolding follow
  follow-eq x a w h k = rw (h, follow, k) refl

pub follow-fail_if :
    {W E B : Type 0} (f : Unit {0} → Call W E B) (b : Bool) (e : E) {w : W} {r : Outcome E B × W}
    → b ≡ false
    → f tt w ≡ r
    → follow (lift (fail_if b e) w) f ≡ r
unfolding follow
follow-fail_if f b e h k = rw (h, follow, k) refl
