-- ===== src/Planning/Questions.antt =====
-- Code that asks the file system whether files exist, as `exists` of crates/netlane-core/src/planning.rs:
-- its questions one at a time, each with what follows either answer.
use netlane.Prelude.{Bool, Text, ◌≡◌, refl, ap, ◌∙◌}

pub data Asking (A : Type 0) : Type 0 where
  done : A → Asking A
  ask : Text → (Bool → Asking A) → Asking A

infixl 5 ◌>>=◌
unfoldable pub ◌>>=◌ : {A B : Type 0} → Asking A → (A → Asking B) → Asking B
done a >>= f = f a
ask t k >>= f = ask t (λ b. k b >>= f)

-- What it returns over a file system that answers by a test.
unfoldable pub answer : {A : Type 0} → (Text → Bool) → Asking A → A
answer exists (done a) = a
answer exists (ask t k) = answer exists (k (exists t))

pub answer-bind :
    {A B : Type 0} (exists : Text → Bool) (m : Asking A) (f : A → Asking B)
    → answer exists (m >>= f) ≡ answer exists (f (answer exists m))
unfolding answer ◌>>=◌
answer-bind exists (done a) f = refl
answer-bind exists (ask t k) f = answer-bind exists (k (exists t)) f

-- Every question, whatever the answers to those before it, is about a path with P.
abbrev pub AllAsked : {A : Type 0} → (Text → Type 0) → Asking A → Type 0
AllAsked P (done a) = Unit
AllAsked P (ask t k) = P t × ((b : Bool) → AllAsked P (k b))

pub bind-AllAsked :
    {A B : Type 0} (P : Text → Type 0) (m : Asking A) (f : A → Asking B)
    → AllAsked P m
    → ((a : A) → AllAsked P (f a))
    → AllAsked P (m >>= f)
unfolding ◌>>=◌
bind-AllAsked P (done a) f h k = k a
bind-AllAsked P (ask t c) f h k = (h.0, λ b. bind-AllAsked P (c b) f (h.1 b) k)

pub answer_agree :
    {A : Type 0} (P : Text → Type 0) (f g : Text → Bool)
    → ((t : Text) → P t → f t ≡ g t)
    → (m : Asking A) → AllAsked P m
    → answer f m ≡ answer g m
unfolding answer
answer_agree P f g agree (done a) h = refl
answer_agree P f g agree (ask t k) h =
    ap (λ b. answer f (k b)) (agree t h.0) ∙ answer_agree P f g agree (k (g t)) (h.1 (g t))
