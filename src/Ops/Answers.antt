-- ===== src/Ops/Answers.antt =====
-- What every answer of an operation (athanore/engine/ops.py) satisfies; a refusal satisfies it as
-- it is, for it writes nothing.
use athanore.Prelude.{◌≡◌, refl, Bool, true, false}
use athanore.Ops.{Refusal, Answer, answered, refused, refuse_if, ◌>>=◌}

abbrev pub Answers {ℓ κ} : {A : Type ℓ} → (A → Type κ) → Answer A → Type κ
Answers P (answered a) = P a
Answers P (refused r) = Unit

pub bind-Answers {ℓ μ κ} :
    {A : Type ℓ} {B : Type μ} (P : B → Type κ) (call : Answer A) (next : A → Answer B)
    → ((a : A) → call ≡ answered a → Answers P (next a))
    → Answers P (call >>= next)
bind-Answers P (answered a) next h = h a refl
bind-Answers P (refused r) next h = tt

pub refuse_if-Answers {ℓ κ} :
    {A : Type ℓ} (P : A → Type κ) (b : Bool) (r : Refusal) (next : Answer A)
    → (b ≡ false → Answers P next)
    → Answers P (refuse_if b r >>= λ _. next)
refuse_if-Answers P true r next h = tt
refuse_if-Answers P false r next h = h refl

pub Answers-answered {ℓ κ} :
    {A : Type ℓ} (P : A → Type κ) (call : Answer A) (a : A)
    → Answers P call
    → call ≡ answered a
    → P a
Answers-answered P call a h e = rw e at h
